-- ===== src/Bio.antt =====
-- kernel/bio.c: the buffer cache, each function one atomic step under `bcache.lock`. The list from
-- `bcache.head.next` on, most recently used first, is the list `order` of indices into `bcache.buf`;
-- the sleep locks of the buffers and the disk are left out.
pub mod Find
pub mod Unique
mod Tests
use modified_riscv.Base.{
  ℕ, zero, suc, ◌+◌, ◌-◌, Bool, true, false, ◌&&◌, Option, none, some, List, [], ◌∷◌, ◌==◌,
  if◌then◌else◌, update,
}

-- struct buf, without its lock and contents
pub record Buf : Type 0 where
  pub dev : ℕ
  pub blockno : ℕ
  pub valid : Bool
  pub refcnt : ℕ

pub record Bcache : Type 0 where
  pub buf : ℕ → Buf
  pub order : List ℕ

-- The loop of `binit`: each buffer goes to the front.
unfoldable pub binit_order : ℕ → ℕ → List ℕ → List ℕ
binit_order b zero order = order
binit_order b (suc r) order = binit_order (b + 1) r (b ∷ order)

-- The buffers start as zeroed memory.
abbrev pub binit : ℕ → Bcache
binit nbuf = record {
  buf = λ _. record { dev = 0; blockno = 0; valid = false; refcnt = 0 };
  order = binit_order 0 nbuf [];
}

abbrev pub holds : ℕ → ℕ → Buf → Bool
holds dev blockno b = b.dev == dev && b.blockno == blockno

-- The first loop of `bget`, from the front.
unfoldable pub find_cached : ℕ → ℕ → (ℕ → Buf) → List ℕ → Option ℕ
find_cached dev blockno buf [] = none
find_cached dev blockno buf (b ∷ order) =
    if holds dev blockno (buf b) then some b else find_cached dev blockno buf order

-- The second loop, from the back.
unfoldable pub find_unused : (ℕ → Buf) → List ℕ → Option ℕ
find_unused buf [] = none
find_unused buf (b ∷ order) = elim (find_unused buf order) [
  | some c ↦ some c
  | none ↦ if (buf b).refcnt == 0 then some b else none
]

abbrev pub change : ℕ → (Buf → Buf) → Bcache → Bcache
change i f c = record c { buf = update c.buf i (f (c.buf i)) }

abbrev pub more : Buf → Buf
more b = record b { refcnt = b.refcnt + 1 }

abbrev pub recycled : ℕ → ℕ → Buf → Buf
recycled dev blockno b = record { dev = dev; blockno = blockno; valid = false; refcnt = 1 }

-- `none` is the panic.
unfoldable pub bget : ℕ → ℕ → Bcache → Option (ℕ × Bcache)
unfolding find_cached find_unused
bget dev blockno c = elim (find_cached dev blockno c.buf c.order) [
  | some i ↦ some (i, change i more c)
  | none ↦ elim (find_unused c.buf c.order) [
    | some i ↦ some (i, change i (recycled dev blockno) c)
    | none ↦ none
  ]
]

abbrev pub fewer : Buf → Buf
fewer b = record b { refcnt = b.refcnt - 1 }

-- b->next->prev = b->prev and b->prev->next = b->next
unfoldable pub unlink : ℕ → List ℕ → List ℕ
unlink i [] = []
unlink i (b ∷ order) = if b == i then order else b ∷ unlink i order

-- A buffer is released by a caller that holds it, so that its count is positive.
unfoldable pub brelse : ℕ → Bcache → Bcache
unfolding unlink
brelse i c =
    let released = change i fewer c in
    if (c.buf i).refcnt - 1 == 0 then record released { order = i ∷ unlink i c.order } else released

abbrev pub bpin : ℕ → Bcache → Bcache
bpin i c = change i more c

abbrev pub bunpin : ℕ → Bcache → Bcache
bunpin i c = change i fewer c
