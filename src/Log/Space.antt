-- ===== src/Log/Space.antt =====
-- kernel/log.c: `begin_op`, `log_write` and `end_op`, each one atomic step under `log.lock`.
pub mod Reserved
use modified_riscv.Base.{
  ℕ, zero, suc, ◌+◌, ◌-◌, ◌*◌, ◌≡◌, Bool, true, false, ◌||◌, Option, none, some, List, [], ◌∷◌,
  ◌++◌, leb, ltb, ◌==◌, if◌then◌else◌, update,
}

-- MAXOPBLOCKS and LOGSIZE of kernel/param.h
abbrev pub maxopblocks : ℕ
maxopblocks = 10

abbrev pub logsize : ℕ
logsize = 30

-- struct log, without its lock and its place on the disk
pub record Log : Type 0 where
  pub size : ℕ
  pub outstanding : ℕ
  pub committing : Bool
  pub n : ℕ
  pub block : ℕ → ℕ

-- A round of the loop of `begin_op`: whether the operation has begun, or sleeps.
unfoldable pub begin_op : Log → Bool × Log
begin_op l =
    if l.committing
    then (false, l)
    else if ltb logsize (l.n + (l.outstanding + 1) * maxopblocks)
    then (false, l)
    else (true, record l { outstanding = l.outstanding + 1 })

-- The index of the block among the first `n`, from `i` on, or `i + r` after `r` rounds.
unfoldable pub absorb : ℕ → ℕ → (ℕ → ℕ) → ℕ → ℕ
absorb b i block zero = i
absorb b i block (suc r) = let rest = absorb b (i + 1) block r in if block i == b then i else rest

-- `none` is a panic.
unfoldable pub log_write : ℕ → Log → Option Log
unfolding absorb
log_write b l =
    if leb logsize l.n || leb (l.size - 1) l.n
    then none
    else if ltb l.outstanding 1
    then none
    else let i = absorb b 0 l.block l.n in
      some (record l { block = update l.block i b; n = if i == l.n then l.n + 1 else l.n })

-- The first part of `end_op`, and whether the caller commits. An operation is under way, so that
-- `outstanding` is positive.
unfoldable pub end_op : Log → Option (Bool × Log)
end_op l =
    if l.committing
    then none
    else if l.outstanding - 1 == 0
    then some (true, record l { outstanding = l.outstanding - 1; committing = true })
    else some (false, record l { outstanding = l.outstanding - 1 })

-- The second part of `end_op`, after `commit`, which leaves an empty header.
abbrev pub end_commit : Log → Log
end_commit l = record l { n = 0; committing = false }

-- The log, and for each operation under way how many more blocks it may add to the log.
pub record System : Type 0 where
  pub log : Log
  pub left : List ℕ

pub data Step : System → System → Type 0 where
  begins :
      (s : System) (l : Log)
      → begin_op s.log ≡ (true, l)
      → Step s (record { log = l; left = maxopblocks ∷ s.left })
  -- log_write, of a block that is new in the log
  writes :
      (s : System) (b r : ℕ) (xs ys : List ℕ) (l : Log)
      → s.left ≡ xs ++ (suc r ∷ ys)
      → log_write b s.log ≡ some l
      → l.n ≡ s.log.n + 1
      → Step s (record { log = l; left = xs ++ (r ∷ ys) })
  -- log_write, of a block that the log has, by an operation under way
  absorbs :
      (s : System) (b r : ℕ) (xs ys : List ℕ) (l : Log)
      → s.left ≡ xs ++ (r ∷ ys)
      → log_write b s.log ≡ some l
      → l.n ≡ s.log.n
      → Step s (record s { log = l })
  ends :
      (s : System) (r : ℕ) (xs ys : List ℕ) (commits : Bool) (l : Log)
      → s.left ≡ xs ++ (r ∷ ys)
      → end_op s.log ≡ some (commits, l)
      → Step s (record { log = l; left = xs ++ ys })
  committed : (s : System) → s.log.committing ≡ true → Step s (record s { log = end_commit s.log })

abbrev pub new_log : ℕ → Log
new_log size = record { size = size; outstanding = 0; committing = false; n = 0; block = λ _. 0 }

-- From `initlog` on.
pub data Reached (size : ℕ) : System → Type 0 where
  boot : Reached size (record { log = new_log size; left = [] })
  then_step : {s t : System} → Reached size s → Step s t → Reached size t
