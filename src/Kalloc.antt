-- ===== src/Kalloc.antt =====
-- kernel/kalloc.c: the allocator of physical pages. Its state is `kmem.freelist` and the physical
-- memory, in 64-bit words by their addresses; the list is linked through the first word of each free
-- page. `kmem.lock` is held over each function's work, which is one atomic step here.
pub mod Refine
pub mod Range
mod Tests
use modified_riscv.Base.{
  ℕ, zero, suc, ◌+◌, ◌-◌, ◌*◌, ◌/◌, ◌%◌, ◌≤◌, ◌<◌, ◌≡◌, ◌≢◌, Bool, ◌&&◌, ◌||◌, not, Option, none,
  some, List, [], ◌∷◌, All, ltb, leb, ◌==◌, if◌then◌else◌, update, ◌>>=◌,
}

-- PGSIZE of kernel/riscv.h and PHYSTOP of kernel/memlayout.h
abbrev pub pgsize : ℕ
pgsize = 4096

abbrev pub phystop : ℕ
phystop = 0x88000000

-- PGROUNDUP: the mask clears the low twelve bits.
abbrev pub pgroundup : ℕ → ℕ
pgroundup sz = (sz + pgsize - 1) / pgsize * pgsize

pub record Kmem : Type 0 where
  pub freelist : ℕ
  pub mem : ℕ → ℕ

-- memset(pa, c, PGSIZE), on the words of the page
abbrev pub memset_page : ℕ → ℕ → (ℕ → ℕ) → ℕ → ℕ
memset_page pa c mem a = if leb pa a && ltb a (pa + pgsize) then c * 0x0101010101010101 else mem a

-- `end`, the first address after the kernel, is set by the linker.
module _ (kernel_end : ℕ) where
  -- the test of `kfree`
  abbrev pub refuses : ℕ → Bool
  refuses pa = not (pa % pgsize == 0) || ltb pa kernel_end || leb phystop pa

  -- `none` is the panic.
  unfoldable pub kfree : ℕ → Kmem → Option Kmem
  kfree pa k =
      if refuses pa
      then none
      else some (record { freelist = pa; mem = update (memset_page pa 1 k.mem) pa k.freelist })

  -- The body of the loop of `freerange`, on the number of pages left.
  pub free_pages : ℕ → ℕ → Kmem → Option Kmem
  unfolding kfree
  free_pages p zero k = some k
  free_pages p (suc n) k = kfree p k >>= λ k'. free_pages (p + pgsize) n k'

  -- for(; p + PGSIZE <= pa_end; p += PGSIZE): the rounds are the whole pages from `p` on.
  pub freerange : ℕ → ℕ → Kmem → Option Kmem
  unfolding free_pages
  freerange pa_start pa_end k =
      free_pages (pgroundup pa_start) ((pa_end - pgroundup pa_start) / pgsize) k

  pub kinit : Kmem → Option Kmem
  unfolding freerange
  kinit k = freerange kernel_end phystop k

  -- A page that `kfree` accepts.
  pub record IsPage (pa : ℕ) : Type 0 where
    pub aligned : pa % pgsize ≡ 0
    pub low : kernel_end ≤ pa
    pub high : pa < phystop

-- The page, or 0, and the new state.
unfoldable pub kalloc : Kmem → ℕ × Kmem
kalloc k =
    let r = k.freelist in
    if r == 0 then (0, k) else (r, record { freelist = k.mem r; mem = memset_page r 5 k.mem })
