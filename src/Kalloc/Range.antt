-- ===== src/Kalloc/Range.antt =====
-- `freerange` and `kinit`: which pages the list holds at the start.
use modified_riscv.Base.{
  ℕ, zero, suc, ◌+◌, ◌-◌, ◌*◌, ◌/◌, ◌%◌, ◌≤◌, ◌<◌, ◌≡◌, ◌≢◌, List, [], ◌∷◌, All, arith, Returns,
  bind-Returns,
}
use modified_riscv.Kalloc.{pgsize, phystop, pgroundup, Kmem, kfree, free_pages, freerange, kinit}
use modified_riscv.Kalloc.Refine.{IsFree, kfree-IsFree}

-- The `n` pages from `p` on, the last one first, before the pages `rest`.
unfoldable pub pages_from : ℕ → ℕ → List ℕ → List ℕ
pages_from p zero rest = rest
pages_from p (suc n) rest = pages_from (p + pgsize) n (p ∷ rest)

module _ (kernel_end : ℕ) (positive : 0 < kernel_end) where
  free_pages-IsFree :
      (n p : ℕ) (k : Kmem) (rest : List ℕ)
      → p % pgsize ≡ 0
      → kernel_end ≤ p
      → p + n * pgsize ≤ phystop
      → IsFree kernel_end positive k rest
      → All (λ y. y < p) rest
      → Returns
          (free_pages kernel_end p n k)
          (λ k'. IsFree kernel_end positive k' (pages_from p n rest))
  unfolding free_pages pages_from
  free_pages-IsFree zero p k rest al low high f below = f
  free_pages-IsFree (suc n) p k rest al low high f below =
      bind-Returns (kfree kernel_end p k) _ _ _
        (kfree-IsFree kernel_end positive k rest p f
          (record { aligned = al; low = low; high = omega arith }) (All-ne rest below))
        (λ k' h.
          free_pages-IsFree n (p + pgsize) k' (p ∷ rest) (omega arith) (omega arith) (omega arith)
            h.0 (omega arith, All-later rest below))
    where
      All-ne : (ys : List ℕ) → All (λ y. y < p) ys → All (λ y. p ≢ y) ys
      All-ne [] h = tt
      All-ne (y ∷ ys) h = (omega arith, All-ne ys h.1)

      All-later : (ys : List ℕ) → All (λ y. y < p) ys → All (λ y. y < p + pgsize) ys
      All-later [] h = tt
      All-later (y ∷ ys) h = (omega arith, All-later ys h.1)

  -- `kinit` never panics where the kernel ends below PHYSTOP: from an empty list it frees exactly the
  -- whole pages between the end of the kernel and PHYSTOP, each once.
  pub kinit-IsFree :
      (k : Kmem)
      → kernel_end ≤ phystop
      → k.freelist ≡ 0
      → Returns (kinit kernel_end k) (λ k'.
        IsFree kernel_end positive k'
          (pages_from (pgroundup kernel_end) ((phystop - pgroundup kernel_end) / pgsize) []))
  unfolding kinit freerange
  kinit-IsFree k room empty =
      free_pages-IsFree ((phystop - pgroundup kernel_end) / pgsize) (pgroundup kernel_end) k []
        (omega arith) (omega arith) (omega arith)
        (record { links = empty; whole = tt; distinct = tt }) tt
