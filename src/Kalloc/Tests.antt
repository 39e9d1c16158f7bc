-- ===== src/Kalloc/Tests.antt =====
-- The allocator with a small kernel, and its theorems at these inputs.
use modified_riscv.Base.{ℕ, ◌≡◌, ◌<◌, ◌≤◌, ◌%◌, refl, List, [], ◌∷◌, arith, update}
use modified_riscv.Kalloc.{pgsize, phystop, Kmem, kalloc, IsPage}
use modified_riscv.Kalloc.Refine.{IsFree, Pops, kalloc-Pops}

-- The kernel ends at 5000; the pages at 8192 and 12288 are free.
abbrev kernel_end : ℕ
kernel_end = 5000

abbrev two_free : Kmem
two_free = record { freelist = 8192; mem = update (λ _. 0) 8192 12288 }

abbrev two_pages : List ℕ
two_pages = 8192 ∷ 12288 ∷ []

positive : 0 < kernel_end
positive = omega arith

page : (pa : ℕ) → pa % pgsize ≡ 0 → kernel_end ≤ pa → pa < phystop → IsPage kernel_end pa
page pa a l h = record { aligned = a; low = l; high = h }

two-IsFree : IsFree kernel_end positive two_free two_pages
two-IsFree = record {
  links = (refl, (refl, refl));
  whole = (
    page 8192 (omega arith) (omega arith) (omega arith),
    (page 12288 (omega arith) (omega arith) (omega arith), tt),
  );
  distinct = ((omega arith, tt), (tt, tt));
}

kalloc-Pops_example : Pops kernel_end positive two_free two_pages (kalloc two_free)
kalloc-Pops_example = kalloc-Pops kernel_end positive two_free two_pages two-IsFree
