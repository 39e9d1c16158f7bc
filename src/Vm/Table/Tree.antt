-- ===== src/Vm/Table/Tree.antt =====
-- The shape of a page table: three levels of pages, and which part of the address space each serves.
use modified_riscv.Base.{
  ℕ, zero, suc, ◌+◌, ◌*◌, ◌/◌, ◌^◌, ◌<◌, ◌≡◌, ◌≢◌, sym, ◌∙◌, ap, true, Option, none, some, List, [],
  ◌∷◌, All, if◌then◌else◌, update, arith,
}
use modified_riscv.Kalloc.{Kmem, IsPage}
use modified_riscv.Kalloc.Refine.{IsFree, Outside, Links-frame}
use modified_riscv.Vm.Table.{is_valid, pte2pa, px, slot}

-- The part of the address space that a table of this level serves, by its number.
abbrev pub part : ℕ → ℕ → ℕ
part level va = va / 2 ^ (12 + 9 * suc level)

pub part-px : (l va : ℕ) → l < 2 → part l va ≡ part (suc l) va * 512 + px (suc l) va
part-px zero va lt = omega arith
part-px (suc zero) va lt = omega arith
part-px (suc (suc l)) va lt = absurd (omega arith)

-- The entry for an address in the tables below `p`, or 0 where a table is missing.
abbrev pub entry_at : ℕ → ℕ → ℕ → (ℕ → ℕ) → ℕ
entry_at zero va p mem = mem (slot 0 va p)
entry_at (suc l) va p mem =
    if is_valid (mem (slot (suc l) va p))
    then entry_at l va (pte2pa (mem (slot (suc l) va p))) mem
    else 0

-- Each table's level and part, and nothing for the other pages.
abbrev pub Owner : Type 0
Owner = ℕ → Option (ℕ × ℕ)

abbrev pub own : Owner → ℕ → ℕ × ℕ → Owner
own owner p o = update owner p (some o)

module _ (kernel_end : ℕ) (positive : 0 < kernel_end) (root : ℕ) where
  -- A valid entry above the lowest level leads to the table of its part; no table is a free page.
  pub record IsTree (owner : Owner) (pages : List ℕ) (k : Kmem) : Type 0 where
    pub free : IsFree kernel_end positive k pages
    pub unowned : All (λ x. owner x ≡ none) pages
    pub at_root : owner root ≡ some (2, 0)
    pub whole : (p : ℕ) (o : ℕ × ℕ) → owner p ≡ some o → IsPage kernel_end p
    pub entries :
        (p l n i : ℕ)
        → owner p ≡ some (suc l, n)
        → i < 512
        → is_valid (k.mem (p + 8 * i)) ≡ true
        → owner (pte2pa (k.mem (p + 8 * i))) ≡ some (l, n * 512 + i)

  -- An owned page is none of the free ones.
  pub apart-All :
      (owner : Owner) (p : ℕ) (o : ℕ × ℕ) (pages : List ℕ)
      → owner p ≡ some o
      → All (λ x. owner x ≡ none) pages
      → All (λ x. p ≢ x) pages
  apart-All owner p o [] e un = tt
  apart-All owner p o (x ∷ xs) e (u, us) =
      (λ same. absurd (none-some (sym u ∙ ap owner (sym same) ∙ e)), apart-All owner p o xs e us)
    where
      none-some : none ≡ some o → ⊥
      none-some e = cc

  pub IsFree-frame :
      (k : Kmem) (mem : ℕ → ℕ) (pages : List ℕ) (pa : ℕ)
      → IsPage kernel_end pa
      → All (λ y. pa ≢ y) pages
      → ((a : ℕ) → Outside kernel_end positive pa a → mem a ≡ k.mem a)
      → IsFree kernel_end positive k pages
      → IsFree kernel_end positive (record k { mem = mem }) pages
  IsFree-frame k mem pages pa page other same f = record {
    links =
        Links-frame kernel_end positive k.mem mem pa page same k.freelist pages f.whole other
          f.links;
    whole = f.whole;
    distinct = f.distinct;
  }
