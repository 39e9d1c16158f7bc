-- ===== src/Vm/Table/Mapping.antt =====
-- The map from page numbers to entries that a tree of tables stands for, and a write to one of its entries.
use modified_riscv.Base.{
  ℕ, ◌+◌, ◌-◌, ◌*◌, ◌^◌, ◌<◌, ◌≡◌, ◌≢◌, sym, ◌∙◌, ap, subst, true, false, ◌&&◌, some, List, ◌==◌,
  leb, ltb, if◌then◌else◌, update, arith,
}
use native.Mathlib.Decide.{ℕ_discrete}
use modified_riscv.Kalloc.{pgsize, Kmem}
use modified_riscv.Vm.Table.{maxva, pa2pte, slot}
use modified_riscv.Vm.Table.Tree.{part, entry_at, Owner, IsTree}
use modified_riscv.Vm.Table.Walk.{Leads}
use modified_riscv.Vm.Table.Leaf.{entry_at-written, entry_at-other}

-- The entry for page `m` of the address space.
abbrev pub mapping : ℕ → ℕ → (ℕ → ℕ) → ℕ
mapping root m mem = entry_at 2 (m * pgsize) root mem

-- The map with `n` pages from `base` on mapped to those from `pa` on.
abbrev pub mapped : ℕ → ℕ → ℕ → ℕ → ℕ → (ℕ → ℕ) → ℕ → ℕ
mapped root base n pa perm mem m =
    if leb base m && ltb m (base + n)
    then pa2pte (pa + (m - base) * pgsize) perm
    else mapping root m mem

-- The pages below 2 * MAXVA, which three levels of tables tell apart.
abbrev pub IsInside : ℕ → Type 0
IsInside m = m < 2 ^ 27

module _ (kernel_end : ℕ) (positive : 0 < kernel_end) (root : ℕ) where
  pub part-root :
      (owner : Owner) (m : ℕ)
      → IsInside m
      → owner root ≡ some (2, 0)
      → owner root ≡ some (2, part 2 (m * pgsize))
  part-root owner m lt e = e ∙ ap (λ n. some (2, n)) zeroth
    where
      zeroth : 0 ≡ part 2 (m * pgsize)
      zeroth = omega (arith, lt)

  equal_test : (i j : ℕ) → i ≡ j → (i == j) ≡ true
  equal_test i j e = ground arith

  unequal_test : (i j : ℕ) → i ≢ j → (i == j) ≡ false
  unequal_test i j e = ground arith

  -- The map after a write to the entry of a page.
  pub written_entry :
      (owner : Owner) (pages : List ℕ) (k : Kmem) (base q v : ℕ) (mem : ℕ → ℕ)
      → IsTree kernel_end positive root owner pages k
      → base * pgsize < maxva
      → owner q ≡ some (0, part 0 (base * pgsize))
      → Leads 2 (base * pgsize) root q k.mem
      → ((m : ℕ) → IsInside m → mapping root m k.mem ≡ mapping root m mem)
      → (m : ℕ) → IsInside m
      → mapping root m (update k.mem (slot 0 (base * pgsize) q) v)
        ≡ (if base == m then v else mapping root m mem)
  written_entry owner pages k base q v mem t low own_q leads before m lt =
      elim (ℕ_discrete base m) [
        | yes same ↦
            subst (λ j. mapping root j (update k.mem (slot 0 (base * pgsize) q) v) ≡ v) same
              (entry_at-written kernel_end positive root owner pages k (base * pgsize) q v t own_q 2
                root (omega arith) (part-root owner base (omega (arith, low)) t.at_root) leads)
            ∙ ap (λ b. if b then v else mapping root m mem) (sym (equal_test base m same))
        | no ne ↦
            entry_at-other kernel_end positive root owner pages k (base * pgsize) q v t own_q 2
              (m * pgsize) root (omega arith) (λ f. ne (omega (arith, f)))
              (part-root owner m lt t.at_root)
            ∙ before m lt
            ∙ ap (λ b. if b then v else mapping root m mem) (sym (unequal_test base m ne))
      ]
