-- ===== src/Vm/Space/Create.antt =====
-- `uvmcreate`: the tree of one table.
use modified_riscv.Base.{
  ℕ, suc, ◌+◌, ◌*◌, ◌<◌, ◌≡◌, ◌≢◌, refl, sym, ◌∙◌, ap, subst, true, false, none, some, List, [],
  ◌∷◌, All, ◌==◌, if◌then◌else◌, update, update_self, update_ne, arith,
}
use native.Mathlib.Decide.{ℕ_discrete}
use modified_riscv.Kalloc.{pgsize, Kmem, memset_page, kalloc, IsPage}
use modified_riscv.Kalloc.Refine.{IsFree, memset-Outside, kalloc-Pops, Pops}
use modified_riscv.Vm.Table.{is_valid, px}
use modified_riscv.Vm.Table.Tree.{Owner, IsTree, IsFree-frame}
use modified_riscv.Vm.Table.Grow.{none-some, px-small}
use modified_riscv.Vm.Table.Extend.{memset-zero}
use modified_riscv.Vm.Table.Mapping.{mapping, IsInside}
use modified_riscv.Vm.Space.{uvmcreate}

-- The owner of one table, the root.
abbrev pub root_only : ℕ → Owner
root_only root = update (λ _. none) root (some (2, 0))

root_only-at : (root p : ℕ) (o : ℕ × ℕ) → root_only root p ≡ some o → root ≡ p
root_only-at root p o e = elim (ℕ_discrete root p) [
  | yes same ↦ same
  | no ne ↦ absurd (none-some o (sym (update_ne (λ _. none) root p (some (2, 0)) ne) ∙ e))
]

-- A cleared page outside the free ones is an empty tree.
pub cleared-IsTree :
    (kernel_end : ℕ) (positive : 0 < kernel_end) (root : ℕ) (pages : List ℕ) (k : Kmem)
    → IsFree kernel_end positive k pages
    → IsPage kernel_end root
    → All (λ x. root ≢ x) pages
    → ((i : ℕ) → i < 512 → k.mem (root + 8 * i) ≡ 0)
    → IsTree kernel_end positive root (root_only root) pages k
cleared-IsTree kernel_end positive root pages k f page other empty = record {
  free = f;
  unowned = apart pages other;
  at_root = update_self (λ _. none) root (some (2, 0));
  whole = λ p o e. subst (IsPage kernel_end) (root_only-at root p o e) page;
  entries = λ p l n i e lt v. absurd (
      not_valid (
        sym v
        ∙ ap (λ q. is_valid (k.mem (q + 8 * i))) (sym (root_only-at root p (suc l, n) e))
        ∙ ap is_valid (empty i lt)));
}
  where
    not_valid : true ≡ false → ⊥
    not_valid e = cc

    apart : (ps : List ℕ) → All (λ x. root ≢ x) ps → All (λ x. root_only root x ≡ none) ps
    apart [] other = tt
    apart (x ∷ xs) (ne, nes) = (update_ne (λ _. none) root x (some (2, 0)) ne, apart xs nes)

abbrev pub Created : (kernel_end : ℕ) → 0 < kernel_end → Kmem → List ℕ → ℕ × Kmem → Type 0
Created kernel_end positive k [] r = r ≡ (0, k)
Created kernel_end positive k (x ∷ xs) r =
    (r.0 ≡ x)
    × IsTree kernel_end positive x (root_only x) xs r.1
    × ((m : ℕ) → IsInside m → mapping x m r.1.mem ≡ 0)

-- `uvmcreate` gives 0 and changes nothing if no page is free, and else the first free page as a
-- tree of one table, in which no page is mapped, with the other pages free.
pub uvmcreate-Created :
    (kernel_end : ℕ) (positive : 0 < kernel_end) (k : Kmem) (pages : List ℕ)
    → IsFree kernel_end positive k pages
    → Created kernel_end positive k pages (uvmcreate k)
unfolding uvmcreate
uvmcreate-Created kernel_end positive k pages f =
    by_pages pages f (kalloc k) (kalloc-Pops kernel_end positive k pages f)
  where
    some_page : (x : ℕ) → IsPage kernel_end x → (x == 0) ≡ false
    some_page x page = positive_test x (omega (arith, page.low))
      where
        positive_test : (x : ℕ) → 0 < x → (x == 0) ≡ false
        positive_test x lt = ground arith

    by_pages :
        (ps : List ℕ)
        → IsFree kernel_end positive k ps
        → (r : ℕ × Kmem) → Pops kernel_end positive k ps r
        → Created kernel_end positive k ps
            (if r.0 == 0 then (0, r.1) else (r.0, record r.1 { mem = memset_page r.0 0 r.1.mem }))
    by_pages [] f r popped =
        subst
          (λ s.
            Created kernel_end positive k [] (
              if s.0 == 0 then (0, s.1) else (s.0, record s.1 { mem = memset_page s.0 0 s.1.mem })))
          (sym popped) refl
    by_pages (x ∷ xs) f (y, k1) (same, free, outside) =
        subst
          (λ z.
            Created kernel_end positive k (x ∷ xs)
              (if z == 0 then (0, k1) else (z, record k1 { mem = memset_page z 0 k1.mem })))
          (sym same)
          (rw (some_page x f.whole.0) (
            refl,
            cleared-IsTree kernel_end positive x xs kc
                (IsFree-frame kernel_end positive x k1 kc.mem xs x f.whole.0 f.distinct.0
                  (memset-Outside kernel_end positive x 0 k1.mem) free)
                f.whole.0 f.distinct.0 (λ i lt. memset-zero x i k1.mem lt),
            λ m lt. rw (memset-zero x (px 2 (m * pgsize)) k1.mem (px-small 2 (m * pgsize))) refl,
          ))
      where
        kc : Kmem
        kc = record k1 { mem = memset_page x 0 k1.mem }
