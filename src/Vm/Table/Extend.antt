-- ===== src/Vm/Table/Extend.antt =====
-- `kalloc` and the entry for the new table.
use modified_riscv.Base.{
  ℕ, suc, ◌+◌, ◌*◌, ◌%◌, ◌<◌, ◌≡◌, refl, sym, ◌∙◌, ap, subst, true, false, some, List, ◌∷◌, arith,
}
use modified_riscv.Kalloc.{Kmem, memset_page}
use modified_riscv.Kalloc.Refine.{IsFree, Outside, memset-Outside}
use modified_riscv.Vm.Table.{is_valid, pte2pa, pa2pte}
use modified_riscv.Vm.Table.Tree.{Owner, IsTree, IsFree-frame}
use modified_riscv.Vm.Table.Grow.{none-some, label_of, Grows, table-Outside, entry_at-frame}

zero_invalid : is_valid 0 ≡ false
zero_invalid = refl

pub pa2pte-valid : (pa perm : ℕ) → is_valid (pa2pte pa perm) ≡ true
pa2pte-valid pa perm = ground arith

pub pte2pa-pa2pte : (pa perm : ℕ) → pa % 4096 ≡ 0 → perm < 1024 → pte2pa (pa2pte pa perm) ≡ pa
pte2pa-pa2pte pa perm aligned small = omega arith

pub labels : (a b : ℕ × ℕ) → some a ≡ some b → (a.0 ≡ b.0) × (a.1 ≡ b.1)
labels a b e = (ap (λ o. (label_of a o).0) e, ap (λ o. (label_of a o).1) e)

pub memset-zero : (x i : ℕ) (mem : ℕ → ℕ) → i < 512 → memset_page x 0 mem (x + 8 * i) ≡ 0
memset-zero x i mem lt = ground arith

module _ (kernel_end : ℕ) (positive : 0 < kernel_end) (root : ℕ) where
  -- The page that `kalloc` gives, cleared, is no table yet.
  pub cleared :
      (owner : Owner) (x : ℕ) (xs : List ℕ) (k k1 : Kmem)
      → IsTree kernel_end positive root owner (x ∷ xs) k
      → IsFree kernel_end positive k1 xs
      → ((a : ℕ) → Outside kernel_end positive x a → k1.mem a ≡ k.mem a)
      → IsTree kernel_end positive root owner xs (record k1 { mem = memset_page x 0 k1.mem })
        × Grows owner k.mem owner (memset_page x 0 k1.mem)
        × ((p i : ℕ) (o : ℕ × ℕ)
            → owner p ≡ some o
            → i < 512
            → memset_page x 0 k1.mem (p + 8 * i) ≡ k.mem (p + 8 * i))
  cleared owner x xs k k1 t free outside = (
    record {
      free =
          IsFree-frame kernel_end positive root k1 (memset_page x 0 k1.mem) xs x t.free.whole.0
            t.free.distinct.0 (memset-Outside kernel_end positive x 0 k1.mem) free;
      unowned = t.unowned.1;
      at_root = t.at_root;
      whole = t.whole;
      entries = λ p l n i e lt v.
          subst (λ w. owner (pte2pa w) ≡ some (l, n * 512 + i)) (sym (agree p i (suc l, n) e lt))
            (t.entries p l n i e lt (sym (ap is_valid (agree p i (suc l, n) e lt)) ∙ v));
    },
    record {
      kept = λ p o e. e;
      fixed = λ p l n i e lt v. agree p i (suc l, n) e lt;
      same = λ l va p le e.
          entry_at-frame kernel_end positive root owner (x ∷ xs) k (memset_page x 0 k1.mem) t agree
            l va p le e;
    },
    agree,
  )
    where
      agree :
          (p i : ℕ) (o : ℕ × ℕ)
          → owner p ≡ some o
          → i < 512
          → memset_page x 0 k1.mem (p + 8 * i) ≡ k.mem (p + 8 * i)
      agree p i o e lt =
          let out : Outside kernel_end positive x (p + 8 * i) =
            table-Outside kernel_end positive root p x i (t.whole p o e) t.free.whole.0
              (λ same. none-some o (sym t.unowned.0 ∙ ap owner same ∙ e)) lt in
          memset-Outside kernel_end positive x 0 k1.mem (p + 8 * i) out ∙ outside (p + 8 * i) out
