-- ===== src/Vm/Table/Leaf.antt =====
-- A write of an entry of the lowest level.
use modified_riscv.Base.{
  ℕ, zero, suc, ◌+◌, ◌*◌, ◌/◌, ◌≤◌, ◌<◌, ◌≡◌, ◌≢◌, inl, inr, refl, sym, ◌∙◌, ap, subst, Bool, true,
  false, some, List, if◌then◌else◌, update, update_self, update_ne, arith,
}
use native.Mathlib.Decide.{ℕ_discrete}
use modified_riscv.Kalloc.{Kmem}
use modified_riscv.Kalloc.Refine.{Outside}
use modified_riscv.Vm.Table.{is_valid, pte2pa, px, slot}
use modified_riscv.Vm.Table.Tree.{part, entry_at, Owner, IsTree, apart-All, IsFree-frame}
use modified_riscv.Vm.Table.Grow.{px-small, same_slot, child}
use modified_riscv.Vm.Table.Extend.{labels}
use modified_riscv.Vm.Table.Walk.{Leads, Leads-entry_at}

-- The level-0 part and index of an address give its page.
same_page : (va va' : ℕ) → part 0 va ≡ part 0 va' → px 0 va ≡ px 0 va' → va / 4096 ≡ va' / 4096
same_page va va' e f = omega arith

module _ (kernel_end : ℕ) (positive : 0 < kernel_end) (root : ℕ) (owner : Owner) (pages : List ℕ)
    (k : Kmem) (va q v : ℕ) (t : IsTree kernel_end positive root owner pages k)
    (here : owner q ≡ some (0, part 0 va)) where
  abbrev written : ℕ → ℕ
  written = update k.mem (slot 0 va q) v

  -- The words of the upper tables, and those of the other lowest ones.
  other_table :
      (p j : ℕ) (o : ℕ × ℕ)
      → owner p ≡ some o
      → j < 512
      → (o.0 ≡ 0 → o.1 ≢ part 0 va)
      → written (p + 8 * j) ≡ k.mem (p + 8 * j)
  other_table p j o e small differ = update_ne k.mem (slot 0 va q) (p + 8 * j) v (λ same.
      at_slot
        (same_slot q p (px 0 va) j (t.whole q (0, part 0 va) here).aligned (t.whole p o e).aligned
          (px-small 0 va) small same).0)
    where
      at_slot : q ≡ p → ⊥
      at_slot same =
          let both : some o ≡ some (0, part 0 va) = sym e ∙ ap owner (sym same) ∙ here in
          differ (labels o (0, part 0 va) both).0 (labels o (0, part 0 va) both).1

  upper :
      (p l n j : ℕ) → owner p ≡ some (suc l, n) → j < 512 → written (p + 8 * j) ≡ k.mem (p + 8 * j)
  upper p l n j e small = other_table p j (suc l, n) e small (λ z. absurd (omega (arith, z)))

  pub written-IsTree : IsTree kernel_end positive root owner pages (record k { mem = written })
  written-IsTree = record {
    free =
        IsFree-frame kernel_end positive root k written pages q (t.whole q (0, part 0 va) here)
          (apart-All kernel_end positive root owner q (0, part 0 va) pages here t.unowned)
          (λ a out. update_ne k.mem (slot 0 va q) a v (not_inside a out)) t.free;
    unowned = t.unowned;
    at_root = t.at_root;
    whole = t.whole;
    entries = λ p l n j e small w.
        subst (λ x. owner (pte2pa x) ≡ some (l, n * 512 + j)) (sym (upper p l n j e small))
          (t.entries p l n j e small (sym (ap is_valid (upper p l n j e small)) ∙ w));
  }
    where
      not_inside : (a : ℕ) → Outside kernel_end positive q a → slot 0 va q ≢ a
      not_inside a (inl below) e = omega arith
      not_inside a (inr above) e = omega (arith, px-small 0 va)

  Leads-written :
      (l p : ℕ)
      → l ≤ 2
      → owner p ≡ some (l, part l va)
      → Leads l va p q k.mem
      → Leads l va p q written
  Leads-written zero p le e same = same
  Leads-written (suc l) p le e (w, deeper) = (
    ap is_valid kept ∙ w,
    subst (λ x. Leads l va (pte2pa x) q written) (sym kept)
        (Leads-written l (pte2pa (k.mem (slot (suc l) va p))) (omega arith)
          (child kernel_end positive root owner pages k l va p t le e w) deeper),
  )
    where
      kept : written (slot (suc l) va p) ≡ k.mem (slot (suc l) va p)
      kept = upper p l (part (suc l) va) (px (suc l) va) e (px-small (suc l) va)

  -- The entry of the address is the new one.
  pub entry_at-written :
      (l p : ℕ)
      → l ≤ 2
      → owner p ≡ some (l, part l va)
      → Leads l va p q k.mem
      → entry_at l va p written ≡ v
  entry_at-written l p le e leads =
      Leads-entry_at l va p q written (Leads-written l p le e leads)
      ∙ update_self k.mem (slot 0 va q) v

  -- The entries of the other pages are as they were.
  pub entry_at-other :
      (l va' p : ℕ)
      → l ≤ 2
      → va / 4096 ≢ va' / 4096
      → owner p ≡ some (l, part l va')
      → entry_at l va' p written ≡ entry_at l va' p k.mem
  entry_at-other zero va' p le ne e = elim (ℕ_discrete (part 0 va) (part 0 va')) [
    | no apart ↦
        other_table p (px 0 va') (0, part 0 va') e (px-small 0 va') (λ z same. apart (sym same))
    | yes same ↦ update_ne k.mem (slot 0 va q) (slot 0 va' p) v (λ f. ne (
        same_page va va' same
          (same_slot q p (px 0 va) (px 0 va') (t.whole q (0, part 0 va) here).aligned
            (t.whole p (0, part 0 va') e).aligned (px-small 0 va) (px-small 0 va') f).1))
  ]
  entry_at-other (suc l) va' p le ne e =
      rw (upper p l (part (suc l) va') (px (suc l) va') e (px-small (suc l) va')) (
        by_valid (is_valid (k.mem (slot (suc l) va' p))) refl (λ own_child.
          entry_at-other l va' (pte2pa (k.mem (slot (suc l) va' p))) (omega arith) ne own_child))
    where
      by_valid :
          (w : Bool)
          → is_valid (k.mem (slot (suc l) va' p)) ≡ w
          → (owner (pte2pa (k.mem (slot (suc l) va' p))) ≡ some (l, part l va')
              → entry_at l va' (pte2pa (k.mem (slot (suc l) va' p))) written
                ≡ entry_at l va' (pte2pa (k.mem (slot (suc l) va' p))) k.mem)
          → (if w then entry_at l va' (pte2pa (k.mem (slot (suc l) va' p))) written else 0)
            ≡ (if w then entry_at l va' (pte2pa (k.mem (slot (suc l) va' p))) k.mem else 0)
      by_valid false off deeper = refl
      by_valid true on deeper =
          deeper (child kernel_end positive root owner pages k l va' p t le e on)
