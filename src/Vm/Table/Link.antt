-- ===== src/Vm/Table/Link.antt =====
-- The entry for a new table.
use modified_riscv.Base.{
  ℕ, zero, suc, ◌+◌, ◌*◌, ◌≤◌, ◌<◌, ◌≡◌, ◌≢◌, ◌⊎◌, inl, inr, refl, sym, ◌∙◌, ap, ap₂, subst, Bool,
  true, false, none, some, List, [], ◌∷◌, All, if◌then◌else◌, update, update_self, update_ne, arith,
  true_ne_false,
}
use native.Mathlib.Decide.{ℕ_discrete}
use modified_riscv.Kalloc.{Kmem, IsPage}
use modified_riscv.Kalloc.Refine.{Outside}
use modified_riscv.Vm.Table.{is_valid, pte2pa, pa2pte, px, slot}
use modified_riscv.Vm.Table.Tree.{part, entry_at, Owner, own, IsTree, apart-All, IsFree-frame}
use modified_riscv.Vm.Table.Grow.{same_slot, px-small, none-some, Grows, child}
use modified_riscv.Vm.Table.Extend.{pa2pte-valid, pte2pa-pa2pte, labels}

module _ (kernel_end : ℕ) (positive : 0 < kernel_end) (root : ℕ) (owner : Owner) (pages : List ℕ)
    (k : Kmem) (pt l n i x : ℕ) (t : IsTree kernel_end positive root owner pages k)
    (here : owner pt ≡ some (suc l, n)) (lt : i < 512)
    (empty : is_valid (k.mem (pt + 8 * i)) ≡ false) (unowned : owner x ≡ none)
    (page : IsPage kernel_end x) (clear : (j : ℕ) → j < 512 → k.mem (x + 8 * j) ≡ 0) where
  abbrev linked : ℕ → ℕ
  linked = update k.mem (pt + 8 * i) (pa2pte x 0)

  abbrev owner' : Owner
  owner' = own owner x (l, n * 512 + i)

  not_new : (p : ℕ) (o : ℕ × ℕ) → owner p ≡ some o → x ≢ p
  not_new p o e same = none-some o (sym unowned ∙ ap owner same ∙ e)

  kept : (p : ℕ) (o : ℕ × ℕ) → owner p ≡ some o → owner' p ≡ some o
  kept p o e = update_ne owner x p (some (l, n * 512 + i)) (not_new p o e) ∙ e

  -- The words of the new table are 0.
  still_clear : (j : ℕ) → j < 512 → linked (x + 8 * j) ≡ 0
  still_clear j small =
      update_ne k.mem (pt + 8 * i) (x + 8 * j) (pa2pte x 0) (λ e.
        not_new pt (suc l, n) here
          (sym (same_slot pt x i j (t.whole pt (suc l, n) here).aligned page.aligned lt small e).0))
      ∙ clear j small

  -- An owned word is the entry, in its table, or as it was.
  by_word :
      (p j : ℕ) (o : ℕ × ℕ)
      → owner p ≡ some o
      → j < 512
      → ((p ≡ pt) × (j ≡ i) × (o.0 ≡ suc l) × (o.1 ≡ n))
        ⊎ ((pt + 8 * i ≢ p + 8 * j) × (linked (p + 8 * j) ≡ k.mem (p + 8 * j)))
  by_word p j o e small = elim (ℕ_discrete (pt + 8 * i) (p + 8 * j)) [
    | no ne ↦ inr (ne, update_ne k.mem (pt + 8 * i) (p + 8 * j) (pa2pte x 0) ne)
    | yes same ↦ inl (
        at_slot (
          same_slot pt p i j (t.whole pt (suc l, n) here).aligned (t.whole p o e).aligned lt small
            same))
  ]
    where
      at_slot : (pt ≡ p) × (i ≡ j) → (p ≡ pt) × (j ≡ i) × (o.0 ≡ suc l) × (o.1 ≡ n)
      at_slot (a, b) =
          let both : some o ≡ some (suc l, n) = sym e ∙ ap owner (sym a) ∙ here in
          (sym a, sym b, (labels o (suc l, n) both).0, (labels o (suc l, n) both).1)

  at_entry : (p j : ℕ) → p ≡ pt → j ≡ i → linked (p + 8 * j) ≡ pa2pte x 0
  at_entry p j pp jj =
      ap₂ (λ a b. linked (a + 8 * b)) pp jj ∙ update_self k.mem (pt + 8 * i) (pa2pte x 0)

  -- Below the new table nothing is mapped.
  nothing_below : (m va : ℕ) → entry_at m va x linked ≡ 0
  nothing_below zero va = still_clear (px 0 va) (px-small 0 va)
  nothing_below (suc m) va = rw (still_clear (px (suc m) va) (px-small (suc m) va)) refl

  entry_at-linked :
      (m va p : ℕ)
      → m ≤ 2
      → owner p ≡ some (m, part m va)
      → entry_at m va p linked ≡ entry_at m va p k.mem
  entry_at-linked zero va p le e = elim (by_word p (px 0 va) (0, part 0 va) e (px-small 0 va)) [
    | inl (pp, jj, ll, nn) ↦ absurd (omega (arith, ll))
    | inr (ne, w) ↦ w
  ]
  entry_at-linked (suc m) va p le e =
      elim (by_word p (px (suc m) va) (suc m, part (suc m) va) e (px-small (suc m) va)) [
        | inl (pp, jj, ll, nn) ↦
            at_new (linked (slot (suc m) va p)) (k.mem (slot (suc m) va p))
              (at_entry p (px (suc m) va) pp jj)
              (ap₂ (λ a b. is_valid (k.mem (a + 8 * b))) pp jj ∙ empty)
        | inr (ne, w) ↦
            at_old (linked (slot (suc m) va p)) w (is_valid (k.mem (slot (suc m) va p))) refl
              (λ own_child.
                entry_at-linked m va (pte2pa (k.mem (slot (suc m) va p))) (omega arith) own_child)
      ]
    where
      at_new :
          (a b : ℕ)
          → a ≡ pa2pte x 0
          → is_valid b ≡ false
          → (if is_valid a then entry_at m va (pte2pa a) linked else 0)
            ≡ (if is_valid b then entry_at m va (pte2pa b) k.mem else 0)
      at_new a b e off =
          ap (λ y. if is_valid y then entry_at m va (pte2pa y) linked else 0) e
          ∙ ap (λ y. if y then entry_at m va (pte2pa (pa2pte x 0)) linked else 0) (pa2pte-valid x 0)
          ∙ ap (λ y. entry_at m va y linked) (pte2pa-pa2pte x 0 page.aligned (omega arith))
          ∙ nothing_below m va
          ∙ ap (λ y. if y then entry_at m va (pte2pa b) k.mem else 0) (sym off)

      at_old :
          (a : ℕ)
          → a ≡ k.mem (slot (suc m) va p)
          → (v : Bool) → is_valid (k.mem (slot (suc m) va p)) ≡ v
          → (owner (pte2pa (k.mem (slot (suc m) va p))) ≡ some (m, part m va)
              → entry_at m va (pte2pa (k.mem (slot (suc m) va p))) linked
                ≡ entry_at m va (pte2pa (k.mem (slot (suc m) va p))) k.mem)
          → (if is_valid a then entry_at m va (pte2pa a) linked else 0) ≡ (
              if is_valid (k.mem (slot (suc m) va p))
              then entry_at m va (pte2pa (k.mem (slot (suc m) va p))) k.mem
              else 0)
      at_old a w v valid deeper =
          ap (λ y. if is_valid y then entry_at m va (pte2pa y) linked else 0) w ∙ by_valid v valid
        where
          by_valid :
              (v : Bool)
              → is_valid (k.mem (slot (suc m) va p)) ≡ v
              → (if is_valid (k.mem (slot (suc m) va p))
                  then entry_at m va (pte2pa (k.mem (slot (suc m) va p))) linked
                  else 0)
                ≡ (if is_valid (k.mem (slot (suc m) va p))
                    then entry_at m va (pte2pa (k.mem (slot (suc m) va p))) k.mem
                    else 0)
          by_valid false off =
              ap (λ y. if y then entry_at m va (pte2pa (k.mem (slot (suc m) va p))) linked else 0)
                off
              ∙ ap (λ y. if y then entry_at m va (pte2pa (k.mem (slot (suc m) va p))) k.mem else 0)
                  (sym off)
          by_valid true on =
              ap (λ y. if is_valid (k.mem (slot (suc m) va p)) then y else 0)
                (deeper (child kernel_end positive root owner pages k m va p t le e on))

  pub linked-IsTree :
      All (λ y. x ≢ y) pages
      → IsTree kernel_end positive root owner' pages (record k { mem = linked })
  linked-IsTree other = record {
    free =
        IsFree-frame kernel_end positive root k linked pages pt (t.whole pt (suc l, n) here)
          (apart-All kernel_end positive root owner pt (suc l, n) pages here t.unowned) outside
          t.free;
    unowned = still_unowned pages other t.unowned;
    at_root = kept root (2, 0) t.at_root;
    whole = λ p o e. elim (ℕ_discrete x p) [
      | yes same ↦ subst (IsPage kernel_end) same page
      | no ne ↦ t.whole p o (sym (update_ne owner x p (some (l, n * 512 + i)) ne) ∙ e)
    ];
    entries = λ p m q j e small v. leads p m q j e small v;
  }
    where
      outside : (a : ℕ) → Outside kernel_end positive pt a → linked a ≡ k.mem a
      outside a out = update_ne k.mem (pt + 8 * i) a (pa2pte x 0) (not_inside a out)
        where
          not_inside : (a : ℕ) → Outside kernel_end positive pt a → pt + 8 * i ≢ a
          not_inside a (inl below) e = omega arith
          not_inside a (inr above) e = omega arith

      still_unowned :
          (ys : List ℕ)
          → All (λ y. x ≢ y) ys
          → All (λ y. owner y ≡ none) ys
          → All (λ y. owner' y ≡ none) ys
      still_unowned [] ne un = tt
      still_unowned (y ∷ ys) (ne, nes) (u, us) =
          (update_ne owner x y (some (l, n * 512 + i)) ne ∙ u, still_unowned ys nes us)

      leads :
          (p m q j : ℕ)
          → owner' p ≡ some (suc m, q)
          → j < 512
          → is_valid (linked (p + 8 * j)) ≡ true
          → owner' (pte2pa (linked (p + 8 * j))) ≡ some (m, q * 512 + j)
      leads p m q j e small v = elim (ℕ_discrete x p) [
        | yes same ↦ absurd (
            true_ne_false (
              sym v ∙ ap is_valid (subst (λ y. linked (y + 8 * j) ≡ 0) same (still_clear j small))))
        | no ne ↦ by_case (sym (update_ne owner x p (some (l, n * 512 + i)) ne) ∙ e)
      ]
        where
          by_case :
              owner p ≡ some (suc m, q)
              → owner' (pte2pa (linked (p + 8 * j))) ≡ some (m, q * 512 + j)
          by_case e0 = elim (by_word p j (suc m, q) e0 small) [
            | inl (pp, jj, ll, nn) ↦
                ap (λ w. owner' (pte2pa w)) (at_entry p j pp jj)
                ∙ ap owner' (pte2pa-pa2pte x 0 page.aligned (omega arith))
                ∙ update_self owner x (some (l, n * 512 + i))
                ∙ ap₂ (λ a b. some (a, b)) (omega (arith, ll)) (omega (arith, nn, jj))
            | inr (ne, w) ↦
                ap (λ y. owner' (pte2pa y)) w
                ∙ kept _ (m, q * 512 + j) (t.entries p m q j e0 small (sym (ap is_valid w) ∙ v))
          ]

  pub linked-Grows : Grows owner k.mem owner' linked
  linked-Grows = record {
    kept = kept;
    fixed = λ p m q j e small v. elim (by_word p j (suc m, q) e small) [
      | inl (pp, jj, ll, nn) ↦
          absurd (true_ne_false (sym v ∙ ap₂ (λ a b. is_valid (k.mem (a + 8 * b))) pp jj ∙ empty))
      | inr (ne, w) ↦ w
    ];
    same = entry_at-linked;
  }
