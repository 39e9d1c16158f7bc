-- ===== src/Vm/Space/Unmap.antt =====
-- `uvmunmap` on the map of an address space, with or without the freeing of its pages.
use modified_riscv.Base.{
  ℕ, zero, suc, ◌+◌, ◌*◌, ◌≤◌, ◌<◌, ◌≡◌, ◌≢◌, inl, inr, refl, sym, ◌∙◌, ap, subst, Bool, true,
  false, ◌&&◌, none, some, List, [], ◌∷◌, All, length, ◌==◌, leb, ltb, if◌then◌else◌, arith,
  Bool-cases, true_ne_false, Returns, Returns-map,
}
use modified_riscv.Kalloc.{Kmem, kfree, IsPage}
use modified_riscv.Kalloc.Refine.{IsFree, Outside, kfree-IsFree}
use modified_riscv.Vm.Table.{is_valid, pte2pa, slot, walk_from}
use modified_riscv.Vm.Table.Tree.{part, entry_at, Owner, IsTree}
use modified_riscv.Vm.Table.Grow.{none-some, table-Outside, child, px-small}
use modified_riscv.Vm.Table.Walk.{Leads}
use modified_riscv.Vm.Table.Mapping.{mapping, IsInside}
use modified_riscv.Vm.Space.{is_inner, free_if}

-- The map without `n` pages from `base` on.
abbrev pub unmapped : ℕ → ℕ → ℕ → (ℕ → ℕ) → ℕ → ℕ
unmapped root base n mem m = if leb base m && ltb m (base + n) then 0 else mapping root m mem

-- The pages from `base` on are mapped to those of the list.
abbrev pub MapsTo : ℕ → ℕ → List ℕ → (ℕ → ℕ) → Type 0
MapsTo root base [] mem = Unit
MapsTo root base (d ∷ ds) mem =
    (is_valid (mapping root base mem) ≡ true)
    × (is_inner (mapping root base mem) ≡ false)
    × (pte2pa (mapping root base mem) ≡ d)
    × MapsTo root (base + 1) ds mem

pub MapsTo-frame :
    (root base : ℕ) (ds : List ℕ) (mem mem' : ℕ → ℕ)
    → ((i : ℕ) → i < length ds → mapping root (base + i) mem' ≡ mapping root (base + i) mem)
    → MapsTo root base ds mem
    → MapsTo root base ds mem'
MapsTo-frame root base [] mem mem' same maps = tt
MapsTo-frame root base (d ∷ ds) mem mem' same (v, leaf, to, rest) = (
  ap is_valid here ∙ v,
  ap is_inner here ∙ leaf,
  ap pte2pa here ∙ to,
  MapsTo-frame root (base + 1) ds mem mem'
      (λ i lt.
        subst (λ j. mapping root j mem' ≡ mapping root j mem) (next i) (same (suc i) (omega arith)))
      rest,
)
  where
    next : (i : ℕ) → base + suc i ≡ base + 1 + i
    next i = omega arith

    here : mapping root base mem' ≡ mapping root base mem
    here =
        subst (λ j. mapping root j mem' ≡ mapping root j mem) (omega arith) (same 0 (omega arith))

-- The free pages after those of the list are freed in its order.
abbrev pub freed : Bool → List ℕ → List ℕ → List ℕ
freed false ds pages = pages
freed true [] pages = pages
freed true (d ∷ ds) pages = freed true ds (d ∷ pages)

module _ (kernel_end : ℕ) (positive : 0 < kernel_end) (root : ℕ) where
  -- Pages that can be freed in their order: no tables, and not free yet.
  abbrev pub CanFree : Bool → Owner → List ℕ → List ℕ → Type 0
  CanFree false owner ds pages = Unit
  CanFree true owner [] pages = Unit
  CanFree true owner (d ∷ ds) pages =
      IsPage kernel_end d
      × (owner d ≡ none)
      × All (λ x. d ≢ x) pages
      × CanFree true owner ds (d ∷ pages)

  -- A tree in a memory that agrees on the words of its tables.
  pub IsTree-frame :
      (owner : Owner) (pages pages' : List ℕ) (k k' : Kmem)
      → IsTree kernel_end positive root owner pages k
      → ((p i : ℕ) (o : ℕ × ℕ)
          → owner p ≡ some o
          → i < 512
          → k'.mem (p + 8 * i) ≡ k.mem (p + 8 * i))
      → IsFree kernel_end positive k' pages'
      → All (λ x. owner x ≡ none) pages'
      → IsTree kernel_end positive root owner pages' k'
  IsTree-frame owner pages pages' k k' t agree free un = record {
    free = free;
    unowned = un;
    at_root = t.at_root;
    whole = t.whole;
    entries = λ p l n i e lt v.
        subst (λ w. owner (pte2pa w) ≡ some (l, n * 512 + i)) (sym (agree p i (suc l, n) e lt))
          (t.entries p l n i e lt (sym (ap is_valid (agree p i (suc l, n) e lt)) ∙ v));
  }

  pub Leads-frame :
      (owner : Owner) (pages : List ℕ) (k : Kmem) (mem : ℕ → ℕ) (l va p q : ℕ)
      → IsTree kernel_end positive root owner pages k
      → ((p i : ℕ) (o : ℕ × ℕ) → owner p ≡ some o → i < 512 → mem (p + 8 * i) ≡ k.mem (p + 8 * i))
      → l ≤ 2
      → owner p ≡ some (l, part l va)
      → Leads l va p q k.mem
      → Leads l va p q mem
  Leads-frame owner pages k mem zero va p q t agree le e same = same
  Leads-frame owner pages k mem (suc l) va p q t agree le e (v, deeper) = (
    ap is_valid kept ∙ v,
    subst (λ w. Leads l va (pte2pa w) q mem) (sym kept)
        (Leads-frame owner pages k mem l va (pte2pa (k.mem (slot (suc l) va p))) q t agree
          (omega arith) (child kernel_end positive root owner pages k l va p t le e v) deeper),
  )
    where
      kept : mem (slot (suc l) va p) ≡ k.mem (slot (suc l) va p)
      kept = agree p _ (suc l, part (suc l) va) e (px-small (suc l) va)

  -- A walk to a valid entry allocates nothing.
  abbrev pub Found : ℕ → ℕ → ℕ → Owner → Kmem → Type 0
  Found l va p owner k =
      (q : ℕ) × (owner q ≡ some (0, part 0 va))
      × Leads l va p q k.mem
      × (walk_from false l va p k ≡ (some (slot 0 va q), k))

  pub walk_from-Found :
      (l va p : ℕ) (owner : Owner) (pages : List ℕ) (k : Kmem)
      → IsTree kernel_end positive root owner pages k
      → l ≤ 2
      → owner p ≡ some (l, part l va)
      → is_valid (entry_at l va p k.mem) ≡ true
      → Found l va p owner k
  unfolding walk_from
  walk_from-Found zero va p owner pages k t le e v = (p, e, refl, refl)
  walk_from-Found (suc l) va p owner pages k t le e v =
      elim (Bool-cases (is_valid (k.mem (slot (suc l) va p)))) [
        | inl on ↦
            let (q, own_q, leads, found) =
              walk_from-Found l va (pte2pa (k.mem (slot (suc l) va p))) owner pages k t
                (omega arith) (child kernel_end positive root owner pages k l va p t le e on)
                (rw on at v) in
            (q, own_q, (on, leads), rw on found)
        | inr off ↦ absurd (true_ne_false (sym (rw off at v)))
      ]

  -- What the freeing of a page keeps.
  pub free_if-Returns :
      (do_free : Bool) (d : ℕ) (ds : List ℕ) (owner : Owner) (pages : List ℕ) (k : Kmem)
      → IsTree kernel_end positive root owner pages k
      → CanFree do_free owner (d ∷ ds) pages
      → Returns (free_if kernel_end do_free d k) (λ k2.
        IsTree kernel_end positive root owner (freed do_free (d ∷ []) pages) k2
        × CanFree do_free owner ds (freed do_free (d ∷ []) pages)
        × ((p i : ℕ) (o : ℕ × ℕ)
            → owner p ≡ some o
            → i < 512
            → k2.mem (p + 8 * i) ≡ k.mem (p + 8 * i)))
  free_if-Returns false d ds owner pages k t can = (t, tt, λ p i o e lt. refl)
  free_if-Returns true d ds owner pages k t (page, free, other, can) =
      Returns-map (kfree kernel_end d k)
        (λ k2.
          IsFree kernel_end positive k2 (d ∷ pages)
          × ((a : ℕ) → Outside kernel_end positive d a → k2.mem a ≡ k.mem a))
        _ (kfree-IsFree kernel_end positive k pages d t.free page other)
        (λ k2 (f, same). (
          IsTree-frame owner pages (d ∷ pages) k k2 t (agree k2 same) f (free, t.unowned),
          can,
          agree k2 same,
        ))
    where
      agree :
          (k2 : Kmem)
          → ((a : ℕ) → Outside kernel_end positive d a → k2.mem a ≡ k.mem a)
          → (p i : ℕ) (o : ℕ × ℕ) → owner p ≡ some o
          → i < 512
          → k2.mem (p + 8 * i) ≡ k.mem (p + 8 * i)
      agree k2 same p i o e lt = same (p + 8 * i) (
          table-Outside kernel_end positive root p d i (t.whole p o e) page
            (λ at_d. none-some o (sym free ∙ ap owner at_d ∙ e)) lt)

  pub freed-cons :
      (do_free : Bool) (d : ℕ) (ds pages : List ℕ)
      → freed do_free ds (freed do_free (d ∷ []) pages) ≡ freed do_free (d ∷ ds) pages
  freed-cons false d ds pages = refl
  freed-cons true d ds pages = refl

  -- One page more in front.
  pub unmapped-suc :
      (base n m : ℕ) (mem mem2 : ℕ → ℕ)
      → mapping root m mem2 ≡ (if base == m then 0 else mapping root m mem)
      → unmapped root (base + 1) n mem2 m ≡ unmapped root base (suc n) mem m
  unmapped-suc base n m mem mem2 e =
      ap (λ x. if leb (base + 1) m && ltb m (base + 1 + n) then 0 else x) e
      ∙ by_tests (mapping root m mem)
    where
      by_tests :
          (old : ℕ)
          → (if leb (base + 1) m && ltb m (base + 1 + n) then 0 else if base == m then 0 else old)
            ≡ (if leb base m && ltb m (base + suc n) then 0 else old)
      by_tests old = ground arith

  abbrev pub Unmapped : Bool → Owner → List ℕ → ℕ → List ℕ → Kmem → Kmem → Type 0
  Unmapped do_free owner pages base ds k after =
      IsTree kernel_end positive root owner (freed do_free ds pages) after
      × ((m : ℕ) → IsInside m → mapping root m after.mem ≡ unmapped root base (length ds) k.mem m)
