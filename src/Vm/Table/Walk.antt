-- ===== src/Vm/Table/Walk.antt =====
-- `walk` with `alloc`, on the tree of tables.
use modified_riscv.Base.{
  ℕ, zero, suc, ◌+◌, ◌*◌, ◌≤◌, ◌<◌, ◌≡◌, inl, inr, refl, sym, ◌∙◌, ap, subst, true, false, Option,
  none, some, List, [], ◌∷◌, ◌==◌, if◌then◌else◌, update_self, arith, Bool-cases,
}
use modified_riscv.Kalloc.{Kmem, memset_page, kalloc, IsPage}
use modified_riscv.Kalloc.Refine.{kalloc-Pops, Pops}
use modified_riscv.Vm.Table.{is_valid, pte2pa, pa2pte, px, slot, new_table, walk_from}
use modified_riscv.Vm.Table.Tree.{part, part-px, entry_at, Owner, own, IsTree}
use modified_riscv.Vm.Table.Grow.{px-small, Grows, Grows-same, Grows-twice, child}
use modified_riscv.Vm.Table.Extend.{pa2pte-valid, pte2pa-pa2pte, memset-zero, cleared}
use modified_riscv.Vm.Table.Link.{linked-IsTree, linked-Grows}

-- The tables from `p` down lead to the lowest table `q` for the address.
abbrev pub Leads : ℕ → ℕ → ℕ → ℕ → (ℕ → ℕ) → Type 0
Leads zero va p q mem = p ≡ q
Leads (suc l) va p q mem =
    (is_valid (mem (slot (suc l) va p)) ≡ true)
    × Leads l va (pte2pa (mem (slot (suc l) va p))) q mem

pub Leads-entry_at :
    (l va p q : ℕ) (mem : ℕ → ℕ) → Leads l va p q mem → entry_at l va p mem ≡ mem (slot 0 va q)
Leads-entry_at zero va p q mem e = ap (λ x. mem (slot 0 va x)) e
Leads-entry_at (suc l) va p q mem (v, deeper) = rw v (Leads-entry_at l va _ q mem deeper)

module _ (kernel_end : ℕ) (positive : 0 < kernel_end) (root : ℕ) where
  -- The address of the entry, in a table for the address; or 0, with no page free any more.
  abbrev pub Walked : ℕ → ℕ → ℕ → Owner → (ℕ → ℕ) → Option ℕ × Kmem → Type 0
  Walked l va p owner mem (none, k') =
      (owner' : Owner) × IsTree kernel_end positive root owner' [] k'
      × Grows owner mem owner' k'.mem
  Walked l va p owner mem (some a, k') =
      (owner' : Owner) × (pages : List ℕ) × IsTree kernel_end positive root owner' pages k'
      × Grows owner mem owner' k'.mem
      × (q : ℕ) × (owner' q ≡ some (0, part 0 va))
      × (a ≡ slot 0 va q)
      × Leads l va p q k'.mem

  -- A walk one level down, after a growth.
  Walked-down :
      (l va p : ℕ) (owner o1 : Owner) (mem m1 : ℕ → ℕ) (r : Option ℕ × Kmem)
      → Grows owner mem o1 m1
      → o1 p ≡ some (suc l, part (suc l) va)
      → is_valid (m1 (slot (suc l) va p)) ≡ true
      → Walked l va (pte2pa (m1 (slot (suc l) va p))) o1 m1 r
      → Walked (suc l) va p owner mem r
  Walked-down l va p owner o1 mem m1 (none, k') g e v (o2, t, h) =
      (o2, t, Grows-twice owner o1 o2 mem m1 k'.mem g h)
  Walked-down l va p owner o1 mem m1 (some a, k') g e v (o2, pages, t, h, q, own_q, at_q, deeper) =
      (
        o2,
        pages,
        t,
        Grows-twice owner o1 o2 mem m1 k'.mem g h,
        q,
        own_q,
        at_q,
        (ap is_valid fixed ∙ v, subst (λ w. Leads l va (pte2pa w) q k'.mem) (sym fixed) deeper),
      )
    where
      fixed : k'.mem (slot (suc l) va p) ≡ m1 (slot (suc l) va p)
      fixed = h.fixed p l (part (suc l) va) (px (suc l) va) e (px-small (suc l) va) v

  pub walk_from-Walked :
      (l va p : ℕ) (owner : Owner) (pages : List ℕ) (k : Kmem)
      → l ≤ 2
      → IsTree kernel_end positive root owner pages k
      → owner p ≡ some (l, part l va)
      → Walked l va p owner k.mem (walk_from true l va p k)
  unfolding walk_from
  walk_from-Walked zero va p owner pages k le t e =
      (owner, pages, t, Grows-same owner k.mem, p, e, refl, refl)
  walk_from-Walked (suc l) va p owner pages k le t e =
      elim (Bool-cases (is_valid (k.mem (slot (suc l) va p)))) [
        | inl v ↦ rw v (
            Walked-down l va p owner owner k.mem k.mem _ (Grows-same owner k.mem) e v (
              walk_from-Walked l va (pte2pa (k.mem (slot (suc l) va p))) owner pages k (omega arith)
                t (child kernel_end positive root owner pages k l va p t le e v)))
        | inr off ↦ rw off (
            by_pages off pages t (kalloc k) (kalloc-Pops kernel_end positive k pages t.free)
              (λ o1 ps k1 c t1 e1. walk_from-Walked l va c o1 ps k1 (omega arith) t1 e1))
      ]
    where
      some_page : (x : ℕ) → IsPage kernel_end x → (x == 0) ≡ false
      some_page x page = positive_test x (omega (arith, page.low))
        where
          positive_test : (x : ℕ) → 0 < x → (x == 0) ≡ false
          positive_test x lt = ground arith

      by_pages :
          is_valid (k.mem (slot (suc l) va p)) ≡ false
          → (ps : List ℕ) → IsTree kernel_end positive root owner ps k
          → (r : ℕ × Kmem) → Pops kernel_end positive k ps r
          → ((o1 : Owner) (qs : List ℕ) (k1 : Kmem) (c : ℕ)
              → IsTree kernel_end positive root o1 qs k1
              → o1 c ≡ some (l, part l va)
              → Walked l va c o1 k1.mem (walk_from true l va c k1))
          → Walked (suc l) va p owner k.mem (
              if r.0 == 0
              then (none, r.1)
              else walk_from true l va r.0 (new_table r.0 (slot (suc l) va p) r.1))
      by_pages off [] t r popped again =
          subst
            (λ s. Walked (suc l) va p owner k.mem (
              if s.0 == 0
              then (none, s.1)
              else walk_from true l va s.0 (new_table s.0 (slot (suc l) va p) s.1)))
            (sym popped) (owner, t, Grows-same owner k.mem)
      by_pages off (x ∷ xs) t (y, k1) (same, free, outside) again =
          subst
            (λ z. Walked (suc l) va p owner k.mem (
              if z == 0
              then (none, k1)
              else walk_from true l va z (new_table z (slot (suc l) va p) k1)))
            (sym same)
            (rw (some_page x t.free.whole.0) (
              Walked-down l va p owner owner2 k.mem kn.mem _
                (Grows-twice owner owner owner2 k.mem kc.mem kn.mem clear.1 linked_grows)
                (linked_grows.kept p (suc l, part (suc l) va) e)
                (ap is_valid new_entry ∙ pa2pte-valid x 0)
                (subst (λ c. Walked l va c owner2 kn.mem (walk_from true l va x kn)) (sym new_child)
                  (again owner2 xs kn x new_tree new_owner))))
        where
          kc : Kmem
          kc = record k1 { mem = memset_page x 0 k1.mem }

          kn : Kmem
          kn = new_table x (slot (suc l) va p) k1

          owner2 : Owner
          owner2 = own owner x (l, part (suc l) va * 512 + px (suc l) va)

          clear :
              IsTree kernel_end positive root owner xs kc
              × Grows owner k.mem owner kc.mem
              × ((p i : ℕ) (o : ℕ × ℕ)
                  → owner p ≡ some o
                  → i < 512
                  → kc.mem (p + 8 * i) ≡ k.mem (p + 8 * i))
          clear = cleared kernel_end positive root owner x xs k k1 t free outside

          empty : is_valid (kc.mem (slot (suc l) va p)) ≡ false
          empty =
              ap is_valid
                (clear.2 p (px (suc l) va) (suc l, part (suc l) va) e (px-small (suc l) va))
              ∙ off

          linked_grows : Grows owner kc.mem owner2 kn.mem
          linked_grows =
              linked-Grows kernel_end positive root owner xs kc p l (part (suc l) va)
                (px (suc l) va) x clear.0 e (px-small (suc l) va) empty t.unowned.0 t.free.whole.0
                (λ j lt. memset-zero x j k1.mem lt)

          new_tree : IsTree kernel_end positive root owner2 xs kn
          new_tree =
              linked-IsTree kernel_end positive root owner xs kc p l (part (suc l) va)
                (px (suc l) va) x clear.0 e (px-small (suc l) va) empty t.unowned.0 t.free.whole.0
                (λ j lt. memset-zero x j k1.mem lt) t.free.distinct.0

          new_entry : kn.mem (slot (suc l) va p) ≡ pa2pte x 0
          new_entry = update_self kc.mem (slot (suc l) va p) (pa2pte x 0)

          new_child : pte2pa (kn.mem (slot (suc l) va p)) ≡ x
          new_child = ap pte2pa new_entry ∙ pte2pa-pa2pte x 0 t.free.whole.0.aligned (omega arith)

          new_owner : owner2 x ≡ some (l, part l va)
          new_owner =
              update_self owner x (some (l, part (suc l) va * 512 + px (suc l) va))
              ∙ ap (λ n. some (l, n)) (sym (part-px l va (omega arith)))
