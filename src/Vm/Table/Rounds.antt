-- ===== src/Vm/Table/Rounds.antt =====
-- The rounds of `mappages`, on the map that a tree of tables stands for.
use modified_riscv.Base.{
  ℕ, zero, suc, ◌+◌, ◌-◌, ◌*◌, ◌≤◌, ◌<◌, ◌≡◌, ◌⊎◌, inl, inr, refl, sym, ◌∙◌, ap, subst, Bool, true,
  false, ◌&&◌, Option, none, some, List, [], ◌==◌, leb, ltb, if◌then◌else◌, update, arith,
  Bool-cases, ◌>>=◌,
}
use native.Mathlib.Decide.{dec_lt}
use modified_riscv.Kalloc.{pgsize, Kmem}
use modified_riscv.Vm.Table.{maxva, is_valid, pa2pte, slot, walk_from, walk, map_loop}
use modified_riscv.Vm.Table.Tree.{Owner, IsTree}
use modified_riscv.Vm.Table.Walk.{Leads-entry_at, Walked, walk_from-Walked}
use modified_riscv.Vm.Table.Leaf.{written-IsTree}
use modified_riscv.Vm.Table.Mapping.{mapping, mapped, IsInside, part-root, written_entry}

module _ (kernel_end : ℕ) (positive : 0 < kernel_end) (root : ℕ) where
  abbrev pub Maps : ℕ → ℕ → ℕ → ℕ → Kmem → Option (Bool × Kmem) → Type 0
  Maps base n pa perm k none =
      (i : ℕ) × (i < n)
      × ((maxva ≤ (base + i) * pgsize) ⊎ (is_valid (mapping root (base + i) k.mem) ≡ true))
  Maps base n pa perm k (some (true, after)) =
      (owner : Owner) × (pages : List ℕ) × IsTree kernel_end positive root owner pages after
      × ((m : ℕ) → IsInside m → mapping root m after.mem ≡ mapped root base n pa perm k.mem m)
  Maps base n pa perm k (some (false, after)) =
      (i : ℕ) × (i < n)
      × (owner : Owner) × IsTree kernel_end positive root owner [] after
      × ((m : ℕ) → IsInside m → mapping root m after.mem ≡ mapped root base i pa perm k.mem m)

  -- One page more in front.
  mapped-suc :
      (base n pa perm m : ℕ) (mem mem2 : ℕ → ℕ)
      → mapping root m mem2 ≡ (if base == m then pa2pte pa perm else mapping root m mem)
      → mapped root (base + 1) n (pa + pgsize) perm mem2 m ≡ mapped root base (suc n) pa perm mem m
  mapped-suc base n pa perm m mem mem2 e =
      ap
        (λ x.
          if leb (base + 1) m && ltb m (base + 1 + n)
          then pa2pte (pa + pgsize + (m - (base + 1)) * pgsize) perm
          else x)
        e
      ∙ by_tests (mapping root m mem)
    where
      by_tests :
          (old : ℕ)
          → (if leb (base + 1) m && ltb m (base + 1 + n)
              then pa2pte (pa + pgsize + (m - (base + 1)) * pgsize) perm
              else if base == m
              then pa2pte pa perm
              else old)
            ≡ (if leb base m && ltb m (base + suc n)
                then pa2pte (pa + (m - base) * pgsize) perm
                else old)
      by_tests old = ground arith

  mapped-zero :
      (base pa perm m : ℕ) (mem : ℕ → ℕ) → mapping root m mem ≡ mapped root base 0 pa perm mem m
  mapped-zero base pa perm m mem = by_test (mapping root m mem)
    where
      by_test :
          (old : ℕ)
          → old ≡ (
              if leb base m && ltb m (base + 0)
              then pa2pte (pa + (m - base) * pgsize) perm
              else old)
      by_test old = ground arith

  Maps-suc :
      (base n pa perm : ℕ) (k k2 : Kmem) (r : Option (Bool × Kmem))
      → ((m : ℕ)
          → IsInside m
          → mapping root m k2.mem ≡ (if base == m then pa2pte pa perm else mapping root m k.mem))
      → Maps (base + 1) n (pa + pgsize) perm k2 r
      → Maps base (suc n) pa perm k r
  Maps-suc base n pa perm k k2 none e (i, lt, inl high) = (suc i, omega arith, inl (omega arith))
  Maps-suc base n pa perm k k2 none e (i, lt, inr v) =
      elim (dec_lt ((base + suc i) * pgsize) maxva) [
        | no high ↦ (suc i, omega arith, inl (omega arith))
        | yes low ↦ (
          suc i,
          omega arith,
          inr (
              subst (λ j. is_valid (mapping root j k.mem) ≡ true) next
                (sym (
                    ap is_valid (
                      e (base + 1 + i) (omega arith)
                      ∙ ap (λ b. if b then pa2pte pa perm else mapping root (base + 1 + i) k.mem)
                          apart))
                  ∙ v)),
        )
      ]
    where
      next : base + 1 + i ≡ base + suc i
      next = omega arith

      apart : (base == base + 1 + i) ≡ false
      apart = ground arith
  Maps-suc base n pa perm k k2 (some (true, after)) e (owner, pages, t, maps) =
      (owner, pages, t, λ m lt. maps m lt ∙ mapped-suc base n pa perm m k.mem k2.mem (e m lt))
  Maps-suc base n pa perm k k2 (some (false, after)) e (i, lt, owner, t, maps) = (
    suc i,
    omega arith,
    owner,
    t,
    λ m lt. maps m lt ∙ mapped-suc base i pa perm m k.mem k2.mem (e m lt),
  )

  leb-true : (i j : ℕ) → leb i j ≡ true → i ≤ j
  leb-true i j e = ground arith

  pub leb-false : (i j : ℕ) → leb i j ≡ false → j < i
  leb-false i j e = ground arith

  -- The round of `map_loop` for a page whose entry `walk` has found.
  Maps-found :
      (n base pa perm pte : ℕ) (owner : Owner) (k k1 : Kmem) (rest : Kmem → Option (Bool × Kmem))
      → base * pgsize < maxva
      → owner root ≡ some (2, 0)
      → Walked kernel_end positive root 2 (base * pgsize) root owner k.mem (some pte, k1)
      → ((o : Owner) (pages : List ℕ) (k2 : Kmem)
          → IsTree kernel_end positive root o pages k2
          → Maps (base + 1) n (pa + pgsize) perm k2 (rest k2))
      → Maps base (suc n) pa perm k (
          if is_valid (k1.mem pte)
          then none
          else rest (record k1 { mem = update k1.mem pte (pa2pte pa perm) }))
  Maps-found n base pa perm pte owner k k1 rest low start (o1, pages, t, g, q, own_q, at_q, leads)
        again =
      subst
        (λ x. Maps base (suc n) pa perm k (
          if is_valid (k1.mem x)
          then none
          else rest (record k1 { mem = update k1.mem x (pa2pte pa perm) })))
        (sym at_q)
        (elim (Bool-cases (is_valid (k1.mem (slot 0 (base * pgsize) q)))) [
          | inl v ↦ rw v (0, omega arith, inr (remap v))
          | inr off ↦ rw off (
              Maps-suc base n pa perm k k2 (rest k2) entry (
                again o1 pages k2 (
                  written-IsTree kernel_end positive root o1 pages k1 (base * pgsize) q
                    (pa2pte pa perm) t own_q)))
        ])
    where
      k2 : Kmem
      k2 = record k1 { mem = update k1.mem (slot 0 (base * pgsize) q) (pa2pte pa perm) }

      before : (m : ℕ) → IsInside m → mapping root m k1.mem ≡ mapping root m k.mem
      before m lt =
          g.same 2 (m * pgsize) root (omega arith)
            (part-root kernel_end positive root owner m lt start)

      remap :
          is_valid (k1.mem (slot 0 (base * pgsize) q)) ≡ true
          → is_valid (mapping root (base + 0) k.mem) ≡ true
      remap v =
          subst (λ m. is_valid (mapping root m k.mem) ≡ true) (omega arith)
            (ap is_valid (
                sym (before base (omega arith))
                ∙ Leads-entry_at 2 (base * pgsize) root q k1.mem leads)
              ∙ v)

      entry :
          (m : ℕ)
          → IsInside m
          → mapping root m k2.mem ≡ (if base == m then pa2pte pa perm else mapping root m k.mem)
      entry =
          written_entry kernel_end positive root o1 pages k1 base q (pa2pte pa perm) k.mem t low
            own_q leads before

  pub map_loop-Maps :
      (n base pa perm : ℕ) (owner : Owner) (pages : List ℕ) (k : Kmem)
      → IsTree kernel_end positive root owner pages k
      → Maps base n pa perm k (map_loop root (base * pgsize) n pa perm k)
  unfolding map_loop walk
  map_loop-Maps zero base pa perm owner pages k t =
      (owner, pages, t, λ m lt. mapped-zero base pa perm m k.mem)
  map_loop-Maps (suc n) base pa perm owner pages k t =
      by_test (leb maxva (base * pgsize)) refl (map_loop-Maps n (base + 1) (pa + pgsize) perm)
    where
      -- The round after `walk`, with the rounds left.
      round : (Kmem → Option (Bool × Kmem)) → Option ℕ × Kmem → Option (Bool × Kmem)
      round rest r = elim r.0 [
        | none ↦ some (false, r.1)
        | some pte ↦
            if is_valid (r.1.mem pte)
            then none
            else rest (record r.1 { mem = update r.1.mem pte (pa2pte pa perm) })
      ]

      by_walk :
          (rest : Kmem → Option (Bool × Kmem))
          → base * pgsize < maxva
          → (r : Option ℕ × Kmem)
          → Walked kernel_end positive root 2 (base * pgsize) root owner k.mem r
          → ((o : Owner) (pages : List ℕ) (k2 : Kmem)
              → IsTree kernel_end positive root o pages k2
              → Maps (base + 1) n (pa + pgsize) perm k2 (rest k2))
          → Maps base (suc n) pa perm k (round rest r)
      by_walk rest low (none, k1) (o1, t1, g) again = (
        0,
        omega arith,
        o1,
        t1,
        λ m lt.
            g.same 2 (m * pgsize) root (omega arith)
              (part-root kernel_end positive root owner m lt t.at_root)
            ∙ mapped-zero base pa perm m k.mem,
      )
      by_walk rest low (some pte, k1) walked again =
          Maps-found n base pa perm pte owner k k1 rest low t.at_root walked again

      by_test :
          (high : Bool)
          → leb maxva (base * pgsize) ≡ high
          → ((o : Owner) (pages : List ℕ) (k2 : Kmem)
              → IsTree kernel_end positive root o pages k2
              → Maps
                  (base + 1)
                  n
                  (pa + pgsize)
                  perm
                  k2
                  (map_loop root ((base + 1) * pgsize) n (pa + pgsize) perm k2))
          → Maps base (suc n) pa perm k (
              (if high then none else some (walk_from true 2 (base * pgsize) root k))
              >>= round (map_loop root (base * pgsize + pgsize) n (pa + pgsize) perm))
      by_test true e again = (0, omega arith, inl (omega (arith, leb-true maxva (base * pgsize) e)))
      by_test false e again =
          by_walk (map_loop root (base * pgsize + pgsize) n (pa + pgsize) perm)
            (leb-false maxva (base * pgsize) e) (walk_from true 2 (base * pgsize) root k)
            (walk_from-Walked kernel_end positive root 2 (base * pgsize) root owner pages k
              (omega arith) t
              (part-root kernel_end positive root owner base
                (omega (arith, (leb-false maxva (base * pgsize) e))) t.at_root))
            (λ o ps k2 t2.
              subst
                (λ a.
                  Maps (base + 1) n (pa + pgsize) perm k2 (map_loop root a n (pa + pgsize) perm k2))
                next (again o ps k2 t2))
        where
          next : (base + 1) * pgsize ≡ base * pgsize + pgsize
          next = omega arith
