-- ===== src/Vm/Space/Release.antt =====
-- The loop of `uvmunmap`, and the call.
use modified_riscv.Base.{
  ℕ, suc, ◌+◌, ◌-◌, ◌*◌, ◌/◌, ◌%◌, ◌^◌, ◌≤◌, ◌<◌, ◌≡◌, refl, sym, ◌∙◌, ap, ap₂, subst, Bool, true,
  false, ◌&&◌, Option, some, List, [], ◌∷◌, length, ◌==◌, leb, ltb, if◌then◌else◌, update, arith,
  Returns, Returns-map, bind-Returns,
}
use modified_riscv.Kalloc.{pgsize, pgroundup, Kmem}
use modified_riscv.Vm.Table.{maxva, slot, walk}
use modified_riscv.Vm.Table.Tree.{part, Owner, IsTree}
use modified_riscv.Vm.Table.Grow.{entry_at-frame}
use modified_riscv.Vm.Table.Walk.{Leads, Leads-entry_at}
use modified_riscv.Vm.Table.Leaf.{written-IsTree}
use modified_riscv.Vm.Table.Mapping.{mapping, IsInside, part-root, written_entry}
use modified_riscv.Vm.Space.{free_if, unmap_loop, uvmunmap, uvmdealloc}
use modified_riscv.Vm.Space.Unmap.{
  MapsTo, MapsTo-frame, freed, CanFree, Leads-frame, walk_from-Found, free_if-Returns, freed-cons,
  unmapped-suc, Unmapped,
}

module _ (kernel_end : ℕ) (positive : 0 < kernel_end) (root : ℕ) where
  -- The rest of a round, after the page of the entry is freed or not.
  after_free :
      (do_free : Bool) (d : ℕ) (ds : List ℕ) (base q : ℕ) (owner : Owner) (pages : List ℕ)
      (k k2 : Kmem)
      → (rest : Kmem → Option Kmem) → base * pgsize < maxva
      → base + suc (length ds) ≤ 2 ^ 26
      → IsTree kernel_end positive root owner pages k
      → owner q ≡ some (0, part 0 (base * pgsize))
      → Leads 2 (base * pgsize) root q k.mem
      → MapsTo root (base + 1) ds k.mem
      → IsTree kernel_end positive root owner (freed do_free (d ∷ []) pages) k2
      → ((p i : ℕ) (o : ℕ × ℕ)
          → owner p ≡ some o
          → i < 512
          → k2.mem (p + 8 * i) ≡ k.mem (p + 8 * i))
      → ((k3 : Kmem)
          → IsTree kernel_end positive root owner (freed do_free (d ∷ []) pages) k3
          → MapsTo root (base + 1) ds k3.mem
          → Returns (rest k3) (
              Unmapped kernel_end positive root do_free owner
                (freed do_free (d ∷ []) pages)
                (base + 1)
                ds
                k3))
      → Returns
          (rest (record k2 { mem = update k2.mem (slot 0 (base * pgsize) q) 0 }))
          (Unmapped kernel_end positive root do_free owner pages base (d ∷ ds) k)
  after_free do_free d ds base q owner pages k k2 rest low inside t own_q leads maps t2 agree
        again =
      Returns-map (rest k3)
        (Unmapped kernel_end positive root do_free owner (freed do_free (d ∷ []) pages) (base + 1)
          ds k3)
        (Unmapped kernel_end positive root do_free owner pages base (d ∷ ds) k)
        (again k3
          (written-IsTree kernel_end positive root owner (freed do_free (d ∷ []) pages) k2
            (base * pgsize) q 0 t2 own_q)
          (MapsTo-frame root (base + 1) ds k.mem k3.mem others maps))
        (λ after (t3, maps3). (
          subst (λ ps. IsTree kernel_end positive root owner ps after)
              (freed-cons kernel_end positive root do_free d ds pages) t3,
          λ m lt.
              maps3 m lt
              ∙ unmapped-suc kernel_end positive root base (length ds) m k.mem k3.mem (entry m lt),
        ))
    where
      k3 : Kmem
      k3 = record k2 { mem = update k2.mem (slot 0 (base * pgsize) q) 0 }

      before : (m : ℕ) → IsInside m → mapping root m k2.mem ≡ mapping root m k.mem
      before m lt =
          entry_at-frame kernel_end positive root owner pages k k2.mem t agree 2 (m * pgsize) root
            (omega arith) (part-root kernel_end positive root owner m lt t.at_root)

      entry :
          (m : ℕ)
          → IsInside m
          → mapping root m k3.mem ≡ (if base == m then 0 else mapping root m k.mem)
      entry =
          written_entry kernel_end positive root owner (freed do_free (d ∷ []) pages) k2 base q 0
            k.mem t2 low own_q
            (Leads-frame kernel_end positive root owner pages k k2.mem 2 (base * pgsize) root q t
              agree (omega arith)
              (part-root kernel_end positive root owner base (omega (arith, low)) t.at_root) leads)
            before

      later : (i : ℕ) → (base == base + 1 + i) ≡ false
      later i = ground arith

      others :
          (i : ℕ)
          → i < length ds
          → mapping root (base + 1 + i) k3.mem ≡ mapping root (base + 1 + i) k.mem
      others i lt =
          entry (base + 1 + i) (omega arith)
          ∙ ap (λ b. if b then 0 else mapping root (base + 1 + i) k.mem) (later i)

  Unmapped-none :
      (do_free : Bool) (base : ℕ) (owner : Owner) (pages : List ℕ) (k : Kmem)
      → IsTree kernel_end positive root owner pages k
      → Unmapped kernel_end positive root do_free owner pages base [] k k
  Unmapped-none do_free base owner pages k t = (
    subst (λ ps. IsTree kernel_end positive root owner ps k) (sym (freed_none do_free)) t,
    λ m lt. none_less m (mapping root m k.mem),
  )
    where
      freed_none : (b : Bool) → freed b [] pages ≡ pages
      freed_none false = refl
      freed_none true = refl

      none_less : (m old : ℕ) → old ≡ (if leb base m && ltb m (base + 0) then 0 else old)
      none_less m old = ground arith

  unmap_loop-Unmapped :
      (ds : List ℕ) (do_free : Bool) (base : ℕ) (owner : Owner) (pages : List ℕ) (k : Kmem)
      → base + length ds ≤ 2 ^ 26
      → IsTree kernel_end positive root owner pages k
      → MapsTo root base ds k.mem
      → CanFree kernel_end positive root do_free owner ds pages
      → Returns
          (unmap_loop kernel_end do_free root (base * pgsize) (length ds) k)
          (Unmapped kernel_end positive root do_free owner pages base ds k)
  unfolding unmap_loop walk
  unmap_loop-Unmapped [] do_free base owner pages k inside t maps can =
      Unmapped-none do_free base owner pages k t
  unmap_loop-Unmapped (d ∷ ds) do_free base owner pages k inside t (v, leaf, to, maps) can =
      let (q, own_q, leads, found) =
        walk_from-Found kernel_end positive root 2 (base * pgsize) root owner pages k t
          (omega arith)
          (part-root kernel_end positive root owner base (omega (arith, inside)) t.at_root) v in
      let here = Leads-entry_at 2 (base * pgsize) root q k.mem leads in
      rw (low, found, sym here, v, leaf, to)
        (bind-Returns (free_if kernel_end do_free d k) _ _ _
          (free_if-Returns kernel_end positive root do_free d ds owner pages k t can)
          (λ k2 (t2, can2, agree).
            after_free do_free d ds base q owner pages k k2
              (unmap_loop kernel_end do_free root (base * pgsize + pgsize) (length ds))
              (omega (arith, inside)) inside t own_q leads maps t2 agree
              (λ k3 t3 maps3.
                subst
                  (λ a. Returns (unmap_loop kernel_end do_free root a (length ds) k3) (
                    Unmapped kernel_end positive root do_free owner (freed do_free (d ∷ []) pages)
                      (base + 1) ds k3))
                  next
                  (unmap_loop-Unmapped ds do_free (base + 1) owner (freed do_free (d ∷ []) pages) k3
                    (omega (arith, inside)) t3 maps3 can2))))
    where
      low : leb maxva (base * pgsize) ≡ false
      low = ground arith

      next : (base + 1) * pgsize ≡ base * pgsize + pgsize
      next = omega arith

  pub uvmunmap-Unmapped :
      (ds : List ℕ) (do_free : Bool) (base : ℕ) (owner : Owner) (pages : List ℕ) (k : Kmem)
      → base + length ds ≤ 2 ^ 26
      → IsTree kernel_end positive root owner pages k
      → MapsTo root base ds k.mem
      → CanFree kernel_end positive root do_free owner ds pages
      → Returns
          (uvmunmap kernel_end root (base * pgsize) (length ds) do_free k)
          (Unmapped kernel_end positive root do_free owner pages base ds k)
  unfolding uvmunmap
  uvmunmap-Unmapped ds do_free base owner pages k inside t maps can =
      rw aligned (unmap_loop-Unmapped ds do_free base owner pages k inside t maps can)
    where
      whole : base * pgsize % pgsize ≡ 0
      whole = omega arith

      aligned : (base * pgsize % pgsize == 0) ≡ true
      aligned = ap (λ n. n == 0) whole

  -- `uvmdealloc` to a smaller size, of pages below MAXVA that are mapped by leaves to distinct
  -- pages which are neither free nor tables, does not panic and gives the new size: the pages
  -- past the new size have no entry, the map of all other pages and the tables are as before, and
  -- the free list is what it was with the pages that were mapped, the last one first, in front.
  pub uvmdealloc-Unmapped :
      (ds : List ℕ) (oldsz newsz : ℕ) (owner : Owner) (pages : List ℕ) (k : Kmem)
      → newsz < oldsz
      → oldsz ≤ maxva
      → pgroundup newsz + length ds * pgsize ≡ pgroundup oldsz
      → IsTree kernel_end positive root owner pages k
      → MapsTo root (pgroundup newsz / pgsize) ds k.mem
      → CanFree kernel_end positive root true owner ds pages
      → Returns (uvmdealloc kernel_end root oldsz newsz k) (λ (size, after).
        (size ≡ newsz)
        × Unmapped kernel_end positive root true owner pages (pgroundup newsz / pgsize) ds k after)
  unfolding uvmdealloc
  uvmdealloc-Unmapped [] oldsz newsz owner pages k lt high counted t maps can =
      rw (smaller, none_left) (refl, Unmapped-none true (pgroundup newsz / pgsize) owner pages k t)
    where
      smaller : leb oldsz newsz ≡ false
      smaller = ground arith

      none_left : ltb (pgroundup newsz) (pgroundup oldsz) ≡ false
      none_left = ap (ltb (pgroundup newsz)) (sym counted) ∙ itself (pgroundup newsz)
        where
          itself : (n : ℕ) → ltb n (n + 0) ≡ false
          itself n = ground arith
  uvmdealloc-Unmapped (d ∷ ds) oldsz newsz owner pages k lt high counted t maps can =
      rw (smaller, some_left)
        (bind-Returns
          (uvmunmap kernel_end root (pgroundup newsz) ((pgroundup oldsz - pgroundup newsz) / pgsize)
            true k)
          (λ k1. some (newsz, k1))
          (Unmapped kernel_end positive root true owner pages (pgroundup newsz / pgsize) (d ∷ ds) k)
          _
          (subst
            (λ r. Returns r (
              Unmapped kernel_end positive root true owner pages (pgroundup newsz / pgsize) (d ∷ ds)
                k))
            (ap₂ (λ a n. uvmunmap kernel_end root a n true k) first rounds)
            (uvmunmap-Unmapped (d ∷ ds) true (pgroundup newsz / pgsize) owner pages k
              (omega (arith, counted, high)) t maps can))
          (λ k1 unmapped_all. (refl, unmapped_all)))
    where
      smaller : leb oldsz newsz ≡ false
      smaller = ground arith

      some_left : ltb (pgroundup newsz) (pgroundup oldsz) ≡ true
      some_left = ap (ltb (pgroundup newsz)) (sym counted) ∙ beyond (pgroundup newsz) (length ds)
        where
          beyond : (n m : ℕ) → ltb n (n + suc m * pgsize) ≡ true
          beyond n m = ground arith

      first : pgroundup newsz / pgsize * pgsize ≡ pgroundup newsz
      first = omega arith

      rounds : length (d ∷ ds) ≡ (pgroundup oldsz - pgroundup newsz) / pgsize
      rounds = omega (arith, counted)
