-- ===== src/Lifecycle/Alloc/Entry.antt =====
-- What `allocproc` makes of the table: the pids of the processes stay distinct.
use modified_riscv.Base.{
  ℕ, suc, ◌+◌, ◌<◌, ◌≡◌, ◌≢◌, ◌⊎◌, inl, inr, refl, ◌∙◌, sym, false, Option, none, some, List, [],
  ◌∷◌, ◌==◌, set, get_elem?, get_elem?-set_there, get_elem?-set_ne, ℕ_discrete, ap, arith, Allows,
  Allows-map, bind-Allows, anything, Bool-cases, subst,
}
use native.Mathlib.Nat.{zero-add}
use modified_riscv.Base.Int.{pos}
use modified_riscv.Proc.{Proc, is_state, unused}
use modified_riscv.Sched.Mlfq.{Queue}
use modified_riscv.Sched.Mlfq.Ageing.{push}
use modified_riscv.Lifecycle.Memory.{Memory}
use modified_riscv.Lifecycle.Alloc.{
  find_unused, init_entry, Kernel, freeproc, give_up, finish_entry, fill_entry, allocproc,
  alloc_found, free_copy, free_table, with_context,
}

-- The entry found is in the table, and UNUSED.
pub find_unused_lem :
    (ps : List Proc) (i j : ℕ) (p : Proc)
    → find_unused ps i ≡ some (j, p)
    → (k : ℕ) × (j ≡ i + k) × (get_elem? ps k ≡ some p) × (p.state ≡ unused)
unfolding find_unused
find_unused_lem [] i j p h = cc
find_unused_lem (x ∷ xs) i j p h = elim (Bool-cases (is_state x.state unused)) [
  | inl e ↦ (0, ground arith, ground arith, ground arith)
  | inr e ↦
      let (k, s, g, u) = find_unused_lem xs (i + 1) j p (rw e at h) in (suc k, omega arith, g, u)
]

-- Every pid was handed out before, and no two processes have the same.
pub record IsNumbered (table : List Proc) (nextpid : ℕ) : Type 0 where
  pub below : (i : ℕ) (p : Proc) → get_elem? table i ≡ some p → p.state ≢ unused → p.pid < nextpid
  pub distinct :
      (i j : ℕ) (p q : Proc)
      → get_elem? table i ≡ some p
      → get_elem? table j ≡ some q
      → p.state ≢ unused
      → q.state ≢ unused
      → p.pid ≡ q.pid
      → i ≡ j

-- An entry that is UNUSED or has the next pid.
abbrev IsFreshEntry : ℕ → Proc → Type 0
IsFreshEntry nextpid p = (p.state ≡ unused) ⊎ (p.pid ≡ nextpid)

after_set :
    (table : List Proc) (i j : ℕ) (p p' q : Proc)
    → get_elem? table i ≡ some p
    → get_elem? (set table i p') j ≡ some q
    → ((j ≡ i) × (q ≡ p')) ⊎ (get_elem? table j ≡ some q)
after_set table i j p p' q there h = elim (ℕ_discrete i j) [
  | yes e ↦
      let back : get_elem? (set table i p') i ≡ some q =
        subst (λ x. get_elem? (set table i p') x ≡ some q) (sym e) h in
      inl (sym e, cc (back, get_elem?-set_there table i p p' there))
  | no ne ↦ inr (sym (get_elem?-set_ne table i j p' ne) ∙ h)
]

module _ (table : List Proc) (nextpid i : ℕ) (p p' : Proc) where
  numbered-below :
      IsNumbered table nextpid
      → get_elem? table i ≡ some p
      → IsFreshEntry nextpid p'
      → (j : ℕ) (q : Proc) → get_elem? (set table i p') j ≡ some q
      → q.state ≢ unused
      → q.pid < nextpid + 1
  numbered-below h there fresh j q at_j live = elim (after_set table i j p p' q there at_j) [
    | inl (e, same) ↦ elim fresh [
      | inl dead ↦ absurd (live (ap (λ x. x.state) same ∙ dead))
      | inr num ↦ omega (arith, ap (λ (x : Proc). x.pid) same)
    ]
    | inr old ↦ omega (arith, h.below j q old live)
  ]

  -- The new entry's pid is no other process's.
  new-alone :
      IsNumbered table nextpid
      → IsFreshEntry nextpid p'
      → (j : ℕ) (q : Proc) → get_elem? table j ≡ some q
      → q.state ≢ unused
      → p'.state ≢ unused
      → p'.pid ≢ q.pid
  new-alone h fresh j q old live_q live same = elim fresh [
    | inl dead ↦ live dead
    | inr num ↦ omega (arith, h.below j q old live_q)
  ]

  numbered-distinct :
      IsNumbered table nextpid
      → get_elem? table i ≡ some p
      → IsFreshEntry nextpid p'
      → (a b : ℕ) (q r : Proc) → get_elem? (set table i p') a ≡ some q
      → get_elem? (set table i p') b ≡ some r
      → q.state ≢ unused
      → r.state ≢ unused
      → q.pid ≡ r.pid
      → a ≡ b
  numbered-distinct h there fresh a b q r at_a at_b live_q live_r same =
      elim (after_set table i a p p' q there at_a) [
        | inl (ea, qa) ↦ elim (after_set table i b p p' r there at_b) [
          | inl (eb, rb) ↦ ea ∙ sym eb
          | inr old_b ↦ absurd (
              new-alone h fresh b r old_b live_r (subst (λ x. x.state ≢ unused) qa live_q)
                (ap (λ x. x.pid) (sym qa) ∙ same))
        ]
        | inr old_a ↦ elim (after_set table i b p p' r there at_b) [
          | inl (eb, rb) ↦ absurd (
              new-alone h fresh a q old_a live_q (subst (λ x. x.state ≢ unused) rb live_r)
                (ap (λ x. x.pid) (sym rb) ∙ sym same))
          | inr old_b ↦ h.distinct a b q r old_a old_b live_q live_r same
        ]
      ]

  IsNumbered-set :
      IsNumbered table nextpid
      → get_elem? table i ≡ some p
      → IsFreshEntry nextpid p'
      → IsNumbered (set table i p') (nextpid + 1)
  IsNumbered-set h there fresh = record {
    below = numbered-below h there fresh;
    distinct = numbered-distinct h there fresh;
  }

module _ (memory : Memory) where
  -- What each end of `allocproc` does to the table and the counter.
  abbrev Fills : ℕ → Proc → Kernel memory → Option ℕ × Kernel memory → Type 0
  Fills i p k r =
      (q : Proc) × (r.1.table ≡ set k.table i q)
      × (r.1.nextpid ≡ k.nextpid)
      × ((q.state ≡ unused) ⊎ ((q.pid ≡ p.pid) × (q.state ≡ p.state)))

  freeproc-unused :
      (p : Proc) (m : memory.Mem) → Allows (freeproc memory p m) (λ r. r.0.state ≡ unused)
  unfolding freeproc
  freeproc-unused p m =
      bind-Allows (free_copy memory p m) _ (λ _. Unit {0}) _ (anything (free_copy memory p m))
        (λ m1 u.
          bind-Allows (free_table memory p m1) _ (λ _. Unit {0}) _
            (anything (free_table memory p m1)) (λ m2 v. refl))

  give_up-Fills :
      (i : ℕ) (p p' : Proc) (k : Kernel memory) (m : memory.Mem)
      → Allows (give_up memory i p' (record k { mem = m })) (Fills i p k)
  give_up-Fills i p p' k m =
      bind-Allows (freeproc memory p' m) _ _ _ (freeproc-unused p' m)
        (λ r e. (r.0, refl, refl, inl e))

  finish_entry-Fills :
      (i : ℕ) (p p' : Proc) (k : Kernel memory) (m : memory.Mem)
      → p'.pid ≡ p.pid
      → p'.state ≡ p.state
      → Fills i p k (finish_entry memory i p' (record k { mem = m }))
  unfolding finish_entry
  finish_entry-Fills i p p' k m a b = elim (Bool-cases ((memory.kalloc m).0 == 0)) [
    | inl e ↦ rw e (record p' { trapframe_copy = 0 }, refl, refl, inr (a, b))
    | inr e ↦ rw e (
      record p' {
        trapframe_copy = (memory.kalloc m).0;
        is_sigalarm = false;
        tickss = pos 0;
        now_ticks = 0;
        handler = 0;
      },
      refl,
      refl,
      inr (a, b),
    )
  ]

  fill_entry-Fills :
      (forkret i : ℕ) (p : Proc) (k : Kernel memory)
      → Allows (fill_entry memory forkret i p k) (Fills i p k)
  unfolding fill_entry
  fill_entry-Fills forkret i p k =
      let (frame, m1) = memory.kalloc k.mem in
      let (table, m2) = memory.proc_pagetable frame m1 in
      elim (Bool-cases (frame == 0)) [
        | inl e ↦ rw e (give_up-Fills i p (record p { trapframe = frame }) k m1)
        | inr e ↦ elim (Bool-cases (table == 0)) [
          | inl e' ↦
              rw (e, e')
                (give_up-Fills i p (record p { trapframe = frame; pagetable = table }) k m2)
          | inr e' ↦
              rw (e, e')
                (finish_entry-Fills i p
                  (with_context forkret (record p { trapframe = frame; pagetable = table })) k m2
                  refl refl)
        ]
      ]

  alloc_found-IsNumbered :
      (forkret : ℕ) (k : Kernel memory) (c : Option (ℕ × Proc))
      → IsNumbered k.table k.nextpid
      → ((i : ℕ) (p : Proc) → c ≡ some (i, p) → get_elem? k.table i ≡ some p)
      → Allows (alloc_found memory forkret k c) (λ r. IsNumbered r.1.table r.1.nextpid)
  unfolding alloc_found init_entry
  alloc_found-IsNumbered forkret k none h there = h
  alloc_found-IsNumbered forkret k (some (i, p)) h there =
      bind-Allows (push (some i) k.queue0) _ (λ _. Unit {0}) _ (anything (push (some i) k.queue0))
        (λ queue0 u.
          Allows-map
            (fill_entry memory forkret i (init_entry k.nextpid k.ticks p)
              (record k { nextpid = k.nextpid + 1; queue0 = queue0 }))
            _ _
            (fill_entry-Fills forkret i (init_entry k.nextpid k.ticks p)
              (record k { nextpid = k.nextpid + 1; queue0 = queue0 }))
            (λ r f. numbered r queue0 f))
    where
      numbered :
          (r : Option ℕ × Kernel memory) (queue0 : Queue)
          → Fills i
              (init_entry k.nextpid k.ticks p)
              (record k { nextpid = k.nextpid + 1; queue0 = queue0 })
              r
          → IsNumbered r.1.table r.1.nextpid
      numbered r queue0 (q, t, n, e) =
          rw (t, n)
            (IsNumbered-set k.table k.nextpid i p q h (there i p refl)
              (elim e [ inl dead ↦ inl dead | inr both ↦ inr both.0 ]))

  -- `allocproc` keeps the pids of the processes distinct and below `nextpid`, on every path that
  -- does not panic or leave `queue0`.
  pub allocproc-IsNumbered :
      (forkret : ℕ) (k : Kernel memory)
      → IsNumbered k.table k.nextpid
      → Allows (allocproc memory forkret k) (λ r. IsNumbered r.1.table r.1.nextpid)
  unfolding allocproc
  allocproc-IsNumbered forkret k h =
      alloc_found-IsNumbered forkret k (find_unused k.table 0) h
        (λ i p e. let (n, s, g, u) = find_unused_lem k.table 0 i p e in rw (s, zero-add) g)
