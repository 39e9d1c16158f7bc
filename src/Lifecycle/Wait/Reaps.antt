-- ===== src/Lifecycle/Wait/Reaps.antt =====
-- What a pass of `wait` or `waitx` finds.
use modified_riscv.Base.{
  ℕ, zero, suc, ◌+◌, ◌≡◌, ◌⊎◌, inl, inr, refl, ◌∙◌, ap₂, Bool, true, false, ◌&&◌, ◌||◌, not, Option,
  none, some, List, [], ◌∷◌, set, get_elem?, arith, Bool-cases, Allows, bind-Allows, anything,
}
use native.Mathlib.Nat.{zero-add}
use modified_riscv.Proc.{Proc, is_state, zombie}
use modified_riscv.Lifecycle.Memory.{Memory}
use modified_riscv.Lifecycle.Alloc.{freeproc, cleared, free_copy, free_table}
use modified_riscv.Lifecycle.Wakeup.{is_child}
use modified_riscv.Lifecycle.Wait.{
  scan_children, Pass, reaped, failed, sleeps, reap, wait_pass, wait,
}

abbrev is_exited : ℕ → Proc → Bool
is_exited me p = is_child me p && is_state p.state zombie

-- What the scan gives: an exited child, or the news that none has exited and whether there are any.
abbrev Scanned : ℕ → List Proc → ℕ → Bool → Option (ℕ × Proc) × Bool → Type 0
Scanned me ps i h (some (j, p), b) =
    (k : ℕ) × (j ≡ i + k) × (get_elem? ps k ≡ some p) × (is_exited me p ≡ true)
Scanned me ps i h (none, b) =
    ((k : ℕ) (p : Proc) → get_elem? ps k ≡ some p → is_exited me p ≡ false)
    × ((b ≡ true)
        → (h ≡ true) ⊎ ((k : ℕ) × (p : Proc) × (get_elem? ps k ≡ some p) × (is_child me p ≡ true)))
    × ((b ≡ false)
        → (h ≡ false) × ((k : ℕ) (p : Proc) → get_elem? ps k ≡ some p → is_child me p ≡ false))

scan_later :
    (me : ℕ) (x : Proc) (xs : List Proc) (i : ℕ) (h : Bool) (r : Option (ℕ × Proc) × Bool)
    → is_exited me x ≡ false
    → Scanned me xs (i + 1) (is_child me x || h) r
    → Scanned me (x ∷ xs) i h r
scan_later me x xs i h (some (j, p), b) stays (k, e, g, z) = (suc k, omega arith, g, z)
scan_later me x xs i h (none, b) stays (none_out, kids, lone) =
    (exited, λ t. child (kids t), λ f. alone (lone f))
  where
    exited : (k : ℕ) (p : Proc) → get_elem? (x ∷ xs) k ≡ some p → is_exited me p ≡ false
    exited zero p g = ground arith
    exited (suc k) p g = none_out k p g

    child :
        ((is_child me x || h) ≡ true)
          ⊎ ((k : ℕ) × (p : Proc) × (get_elem? xs k ≡ some p) × (is_child me p ≡ true))
        → (h ≡ true)
          ⊎ ((k : ℕ) × (p : Proc) × (get_elem? (x ∷ xs) k ≡ some p) × (is_child me p ≡ true))
    child (inr (k, p, g, c)) = inr (suc k, p, g, c)
    child (inl e) = elim (Bool-cases (is_child me x)) [
      | inl c ↦ inr (0, x, refl, c)
      | inr c ↦ inl (ground arith)
    ]

    alone :
        ((is_child me x || h) ≡ false)
          × ((k : ℕ) (p : Proc) → get_elem? xs k ≡ some p → is_child me p ≡ false)
        → (h ≡ false) × ((k : ℕ) (p : Proc) → get_elem? (x ∷ xs) k ≡ some p → is_child me p ≡ false)
    alone (e, rest) = (ground arith, each)
      where
        each : (k : ℕ) (p : Proc) → get_elem? (x ∷ xs) k ≡ some p → is_child me p ≡ false
        each zero p g = ground arith
        each (suc k) p g = rest k p g

scan_children_lem :
    (me : ℕ) (ps : List Proc) (i : ℕ) (h : Bool) → Scanned me ps i h (scan_children me ps i h)
unfolding scan_children
scan_children_lem me [] i h = (λ k p g. cc, λ t. inl t, λ f. (f, λ k p g. cc))
scan_children_lem me (x ∷ xs) i h = elim (Bool-cases (is_exited me x)) [
  | inl e ↦ rw e (0, omega arith, refl, e)
  | inr e ↦ rw e (
      scan_later me x xs i h (scan_children me xs (i + 1) (is_child me x || h)) e
        (scan_children_lem me xs (i + 1) (is_child me x || h)))
]

module _ (memory : Memory) (me : ℕ) (copies killed : Bool) (ps : List Proc) where
  -- The end of a pass whose result for a child `p` is `result p`.
  abbrev pub IsPass : {A : Type 0} → (Proc → A) → Pass A × List Proc × memory.Mem → Type 0
  IsPass result (reaped a, qs, m) =
      (k : ℕ) × (p : Proc) × (get_elem? ps k ≡ some p)
      × (is_exited me p ≡ true)
      × (a ≡ result p)
      × (qs ≡ set ps k (cleared memory p))
  IsPass result (failed, qs, m) =
      (qs ≡ ps)
      × ((copies ≡ false)
          ⊎ ((killed ≡ true)
              ⊎ ((k : ℕ) (p : Proc) → get_elem? ps k ≡ some p → is_child me p ≡ false)))
  IsPass result (sleeps, qs, m) =
      (qs ≡ ps)
      × (killed ≡ false)
      × ((k : ℕ) (p : Proc) → get_elem? ps k ≡ some p → is_exited me p ≡ false)
      × ((k : ℕ) × (p : Proc) × (get_elem? ps k ≡ some p) × (is_child me p ≡ true))

  freeproc-cleared :
      (p : Proc) (m : memory.Mem) → Allows (freeproc memory p m) (λ r. r.0 ≡ cleared memory p)
  unfolding freeproc
  freeproc-cleared p m =
      bind-Allows (free_copy memory p m) _ (λ _. Unit {0}) _ (anything (free_copy memory p m))
        (λ m1 u.
          bind-Allows (free_table memory p m1) _ (λ _. Unit {0}) _
            (anything (free_table memory p m1)) (λ m2 v. refl))

  wait_pass_lem :
      {A : Type 0} (result : Proc → A) (m : memory.Mem) (s : Option (ℕ × Proc) × Bool)
      → Scanned me ps 0 false s
      → Allows (wait_pass memory copies killed result ps m s) (IsPass result)
  unfolding wait_pass reap
  wait_pass_lem result m (some (i, p), h) (k, e, g, z) = reap_lem copies refl
    where
      reap_lem : (c : Bool) → copies ≡ c → Allows (reap memory c result i p ps m) (IsPass result)
      reap_lem true eq =
          (bind-Allows (freeproc memory p m) _ _ _ (freeproc-cleared p m)
            (λ r clear. (k, p, g, z, refl, ap₂ (set ps) (e ∙ zero-add k) clear)))
      reap_lem false eq = (refl, inl eq)
  wait_pass_lem result m (none, h) (out, kids, lone) = elim (Bool-cases (not h || killed)) [
    | inl e ↦ rw e (
      refl,
      elim (Bool-cases killed) [ inl k ↦ inr (inl k) | inr k ↦ inr (inr (lone (ground arith)).1) ],
    )
    | inr e ↦
        rw e
          (refl, ground arith, out, elim (kids (ground arith)) [ inl f ↦ cc | inr child ↦ child ])
  ]

-- A pass of `wait` that does not panic returns the pid of an exited child and frees that child's
-- entry; or it fails with the table unchanged, where the status cannot be copied out, the caller is
-- killed or there is no child; or it sleeps, where there is a child, none has exited and the caller
-- is not killed.
pub wait-IsPass :
    (memory : Memory) (copies killed : Bool) (me : ℕ) (ps : List Proc) (m : memory.Mem)
    → Allows (wait memory copies killed me ps m) (IsPass memory me copies killed ps (λ p. p.pid))
unfolding wait
wait-IsPass memory copies killed me ps m =
    wait_pass_lem memory me copies killed ps (λ p. p.pid) m (scan_children me ps 0 false)
      (scan_children_lem me ps 0 false)
