-- ===== src/Sched/Choice.antt =====
-- The plain loop makes a choice as `IsChoice` asks: induction over the processes left, with the best
-- one so far.
use modified_riscv.Base.{
  ℕ, zero, suc, ◌+◌, ◌≤◌, ◌<◌, ◌≡◌, ◌⊎◌, inl, inr, refl, sym, ◌∙◌, true, false, ◌&&◌, Option, none,
  some, List, [], ◌∷◌, get_elem?, arith,
}
use modified_riscv.Proc.{Proc, is_runnable}
use modified_riscv.Sched.Select.{Rank, before, improves, choose, select, IsChoice}

module _ (rank : Proc → Rank) where
  choose-cases :
      (i : ℕ) (x : Proc) (best : Option (ℕ × Proc))
      → ((choose rank i x best ≡ some (i, x))
          × (is_runnable x ≡ true)
          × (improves rank x best ≡ true))
        ⊎ ((choose rank i x best ≡ best) × (is_runnable x && improves rank x best ≡ false))
  choose-cases i x best = ground arith

  abbrev Better : ℕ → (ℕ × Proc) → (ℕ × Proc) → Type 0
  Better i (b, q) (j, p) = ((j ≡ b) × (p ≡ q)) ⊎ ((i ≤ j) × (before (rank p) (rank q) ≡ true))

  before_trans : (a b c : Rank) → before a b ≡ true → before b c ≡ true → before a c ≡ true
  before_trans a b c h k = ground arith

  -- The loop keeps the best process so far, or ends with a later one of a smaller rank.
  select-Better :
      (ps : List Proc) (i b j : ℕ) (q p : Proc)
      → select rank ps i (some (b, q)) ≡ some (j, p)
      → Better i (b, q) (j, p)
  unfolding select
  select-Better [] i b j q p h = ground arith
  select-Better (x ∷ xs) i b j q p h = elim (choose-cases i x (some (b, q))) [
    | inl (e, r, m) ↦ elim (select-Better xs (i + 1) i j x p (rw e at h)) [
      | inl (e1, e2) ↦ inr (omega arith, rw e2 m)
      | inr (l, s) ↦ inr (omega arith, before_trans (rank p) (rank x) (rank q) s m)
    ]
    | inr (e, r) ↦ elim (select-Better xs (i + 1) b j q p (rw e at h)) [
      | inl (e1, e2) ↦ inl (e1, e2)
      | inr (l, s) ↦ inr (omega arith, s)
    ]
  ]

  -- The process chosen is the best one before the loop, or a runnable one in the list.
  select-mem :
      (ps : List Proc) (i : ℕ) (best : Option (ℕ × Proc)) (j : ℕ) (p : Proc)
      → select rank ps i best ≡ some (j, p)
      → (best ≡ some (j, p))
        ⊎ ((k : ℕ) × (j ≡ i + k) × (get_elem? ps k ≡ some p) × (is_runnable p ≡ true))
  unfolding select
  select-mem [] i best j p h = inl h
  select-mem (x ∷ xs) i best j p h = elim (select-mem xs (i + 1) (choose rank i x best) j p h) [
    | inr (k, e, g, r) ↦ inr (suc k, omega arith, g, r)
    | inl here ↦ elim (choose-cases i x best) [
      | inl (e, r, m) ↦ inr (0, ground arith, ground arith, ground arith)
      | inr (e, r) ↦ inl (sym e ∙ here)
    ]
  ]

  select-least :
      (ps : List Proc) (i : ℕ) (best : Option (ℕ × Proc)) (j : ℕ) (p : Proc)
      → select rank ps i best ≡ some (j, p)
      → (k : ℕ) (q : Proc) → get_elem? ps k ≡ some q
      → is_runnable q ≡ true
      → before (rank q) (rank p) ≡ false
  unfolding select
  select-least [] i best j p h k q g r = ground arith
  select-least (x ∷ xs) i best j p h (suc k) q g r =
      select-least xs (i + 1) (choose rank i x best) j p h k q g r
  select-least (x ∷ xs) i none j p h zero q g r = elim (choose-cases i x none) [
    | inl (e, ready, m) ↦ ground (arith, select-Better xs (i + 1) i j x p (rw e at h))
    | inr (e, out) ↦ ground arith
  ]
  select-least (x ∷ xs) i (some (b, y)) j p h zero q g r = elim (choose-cases i x (some (b, y))) [
    | inl (e, ready, m) ↦ ground (arith, select-Better xs (i + 1) i j x p (rw e at h))
    | inr (e, out) ↦ ground (arith, select-Better xs (i + 1) b j y p (rw e at h))
  ]

  -- The best one so far stands before the processes left.
  abbrev Below : ℕ → Option (ℕ × Proc) → Type 0
  Below i none = Unit {0}
  Below i (some (b, y)) = b < i

  Below-choose :
      (i : ℕ) (x : Proc) (best : Option (ℕ × Proc))
      → Below i best
      → Below (i + 1) (choose rank i x best)
  Below-choose i x none h = ground arith
  Below-choose i x (some (b, y)) h = ground arith

  select-first :
      (ps : List Proc) (i : ℕ) (best : Option (ℕ × Proc)) (j : ℕ) (p : Proc)
      → Below i best
      → select rank ps i best ≡ some (j, p)
      → (k : ℕ) (q : Proc) → get_elem? ps k ≡ some q
      → is_runnable q ≡ true
      → i + k < j
      → before (rank p) (rank q) ≡ true
  unfolding select
  select-first [] i best j p below h k q g r l = ground arith
  select-first (x ∷ xs) i best j p below h (suc k) q g r l =
      select-first xs (i + 1) (choose rank i x best) j p (Below-choose i x best below) h k q g r
        (omega arith)
  select-first (x ∷ xs) i none j p below h zero q g r l = elim (choose-cases i x none) [
    | inl (e, ready, m) ↦ ground (arith, select-Better xs (i + 1) i j x p (rw e at h))
    | inr (e, out) ↦ ground arith
  ]
  select-first (x ∷ xs) i (some (b, y)) j p below h zero q g r l =
      elim (choose-cases i x (some (b, y))) [
        | inl (e, ready, m) ↦ ground (arith, select-Better xs (i + 1) i j x p (rw e at h))
        | inr (e, out) ↦ ground (arith, select-Better xs (i + 1) b j y p (rw e at h))
      ]

  select-none :
      (ps : List Proc) (i : ℕ) (best : Option (ℕ × Proc))
      → select rank ps i best ≡ none
      → (best ≡ none) × ((k : ℕ) (q : Proc) → get_elem? ps k ≡ some q → is_runnable q ≡ false)
  unfolding select
  select-none [] i best h = (h, λ k q g. ground arith)
  select-none (x ∷ xs) i best h =
      let (e, rest) = select-none xs (i + 1) (choose rank i x best) h in
      elim (choose-cases i x best) [
        | inl (t, ready, m) ↦ cc (sym t ∙ e)
        | inr (t, out) ↦ (sym t ∙ e, none_ready best (sym t ∙ e) out rest)
      ]
    where
      none_ready :
          (best : Option (ℕ × Proc))
          → best ≡ none
          → is_runnable x && improves rank x best ≡ false
          → ((k : ℕ) (q : Proc) → get_elem? xs k ≡ some q → is_runnable q ≡ false)
          → (k : ℕ) (q : Proc) → get_elem? (x ∷ xs) k ≡ some q
          → is_runnable q ≡ false
      none_ready none e out rest zero q g = ground arith
      none_ready none e out rest (suc k) q g = rest k q g
      none_ready (some b) e out rest k q g = cc

  select-some :
      (ps : List Proc) (j : ℕ) (p : Proc)
      → select rank ps 0 none ≡ some (j, p)
      → (k : ℕ) × (j ≡ 0 + k) × (get_elem? ps k ≡ some p) × (is_runnable p ≡ true)
  select-some ps j p h = elim (select-mem ps 0 none j p h) [ inl e ↦ cc | inr found ↦ found ]

  IsChoice-of :
      (ps : List Proc) (c : Option (ℕ × Proc)) → select rank ps 0 none ≡ c → IsChoice rank ps 0 c
  IsChoice-of ps none h = (select-none ps 0 none h).1
  IsChoice-of ps (some (j, p)) h =
      let (k, e, g, r) = select-some ps j p h in
      record {
        there = (k, e, g);
        ready = r;
        least = select-least ps 0 none j p h;
        first = select-first ps 0 none j p tt h;
      }

  pub select-IsChoice : (ps : List Proc) → IsChoice rank ps 0 (select rank ps 0 none)
  select-IsChoice ps = IsChoice-of ps (select rank ps 0 none) refl
