-- ===== src/Sched/Select.antt =====
-- What a scheduler that picks one process by rank promises, and the plain loop that does so.
-- A rank is a pair, compared lexicographically.
use modified_riscv.Base.{
  ℕ, ◌+◌, ◌<◌, ◌≡◌, Bool, true, false, ◌&&◌, ◌||◌, Option, none, some, List, [], ◌∷◌, ltb, ◌==◌,
  if◌then◌else◌, get_elem?,
}
use modified_riscv.Proc.{Proc, is_runnable}

abbrev pub Rank : Type 0
Rank = ℕ × ℕ

abbrev pub before : Rank → Rank → Bool
before (a, b) (c, d) = ltb a c || (a == c && ltb b d)

module _ (rank : Proc → Rank) where
  -- Whether a runnable process takes the place of the best one so far.
  abbrev pub improves : Proc → Option (ℕ × Proc) → Bool
  improves p none = true
  improves p (some (i, q)) = before (rank p) (rank q)

  abbrev pub choose : ℕ → Proc → Option (ℕ × Proc) → Option (ℕ × Proc)
  choose i p best = if is_runnable p && improves p best then some (i, p) else best

  unfoldable pub select : List Proc → ℕ → Option (ℕ × Proc) → Option (ℕ × Proc)
  select [] i best = best
  select (p ∷ ps) i best = select ps (i + 1) (choose i p best)

  -- The choice `c` among the processes `ps`, of which the first has index `i`: a runnable one of the
  -- least rank, and the first of those; or none, where none is runnable.
  abbrev pub IsChoice : List Proc → ℕ → Option (ℕ × Proc) → Type 0
  IsChoice ps i none = (k : ℕ) (q : Proc) → get_elem? ps k ≡ some q → is_runnable q ≡ false
  IsChoice ps i (some (j, p)) = record {
    there : (k : ℕ) × (j ≡ i + k) × (get_elem? ps k ≡ some p);
    ready : is_runnable p ≡ true;
    least :
        (k : ℕ) (q : Proc)
        → get_elem? ps k ≡ some q
        → is_runnable q ≡ true
        → before (rank q) (rank p) ≡ false;
    first :
        (k : ℕ) (q : Proc)
        → get_elem? ps k ≡ some q
        → is_runnable q ≡ true
        → i + k < j
        → before (rank p) (rank q) ≡ true;
  }
