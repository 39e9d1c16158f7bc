-- ===== src/Sched/Scan.antt =====
-- What the table scans of `scheduler()` in kernel/proc.c share: the locks of the processes that this
-- CPU holds, and the best process so far. `none` is a panic of `acquire` or `release`, or a read
-- through a null pointer.
use modified_riscv.Base.{
  ℕ, ◌+◌, ◌<◌, ◌≡◌, Bool, true, false, Option, none, some, ◌==◌, if◌then◌else◌, update, arith, refl,
  update_self, ◌>>=◌, Returns,
}
use modified_riscv.Proc.{Proc}

pub record Scan : Type 0 where
  pub held : ℕ → Bool
  pub best : Option (ℕ × Proc)

-- `acquire` panics if this CPU holds the lock, and `release` if it does not.
unfoldable pub acquire : ℕ → (ℕ → Bool) → Option (ℕ → Bool)
acquire i held = if held i then none else some (update held i true)

unfoldable pub release : ℕ → (ℕ → Bool) → Option (ℕ → Bool)
release i held = if held i then some (update held i false) else none

-- if(process) release(&process->lock);
unfoldable pub release_best : Option (ℕ × Proc) → (ℕ → Bool) → Option (ℕ → Bool)
unfolding release
release_best none held = some held
release_best (some (b, q)) held = release b held

-- The end of a round for the process at `i`, whose lock is held: it replaces the best one, or its
-- lock is released.
unfoldable pub settle : Bool → ℕ → Proc → Scan → Option Scan
unfolding release_best release
settle true i p s = do
  held ← release_best s.best s.held
  some (record { held = held; best = some (i, p) })
settle false i p s = do held ← release i s.held; some (record s { held = held })

-- The lock that the scan keeps: that of the best process.
abbrev pub is_best : Option (ℕ × Proc) → ℕ → Bool
is_best none j = false
is_best (some (b, q)) j = b == j

-- Exactly the best process's lock is held, and that process stands before index `i`.
pub record IsLocked (i : ℕ) (s : Scan) : Type 0 where
  pub only : (j : ℕ) → s.held j ≡ is_best s.best j
  pub below : (b : ℕ) (q : Proc) → s.best ≡ some (b, q) → b < i

abbrev pub settled : Bool → ℕ → Proc → Option (ℕ × Proc) → Option (ℕ × Proc)
settled takes i p best = if takes then some (i, p) else best

-- The state before the first round.
abbrev pub no_locks : Scan
no_locks = record { held = λ _. false; best = none }

pub empty-IsLocked : IsLocked 0 no_locks
empty-IsLocked = record { only = λ j. refl; below = λ b q e. cc }

next-free :
    (i : ℕ) (held : ℕ → Bool) (best : Option (ℕ × Proc))
    → held i ≡ is_best best i
    → ((b : ℕ) (q : Proc) → best ≡ some (b, q) → b < i)
    → held i ≡ false
next-free i held none only below = only
next-free i held (some (b, q)) only below = ground (arith, below b q refl)

-- The lock of the next process is free, so `acquire` takes it.
pub acquire-next :
    (i : ℕ) (s : Scan) → IsLocked i s → acquire i s.held ≡ some (update s.held i true)
unfolding acquire
acquire-next i s l = rw (next-free i s.held s.best (l.only i) l.below)

settle_parts :
    (takes : Bool) (i : ℕ) (p : Proc) (held : ℕ → Bool) (best : Option (ℕ × Proc))
    → IsLocked i (record { held = held; best = best })
    → Returns
        (settle takes i p (record { held = update held i true; best = best }))
        (λ s'. IsLocked (i + 1) s' × (s'.best ≡ settled takes i p best))
unfolding settle
settle_parts true i p held none l =
    (record { only = λ j. ground (arith, l.only j); below = λ b q e. ground arith }, refl)
settle_parts true i p held (some (b, q)) l =
    let holds : update held i true b ≡ true = ground (arith, l.only b) in
    let low : b < i = l.below b q refl in
    rw holds
      (record { only = λ j. ground (arith, l.only j); below = λ b' q' e. ground arith }, refl)
settle_parts false i p held best l = rw update_self (
  record {
    only = λ j. ground (arith, l.only j, l.only i, next-free i held best (l.only i) l.below);
    below = λ b q e. ground (arith, l.below b q e);
  },
  refl,
)

-- With that lock taken, the end of a round panics on neither branch and keeps `IsLocked`.
pub settle-IsLocked :
    (takes : Bool) (i : ℕ) (p : Proc) (s : Scan)
    → IsLocked i s
    → Returns
        (settle takes i p (record s { held = update s.held i true }))
        (λ s'. IsLocked (i + 1) s' × (s'.best ≡ settled takes i p s.best))
settle-IsLocked takes i p s l = settle_parts takes i p s.held s.best l
