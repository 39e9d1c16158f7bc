-- ===== src/Sleeplock.antt =====
-- kernel/sleeplock.c. A part of a function between two sleeps is one atomic step under `lk->lk`.
pub mod Exclusion
mod Tests
use modified_riscv.Base.{
  ℕ, ◌≡◌, Bool, true, false, ◌&&◌, Option, none, some, ◌==◌, if◌then◌else◌, update,
}

-- struct sleeplock, without its spinlock and its name
pub record Sleeplock : Type 0 where
  pub locked : Bool
  pub pid : ℕ

abbrev pub initsleeplock : Sleeplock
initsleeplock = record { locked = false; pid = 0 }

-- A round of `acquiresleep` by the process with this pid: nothing where it sleeps.
unfoldable pub acquiresleep : ℕ → Sleeplock → Option Sleeplock
acquiresleep me lk = if lk.locked then none else some (record { locked = true; pid = me })

abbrev pub releasesleep : Sleeplock → Sleeplock
releasesleep lk = record { locked = false; pid = 0 }

abbrev pub holdingsleep : ℕ → Sleeplock → Bool
holdingsleep me lk = lk.locked && lk.pid == me

-- Where a process is: `asleep` is on the channel of the lock.
pub data Phase : Type 0 where
  outside : Phase
  trying : Phase
  asleep : Phase
  inside : Phase

pub record System : Type 0 where
  pub lock : Sleeplock
  pub phase : ℕ → Phase

-- wakeup(lk)
abbrev pub wake : Phase → Phase
wake outside = outside
wake trying = trying
wake asleep = trying
wake inside = inside

abbrev pub start : System
start = record { lock = initsleeplock; phase = λ _. outside }

module _ (pid_of : ℕ → ℕ) where
  pub data Step : System → System → Type 0 where
    calls :
        (s : System) (i : ℕ)
        → s.phase i ≡ outside
        → Step s (record s { phase = update s.phase i trying })
    waits :
        (s : System) (i : ℕ)
        → s.phase i ≡ trying
        → acquiresleep (pid_of i) s.lock ≡ none
        → Step s (record s { phase = update s.phase i asleep })
    enters :
        (s : System) (i : ℕ) (lk : Sleeplock)
        → s.phase i ≡ trying
        → acquiresleep (pid_of i) s.lock ≡ some lk
        → Step s (record { lock = lk; phase = update s.phase i inside })
    leaves :
        (s : System) (i : ℕ)
        → s.phase i ≡ inside
        → Step s
            (record { lock = releasesleep s.lock; phase = λ j. wake (update s.phase i outside j) })
    -- A process is made runnable by `kill` too.
    killed :
        (s : System) (i : ℕ)
        → s.phase i ≡ asleep
        → Step s (record s { phase = update s.phase i trying })

  pub data Reached : System → Type 0 where
    begin : Reached start
    then_step : {s t : System} → Reached s → Step s t → Reached t
