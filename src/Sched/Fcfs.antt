-- ===== src/Sched/Fcfs.antt =====
-- The FCFS branch of `scheduler()` in kernel/proc.c (`#ifdef FCFS`): one pass of its endless loop.
pub mod Correct
use modified_riscv.Base.{
  ℕ, ◌+◌, Bool, true, false, ◌&&◌, Option, none, some, List, [], ◌∷◌, ltb, if◌then◌else◌, length,
  get_elem?, ◌>>=◌,
}
use modified_riscv.Proc.{Proc, is_runnable, running, modify}
use modified_riscv.Sched.Scan.{Scan, acquire, release, settle, no_locks}

-- startProcess == 0 || newProcess->creationTime < startProcess->creationTime
abbrev pub older : Proc → Option (ℕ × Proc) → Bool
older p none = true
older p (some (b, q)) = ltb p.creation_time q.creation_time

-- the body of the `for` loop
pub body : ℕ → Proc → Scan → Option Scan
body i p s = do
  held ← acquire i s.held
  settle (is_runnable p && older p s.best) i p (record s { held = held })

pub scan : List Proc → ℕ → Scan → Option Scan
unfolding body
scan [] i s = some s
scan (p ∷ ps) i s = body i p s >>= λ s'. scan ps (i + 1) s'

-- The machine at `swtch`: the table, `c->proc`, the locks, and how often `numOfScheduled++` went to
-- the entry past the end of the table.
pub record Dispatch : Type 0 where
  pub table : List Proc
  pub running_proc : Option ℕ
  pub held : ℕ → Bool
  pub stray_writes : ℕ

abbrev pub bump_scheduled : Proc → Proc
bump_scheduled p = record p { num_of_scheduled = p.num_of_scheduled + 1 }

abbrev pub set_running : Proc → Proc
set_running p = record p { state = running }

-- `newProcess->numOfScheduled++` after the loop, where `newProcess` has become `n`.
pub bump_at : ℕ → Dispatch → Dispatch
bump_at n d = elim (get_elem? d.table n) [
  | none ↦ record d { stray_writes = d.stray_writes + 1 }
  | some p ↦ record d { table = modify n bump_scheduled d.table }
]

-- if(startProcess) { ... } up to the switch
pub dispatch : List Proc → Scan → Dispatch
dispatch ps s = elim s.best [
  | none ↦ record { table = ps; running_proc = none; held = s.held; stray_writes = 0 }
  | some (b, q) ↦ bump_at (length ps) (record {
    table = modify b set_running ps;
    running_proc = some b;
    held = s.held;
    stray_writes = 0;
  })
]

-- The scan and the switch.
pub pick : List Proc → Option Dispatch
unfolding scan dispatch
pick ps = do s ← scan ps 0 no_locks; some (dispatch ps s)

-- The whole pass. `swtch` is what the process does to the table until it gives the CPU back; then
-- its lock is released.
pub finish : (ℕ → List Proc → List Proc) → Dispatch → Option ℕ → Option Dispatch
unfolding release
finish swtch d none = some d
finish swtch d (some b) = do
  held ← release b d.held
  some (record d { table = swtch b d.table; running_proc = none; held = held })

pub round : (ℕ → List Proc → List Proc) → List Proc → Option Dispatch
unfolding pick finish
round swtch ps = do d ← pick ps; finish swtch d d.running_proc
