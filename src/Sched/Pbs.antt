-- ===== src/Sched/Pbs.antt =====
-- The PBS branch of `scheduler()` in kernel/proc.c (`#ifdef PBS`): the scan of the process table by
-- dynamic priority, and the dispatch of the process that it finds.
pub mod Priority
pub mod Correct
use modified_riscv.Base.{
  ℕ, ◌+◌, ◌*◌, ◌/◌, Bool, true, false, ◌&&◌, ◌||◌, Option, none, some, List, [], ◌∷◌, ltb, ◌==◌,
  if◌then◌else◌, not, ◌>>=◌,
}
use modified_riscv.Base.Int.{ℤ, pos, ltb_ℤ, eqb_ℤ, ◌+ℤ◌, ◌-ℤ◌}
use modified_riscv.Proc.{Proc, is_runnable, running, modify}
use modified_riscv.Sched.Scan.{Scan, acquire, settle, no_locks}

-- the share of sleep in a process's time, in C's integer division
pub niceness : Proc → ℕ
niceness p =
    if ltb 0 p.num_of_scheduled && not (p.sleep_time + p.run_time == 0)
    then p.sleep_time / (p.sleep_time + p.run_time) * 10
    else 5

-- `processDp`: the static priority less the niceness plus 5, cut to 0 .. 100.
unfoldable pub dynamic_priority : Proc → ℤ
unfolding niceness
dynamic_priority p =
    let val = p.stat_pr -ℤ pos (niceness p) +ℤ pos 5 in
    let tmp = if ltb_ℤ val (pos 100) then val else pos 100 in
    if ltb_ℤ tmp (pos 0) then pos 0 else tmp

-- The state of the scan beside the locks: `process` is its `best`, and `dynamic_pr`.
pub record PbsScan : Type 0 where
  pub scan : Scan
  pub dynamic_pr : ℤ

-- `process->f`, a fault while `process` is null.
abbrev pub deref : Option (ℕ × Proc) → Option Proc
deref none = none
deref (some (b, q)) = some q

abbrev pub is_null : Option (ℕ × Proc) → Bool
is_null none = true
is_null (some _) = false

-- check_cond_1; `&&` reads `process` only if the priorities are equal.
pub check_cond_1 : ℤ → ℤ → Proc → Option (ℕ × Proc) → Option Bool
check_cond_1 dynamic_pr process_dp p process =
    if eqb_ℤ dynamic_pr process_dp
    then (deref process >>= λ q. some (ltb p.num_of_scheduled q.num_of_scheduled))
    else some false

-- check_cond_2
pub check_cond_2 : Bool → Proc → Option (ℕ × Proc) → Option Bool
check_cond_2 cond_1 p process =
    if cond_1
    then (deref process >>= λ q. some (ltb p.creation_time q.creation_time))
    else some false

-- Whether `p` takes the place of `process`.
pub takes : PbsScan → Proc → Option Bool
unfolding check_cond_1 check_cond_2
takes s p = do
  c1 ← check_cond_1 s.dynamic_pr (dynamic_priority p) p s.scan.best
  c2 ← check_cond_2 c1 p s.scan.best
  some (
      is_runnable p && (is_null s.scan.best || ltb_ℤ (dynamic_priority p) s.dynamic_pr || c1 || c2))

-- the body of the `for` loop
pub body : ℕ → Proc → PbsScan → Option PbsScan
unfolding takes
body i p s = do
  held ← acquire i s.scan.held
  t ← takes s p
  scan' ← settle t i p (record { held = held; best = s.scan.best })
  some (record { scan = scan'; dynamic_pr = if t then dynamic_priority p else s.dynamic_pr })

pub scan : List Proc → ℕ → PbsScan → Option PbsScan
unfolding body
scan [] i s = some s
scan (p ∷ ps) i s = body i p s >>= λ s'. scan ps (i + 1) s'

abbrev pub start : PbsScan
start = record { scan = no_locks; dynamic_pr = pos 999 }

-- The machine at `swtch`: the table, `c->proc` and the locks.
pub record Dispatch : Type 0 where
  pub table : List Proc
  pub running_proc : Option ℕ
  pub held : ℕ → Bool

-- the changes to the chosen process
abbrev pub schedule : ℕ → Proc → Proc
schedule ticks p = record p {
  run_time = 0;
  sleep_time = 0;
  num_of_scheduled = p.num_of_scheduled + 1;
  state = running;
  st_time = ticks;
}

-- if(process) { ... } up to the switch
pub dispatch : ℕ → List Proc → Scan → Dispatch
dispatch ticks ps s = elim s.best [
  | none ↦ record { table = ps; running_proc = none; held = s.held }
  | some (b, q) ↦ record {
    table = modify b (schedule ticks) ps;
    running_proc = some b;
    held = s.held;
  }
]

pub pick : ℕ → List Proc → Option Dispatch
unfolding scan dispatch
pick ticks ps = do s ← scan ps 0 start; some (dispatch ticks ps s.scan)
