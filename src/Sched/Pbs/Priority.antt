-- ===== src/Sched/Pbs/Priority.antt =====
-- The dynamic priority of PBS: its range, and the values that C's integer division leaves to the
-- niceness.
use modified_riscv.Base.{ℕ, ◌+◌, ◌/◌, ◌<◌, ◌≡◌, arith, ltb, ◌==◌, if◌then◌else◌}
use modified_riscv.Base.Int.{pos, ◌≤ℤ◌, pos_part}
use modified_riscv.Proc.{Proc}
use modified_riscv.Sched.Pbs.{niceness, dynamic_priority}

-- The dynamic priority lies between 0 and 100, whatever the static priority.
pub dynamic_priority_bounds :
    (p : Proc) → (pos 0 ≤ℤ dynamic_priority p) × (dynamic_priority p ≤ℤ pos 100)
unfolding dynamic_priority
dynamic_priority_bounds p = ground arith

pub dynamic_priority-pos : (p : Proc) → dynamic_priority p ≡ pos (pos_part (dynamic_priority p))
unfolding dynamic_priority
dynamic_priority-pos p = ground arith

share_zero : (s r : ℕ) → 0 < r → s / (s + r) ≡ 0
share_zero s r h = grind arith

share_one : (s : ℕ) → 0 < s → s / s ≡ 1
share_one s h = grind arith

-- The niceness, in full: 5 for a process that was never scheduled or has no ticks since; otherwise 0
-- as soon as it has run for one tick, and 10 if it has only slept.
pub niceness_lem :
    (p : Proc)
    → niceness p ≡ (
        if p.num_of_scheduled == 0
        then 5
        else if ltb 0 p.run_time
        then 0
        else if p.sleep_time == 0
        then 5
        else 10)
unfolding niceness
niceness_lem p = ground (arith, share_zero p.sleep_time p.run_time, share_one p.sleep_time)
