-- ===== src/Lifecycle/Alarm.antt =====
-- The user alarms: the timer branch of `usertrap` (kernel/trap.c), `sys_sigalarm` (kernel/proc.c),
-- `restore` and `sys_sigreturn` (kernel/sysproc.c), and what `usertrap` and `syscall`
-- (kernel/syscall.c) do around a system call.
pub mod Return
pub mod Fires
use modified_riscv.Base.{ℕ, ◌+◌, Bool, true, false, ◌&&◌, not, List, [], ◌∷◌, if◌then◌else◌}
use modified_riscv.Base.Int.{ℤ, pos, ltb_ℤ}
use modified_riscv.Proc.{Proc, Trapframe}

-- The caller of a trap: its entry, and the pages `p->trapframe` and `p->trapframe_copy` point at.
pub record User : Type 0 where
  pub entry : Proc
  pub frame : Trapframe
  pub copy : Trapframe

-- p->tickss>0 && p->now_ticks>=p->tickss && !p->is_sigalarm
abbrev pub is_due : Proc → Bool
is_due p = ltb_ℤ (pos 0) p.tickss && not (ltb_ℤ (pos p.now_ticks) p.tickss) && not p.is_sigalarm

abbrev pub fire : User → User
fire u = record {
  entry = record (u.entry) { now_ticks = 0; is_sigalarm = true };
  frame = record (u.frame) { epc = u.entry.handler };
  copy = u.frame;
}

abbrev pub count_tick : User → User
count_tick u = record u { entry = record (u.entry) { now_ticks = u.entry.now_ticks + 1 } }

-- SCHEDULER of the Makefile, as the macro that the build defines.
pub data Scheduler : Type 0 where
  rr fcfs pbs lbs mlfq : Scheduler

-- defined RR || defined LBS || defined MLFQ
abbrev pub preempts : Scheduler → Bool
preempts rr = true
preempts fcfs = false
preempts pbs = false
preempts lbs = true
preempts mlfq = true

-- A timer interrupt of a user program (`which_dev == 2`), up to the `yield`.
unfoldable pub timer : Scheduler → User → User
timer build u =
    let counted = count_tick u in
    if preempts build then (if is_due counted.entry then fire counted else counted) else u

-- Timer interrupts, each with the registers that the user program has come to.
unfoldable pub timers : Scheduler → List Trapframe → User → User
timers build [] u = u
timers build (f ∷ fs) u = timers build fs (timer build (record u { frame = f }))

abbrev pub sys_sigalarm : ℤ → ℕ → User → User
sys_sigalarm ticks handler u = record u {
  entry = record (u.entry) {
    is_sigalarm = false;
    tickss = ticks;
    now_ticks = 0;
    handler = handler;
  };
}

-- The saved registers go back, with the kernel's own fields of the present trap.
unfoldable pub restore : User → User
restore u =
    let saved = record (u.copy) {
      kernel_satp = u.frame.kernel_satp;
      kernel_sp = u.frame.kernel_sp;
      kernel_trap = u.frame.kernel_trap;
      kernel_hartid = u.frame.kernel_hartid;
    } in
    record u { frame = saved; copy = saved }

unfoldable pub sys_sigreturn : User → User
unfolding restore
sys_sigreturn u =
    let restored = restore u in
    record restored { entry = record (restored.entry) { is_sigalarm = false } }

-- A system call: `usertrap` steps past the `ecall`, and `syscall` stores the result in a0.
unfoldable pub system_call : (User → User) → ℕ → User → User
system_call body result u =
    let stepped = record u { frame = record (u.frame) { epc = u.frame.epc + 4 } } in
    let after = body stepped in record after { frame = record (after.frame) { a0 = result } }
