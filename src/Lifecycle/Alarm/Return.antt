-- ===== src/Lifecycle/Alarm/Return.antt =====
-- What `sigreturn` gives back of the program that an alarm interrupted.
use modified_riscv.Base.{◌≡◌, refl, true, false}
use modified_riscv.Proc.{Trapframe}
use modified_riscv.Lifecycle.Alarm.{
  Scheduler, preempts, User, timer, count_tick, is_due, restore, sys_sigreturn, system_call,
}

-- The registers that the user program sees, but for a0.
abbrev pub SameUser : Trapframe → Trapframe → Type 0
SameUser f g = (f.epc ≡ g.epc) × (f.sp ≡ g.sp) × (f.regs ≡ g.regs)

-- The kernel's fields of a trapframe.
abbrev pub SameKernel : Trapframe → Trapframe → Type 0
SameKernel f g =
    (f.kernel_satp ≡ g.kernel_satp)
    × (f.kernel_sp ≡ g.kernel_sp)
    × (f.kernel_trap ≡ g.kernel_trap)
    × (f.kernel_hartid ≡ g.kernel_hartid)

-- In the builds RR, LBS and MLFQ, after an alarm has fired, the system call `sigreturn` brings
-- back the interrupted program's registers but for a0, which is 0, whatever the handler left in
-- them, keeps the kernel's fields of the trapframe, and lets alarms fire again.
pub sigreturn-timer :
    (build : Scheduler) (u : User) (left : Trapframe)
    → preempts build ≡ true
    → is_due (count_tick u).entry ≡ true
    → ((timer build u).frame.epc ≡ u.entry.handler)
      × ((timer build u).entry.is_sigalarm ≡ true)
      × SameUser
          (system_call sys_sigreturn 0 (record (timer build u) { frame = left })).frame
          u.frame
      × SameKernel
          (system_call sys_sigreturn 0 (record (timer build u) { frame = left })).frame
          left
      × ((system_call sys_sigreturn 0 (record (timer build u) { frame = left })).frame.a0 ≡ 0)
      × ((system_call sys_sigreturn 0 (record (timer build u) { frame = left })).entry.is_sigalarm
          ≡ false)
unfolding timer sys_sigreturn system_call restore
sigreturn-timer build u left on due =
    rw (on, due) (refl, refl, (refl, refl, refl), (refl, refl, refl, refl), refl, refl)
