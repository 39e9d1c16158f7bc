-- ===== src/Lifecycle/Tests.antt =====
-- A small process table over a list of free pages, and the theorems at these inputs.
use modified_riscv.Base.{
  ℕ, zero, suc, ◌+◌, ◌<◌, ◌≡◌, ◌≢◌, refl, true, false, Option, none, some, List, [], ◌∷◌, arith,
  Allows, get_elem?, ap, sym,
}
use modified_riscv.Base.Int.{pos}
use modified_riscv.Proc.{Proc, ProcState, Trapframe, blank, unused, running, sleeping, zombie}
use modified_riscv.Kalloc.{Kmem}
use modified_riscv.Sched.Mlfq.{Queue}
use modified_riscv.Lifecycle.Memory.{Memory}
use modified_riscv.Lifecycle.Alloc.{Kernel, allocproc, find_unused}
use modified_riscv.Lifecycle.Alloc.Entry.{IsNumbered, allocproc-IsNumbered}
use modified_riscv.Lifecycle.Alloc.Leaks.{CanStart}
use modified_riscv.Lifecycle.Wakeup.States.{kills, happen, Follows, happen-Follows}
use modified_riscv.Lifecycle.Alarm.{rr, User, timer, sys_sigreturn, system_call}
use modified_riscv.Lifecycle.Alarm.Return.{SameUser, SameKernel, sigreturn-timer}

-- The memory is the list of its free pages.
abbrev take_page : List ℕ → ℕ × List ℕ
take_page [] = (0, [])
take_page (x ∷ xs) = (x, xs)

abbrev page_list : Memory
page_list = record {
  Mem = List ℕ;
  kalloc = take_page;
  kfree = λ x xs. some (x ∷ xs);
  proc_pagetable = λ frame xs. take_page xs;
  proc_freepagetable = λ table sz xs. some (table ∷ xs);
}

abbrev parent : Proc
parent = record blank { pid = 1; state = running }

abbrev child : Proc
child = record blank { pid = 2; state = zombie; parent = some 0; pagetable = 4096 }

abbrev sleeper : Proc
sleeper = record blank { pid = 3; state = sleeping; stat_pr = pos 60 }

abbrev table : List Proc
table = parent ∷ child ∷ sleeper ∷ blank ∷ []

abbrev queue_of : ℕ → Queue
queue_of n = record { slot = λ _. none; len = n }

abbrev kernel : ℕ → List ℕ → Kernel page_list
kernel n pages = record { table = table; nextpid = 4; ticks = 17; queue0 = queue_of n; mem = pages }

pid_or : Option Proc → ℕ
pid_or none = 0
pid_or (some p) = p.pid

state_or : Option Proc → ProcState
state_or none = unused
state_or (some p) = p.state

-- The pids of `table`.
pids :
    (i : ℕ) (p : Proc) → get_elem? table i ≡ some p → p.state ≢ unused → (i < 3) × (p.pid ≡ i + 1)
unfolding pid_or state_or
pids zero p e live = (omega arith, sym (ap pid_or e))
pids (suc zero) p e live = (omega arith, sym (ap pid_or e))
pids (suc (suc zero)) p e live = (omega arith, sym (ap pid_or e))
pids (suc (suc (suc zero))) p e live = absurd (live (sym (ap state_or e)))
pids (suc (suc (suc (suc i)))) p e live = cc

table-IsNumbered : IsNumbered table 4
table-IsNumbered = record {
  below = λ i p e live. let (small, pid) = pids i p e live in omega arith;
  distinct = λ i j p q e f live live' same.
      let (small, pid) = pids i p e live in let (small', pid') = pids j q f live' in omega arith;
}

allocproc-IsNumbered_example :
    Allows
      (allocproc page_list 9 (kernel 3 (1 ∷ 2 ∷ 3 ∷ [])))
      (λ r. IsNumbered r.1.table r.1.nextpid)
allocproc-IsNumbered_example =
    allocproc-IsNumbered page_list 9 (kernel 3 (1 ∷ 2 ∷ 3 ∷ [])) table-IsNumbered

-- With three pages or two, the entry at 3 can be set up.
can_start :
    (x y : ℕ) (rest : List ℕ)
    → x ≢ 0
    → y ≢ 0
    → CanStart page_list 9 3 blank (kernel 3 (x ∷ y ∷ rest))
unfolding find_unused
can_start x y rest ne ne' = record { found = refl; room = omega arith; frame = ne; table = ne' }

abbrev dying : Proc
dying = record blank { trapframe_copy = 8192 }

abbrev no_free : Kmem
no_free = record { freelist = 0; mem = λ _. 0 }

-- A kill wakes the sleeper.
happen-Follows_example : Follows sleeper (get_elem? (happen (kills 3) table) 2)
happen-Follows_example = happen-Follows (kills 3) table 2 sleeper tt refl

abbrev registers : ℕ → Trapframe
registers pc = record {
  kernel_satp = 1;
  kernel_sp = 2;
  kernel_trap = 3;
  epc = pc;
  kernel_hartid = 0;
  sp = 5;
  a0 = 6;
  regs = λ r. r + pc;
}

abbrev user : User
user = record {
  entry = record parent { tickss = pos 2; now_ticks = 1; handler = 100 };
  frame = registers 40;
  copy = registers 0;
}

abbrev back : User
back = system_call sys_sigreturn 0 (record (timer rr user) { frame = registers 108 })

sigreturn-timer_example :
    ((timer rr user).frame.epc ≡ 100)
    × ((timer rr user).entry.is_sigalarm ≡ true)
    × SameUser back.frame (registers 40)
    × SameKernel back.frame (registers 108)
    × (back.frame.a0 ≡ 0)
    × (back.entry.is_sigalarm ≡ false)
sigreturn-timer_example = sigreturn-timer rr user (registers 108) refl refl
