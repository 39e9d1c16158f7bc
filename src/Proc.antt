-- ===== src/Proc.antt =====
-- kernel/proc.h: the process table. `struct proc` is the record `Proc`, the array `proc[NPROC]` is a
-- list, and a pointer to an entry is its index. `p->lock` and `wait_lock` are held over the parts
-- of the code that the functions below model, so that each is one atomic step.
use modified_riscv.Base.{ℕ, Bool, true, false, Option, List, get_elem?, set}
use modified_riscv.Base.{none, some, ◌≡◌, [], ◌≢◌, Option-cases, get_elem?-set_ne, inl, inr, arith}
use modified_riscv.Base.Int.{ℤ, pos}

-- enum procstate
pub data ProcState : Type 0 where
  unused used sleeping runnable running zombie : ProcState

-- The saved user registers of `struct trapframe` that the kernel reads or writes by name, and the
-- general registers that it only copies.
pub record Trapframe : Type 0 where
  pub kernel_satp : ℕ
  pub kernel_sp : ℕ
  pub kernel_trap : ℕ
  pub epc : ℕ
  pub kernel_hartid : ℕ
  pub sp : ℕ
  pub a0 : ℕ
  pub regs : ℕ → ℕ

-- struct proc, without its lock. `context_saved` holds s0 .. s11, and `name` is the text up to its
-- null byte. A null pointer is 0, and `parent` is the index of an entry.
pub record Proc : Type 0 where
  pub creation_time : ℕ
  pub state : ProcState
  pub chan : ℕ
  pub killed : Bool
  pub xstate : ℤ
  pub pid : ℕ
  pub parent : Option ℕ
  pub kstack : ℕ
  pub sz : ℕ
  pub pagetable : ℕ
  pub trapframe : ℕ
  pub context_ra : ℕ
  pub context_sp : ℕ
  pub context_saved : ℕ → ℕ
  pub ofile : ℕ → ℕ
  pub cwd : ℕ
  pub name : List ℕ
  pub mask : ℕ
  pub stat_pr : ℤ
  pub sleep_time : ℕ
  pub st_time : ℕ
  pub run_time : ℕ
  pub num_of_scheduled : ℕ
  pub tickets : ℤ
  pub num_of_ticks : ℕ → ℕ
  pub curr_queue : ℤ
  pub wait_time : ℕ
  pub end_time : ℕ
  pub tot_run_time : ℕ
  pub handler : ℕ
  pub tickss : ℤ
  pub now_ticks : ℕ
  pub trapframe_copy : ℕ
  pub is_sigalarm : Bool

-- p->state == s
abbrev pub is_state : ProcState → ProcState → Bool
is_state unused unused = true
is_state used used = true
is_state sleeping sleeping = true
is_state runnable runnable = true
is_state running running = true
is_state zombie zombie = true
is_state _ _ = false

abbrev pub is_runnable : Proc → Bool
is_runnable p = is_state p.state runnable

-- NPROC of kernel/param.h
abbrev pub nproc : ℕ
nproc = 64

-- A change of the entry that a pointer names.
unfoldable pub modify {ℓ} : {A : Type ℓ} → ℕ → (A → A) → List A → List A
modify i f ps = elim (get_elem? ps i) [ none ↦ ps | some p ↦ set ps i (f p) ]

pub modify-eq-set {ℓ} :
    {A : Type ℓ} (i : ℕ) (f : A → A) (ps : List A) (p : A)
    → get_elem? ps i ≡ some p
    → modify i f ps ≡ set ps i (f p)
unfolding modify
modify-eq-set i f ps p h = rw (h, modify)

-- A process table entry as the zeroed memory of the kernel has it.
abbrev pub blank : Proc
blank = record {
  creation_time = 0;
  state = unused;
  chan = 0;
  killed = false;
  xstate = pos 0;
  pid = 0;
  parent = none;
  kstack = 0;
  sz = 0;
  pagetable = 0;
  trapframe = 0;
  context_ra = 0;
  context_sp = 0;
  context_saved = λ _. 0;
  ofile = λ _. 0;
  cwd = 0;
  name = [];
  mask = 0;
  stat_pr = pos 0;
  sleep_time = 0;
  st_time = 0;
  run_time = 0;
  num_of_scheduled = 0;
  tickets = pos 0;
  num_of_ticks = λ _. 0;
  curr_queue = pos 0;
  wait_time = 0;
  end_time = 0;
  tot_run_time = 0;
  handler = 0;
  tickss = pos 0;
  now_ticks = 0;
  trapframe_copy = 0;
  is_sigalarm = false;
}

pub modify-ne {ℓ} :
    {A : Type ℓ} (i j : ℕ) (f : A → A) (ps : List A)
    → i ≢ j
    → get_elem? (modify i f ps) j ≡ get_elem? ps j
unfolding modify
modify-ne i j f ps ne = elim (Option-cases (get_elem? ps i)) [
  | inl e ↦ rw (e, modify)
  | inr (p, e) ↦ rw (e, modify) (get_elem?-set_ne ps i j (f p) ne)
]

pub is_state-eq : (s t : ProcState) → is_state s t ≡ true → s ≡ t
is_state-eq s t h = ground arith
