-- ===== src/Lifecycle/Alloc.antt =====
-- kernel/proc.c: `allocpid`, `allocproc` and `freeproc`.
pub mod Entry
pub mod Leaks
use modified_riscv.Base.{
  ℕ, ◌+◌, Bool, true, false, Option, none, some, List, [], ◌∷◌, ◌==◌, if◌then◌else◌, update, set,
  ◌>>=◌,
}
use modified_riscv.Base.Int.{pos}
use modified_riscv.Proc.{Proc, is_state, unused, used}
use modified_riscv.Kalloc.{pgsize}
use modified_riscv.Sched.Mlfq.{Queue}
use modified_riscv.Sched.Mlfq.Ageing.{push}
use modified_riscv.Lifecycle.Memory.{Memory}

-- The first UNUSED entry.
unfoldable pub find_unused : List Proc → ℕ → Option (ℕ × Proc)
find_unused [] i = none
find_unused (p ∷ ps) i = if is_state p.state unused then some (i, p) else find_unused ps (i + 1)

-- A new process before its pages are allocated.
unfoldable pub init_entry : ℕ → ℕ → Proc → Proc
init_entry pid ticks p = record p {
  pid = pid;
  state = used;
  creation_time = ticks;
  st_time = 0;
  stat_pr = pos 60;
  run_time = 0;
  sleep_time = 0;
  num_of_scheduled = 0;
  tickets = pos 1;
  curr_queue = pos 0;
  num_of_ticks = update (update (update (update (update p.num_of_ticks 0 0) 1 0) 2 0) 3 0) 4 0;
  wait_time = 3;
}

-- memset(&p->context, ...) and the two registers that are set
abbrev pub with_context : ℕ → Proc → Proc
with_context forkret p = record p {
  context_ra = forkret;
  context_sp = p.kstack + pgsize;
  context_saved = λ _. 0;
}

module _ (memory : Memory) where
  open memory use {Mem, kalloc, kfree, proc_pagetable, proc_freepagetable}

  -- The kernel's state that these functions read or change.
  pub record Kernel : Type 0 where
    pub table : List Proc
    pub nextpid : ℕ
    pub ticks : ℕ
    pub queue0 : Queue
    pub mem : Mem

  -- if(p->trapframe_copy) kfree(...), and if(p->pagetable) proc_freepagetable(...)
  abbrev pub free_copy : Proc → Mem → Option Mem
  free_copy p m = if p.trapframe_copy == 0 then some m else kfree p.trapframe_copy m

  abbrev pub free_table : Proc → Mem → Option Mem
  free_table p m = if p.pagetable == 0 then some m else proc_freepagetable p.pagetable p.sz m

  abbrev pub cleared : Proc → Proc
  cleared p = record p {
    trapframe = 0;
    pagetable = 0;
    sz = 0;
    pid = 0;
    parent = none;
    name = [];
    chan = 0;
    killed = false;
    xstate = pos 0;
    state = unused;
  }

  unfoldable pub freeproc : Proc → Mem → Option (Proc × Mem)
  freeproc p m = do m1 ← free_copy p m; m2 ← free_table p m1; some (cleared p, m2)

  -- The failing ends of `allocproc`: the entry at `i` is freed.
  abbrev pub give_up : ℕ → Proc → Kernel → Option (Option ℕ × Kernel)
  give_up i p k =
      freeproc p k.mem >>= λ r. some (none, record k { table = set k.table i r.0; mem = r.1 })

  -- The last allocation. Where it fails the entry stays as it is.
  unfoldable pub finish_entry : ℕ → Proc → Kernel → Option ℕ × Kernel
  finish_entry i p k =
      let (copy, m) = kalloc k.mem in
      if copy == 0
      then (none, record k { table = set k.table i (record p { trapframe_copy = 0 }); mem = m })
      else (
        some i,
        record k {
          table = set k.table i (record p {
            trapframe_copy = copy;
            is_sigalarm = false;
            tickss = pos 0;
            now_ticks = 0;
            handler = 0;
          });
          mem = m;
        },
      )

  -- The trapframe, the page table, the context and the rest.
  unfoldable pub fill_entry : ℕ → ℕ → Proc → Kernel → Option (Option ℕ × Kernel)
  unfolding finish_entry
  fill_entry forkret i p k =
      let (frame, m1) = kalloc k.mem in
      let p1 = record p { trapframe = frame } in
      let (table, m2) = proc_pagetable frame m1 in
      let p2 = record p1 { pagetable = table } in
      if frame == 0
      then give_up i p1 (record k { mem = m1 })
      else if table == 0
      then give_up i p2 (record k { mem = m2 })
      else some (finish_entry i (with_context forkret p2) (record k { mem = m2 }))

  -- From `found:` on, or the end of the loop.
  unfoldable pub alloc_found : ℕ → Kernel → Option (ℕ × Proc) → Option (Option ℕ × Kernel)
  unfolding init_entry fill_entry
  alloc_found forkret k none = some (none, k)
  alloc_found forkret k (some (i, p)) = push (some i) k.queue0 >>= λ queue0.
      fill_entry forkret i (init_entry k.nextpid k.ticks p)
        (record k { nextpid = k.nextpid + 1; queue0 = queue0 })

  -- `forkret` is the address of that function. The result is the entry's index, or null.
  pub allocproc : ℕ → Kernel → Option (Option ℕ × Kernel)
  unfolding find_unused alloc_found
  allocproc forkret k = alloc_found forkret k (find_unused k.table 0)
