-- ===== src/Lifecycle/Wait.antt =====
-- kernel/proc.c: one pass of the loops of `wait` and `waitx`, and `sys_waitx` of kernel/sysproc.c.
pub mod Reaps
use modified_riscv.Base.{
  ℕ, ◌+◌, ◌-◌, ◌%◌, ◌^◌, Bool, true, false, ◌&&◌, ◌||◌, not, Option, none, some, List, [], ◌∷◌,
  ◌==◌, if◌then◌else◌, set, ◌>>=◌,
}
use modified_riscv.Proc.{Proc, is_state, zombie}
use modified_riscv.Lifecycle.Memory.{Memory}
use modified_riscv.Lifecycle.Alloc.{freeproc}
use modified_riscv.Lifecycle.Wakeup.{is_child}

-- The scan for an exited child of `me`: the first one, if there is one, and `havekids` at the end.
unfoldable pub scan_children : ℕ → List Proc → ℕ → Bool → Option (ℕ × Proc) × Bool
scan_children me [] i havekids = (none, havekids)
scan_children me (p ∷ ps) i havekids =
    let rest = scan_children me ps (i + 1) (is_child me p || havekids) in
    if is_child me p && is_state p.state zombie then (some (i, p), true) else rest

-- How a pass ends: a result for the caller, or `sleep(p, &wait_lock)` and another pass.
pub data Pass (A : Type 0) : Type 0 where
  reaped : A → Pass A
  failed : Pass A
  sleeps : Pass A

-- p->end_time - (creationTime + tot_run_time), as it goes into a `uint`
abbrev pub wait_of : Proc → ℕ
wait_of p = (p.end_time + 2 ^ 32 - (p.creation_time + p.tot_run_time) % 2 ^ 32) % 2 ^ 32

module _ (memory : Memory) where
  open memory use {Mem}

  -- The child found is freed, unless the status cannot be copied out: `copies` is whether `addr` is
  -- null or `copyout` succeeds.
  unfoldable pub reap :
      {A : Type 0}
      → Bool
      → (Proc → A)
      → ℕ
      → Proc
      → List Proc
      → Mem
      → Option (Pass A × List Proc × Mem)
  reap copies result i p ps m =
      if copies
      then (freeproc memory p m >>= λ r. some (reaped (result p), set ps i r.0, r.1))
      else some (failed, ps, m)

  -- A pass, from the scan's result on. `killed` is the caller's flag.
  unfoldable pub wait_pass :
      {A : Type 0}
      → Bool
      → Bool
      → (Proc → A)
      → List Proc
      → Mem
      → Option (ℕ × Proc) × Bool
      → Option (Pass A × List Proc × Mem)
  unfolding reap
  wait_pass copies killed result ps m (some (i, p), havekids) = reap copies result i p ps m
  wait_pass copies killed result ps m (none, havekids) =
      if not havekids || killed then some (failed, ps, m) else some (sleeps, ps, m)

  -- `wait` returns the pid.
  pub wait : Bool → Bool → ℕ → List Proc → Mem → Option (Pass ℕ × List Proc × Mem)
  unfolding scan_children wait_pass
  wait copies killed me ps m =
      wait_pass copies killed (λ p. p.pid) ps m (scan_children me ps 0 false)

  -- `waitx` returns the pid, `*rtime` and `*wtime`.
  pub waitx : Bool → Bool → ℕ → List Proc → Mem → Option (Pass (ℕ × ℕ × ℕ) × List Proc × Mem)
  unfolding scan_children wait_pass
  waitx copies killed me ps m =
      wait_pass copies killed (λ p. (p.pid, p.tot_run_time, wait_of p)) ps m
        (scan_children me ps 0 false)

-- sys_waitx: `waitx(addr, &wtime, &rtime)` has its `rtime` go into the variable `wtime`, which is
-- copied to the user's first address, and its `wtime` into the one for the second.
abbrev pub sys_waitx_results : ℕ × ℕ × ℕ → ℕ × ℕ × ℕ
sys_waitx_results (pid, rtime, wtime) =
    let wtime_var = rtime in let rtime_var = wtime in (pid, wtime_var, rtime_var)
