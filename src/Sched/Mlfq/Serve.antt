-- ===== src/Sched/Mlfq/Serve.antt =====
-- The serving of a queue in the MLFQ branch of `scheduler()` in kernel/proc.c, up to the point where
-- the process has given the CPU back and its queue has been shifted.
pub mod Release
use modified_riscv.Base.{
  ℕ, ◌+◌, ◌-◌, ◌^◌, ◌||◌, Bool, true, false, ◌&&◌, Option, none, some, List, leb, ltb, ◌==◌, not,
  if◌then◌else◌, update, get_elem?, set, ◌>>=◌,
}
use modified_riscv.Base.Int.{ℤ, pos, ◌+ℤ◌}
use modified_riscv.Proc.{Proc, is_runnable, running, nproc}
use modified_riscv.Sched.Scan.{acquire, release}
use modified_riscv.Sched.Mlfq.{Queue, shift}
use modified_riscv.Sched.Mlfq.Ageing.{Mlfq, push}

-- ticks_allowed[5]
abbrev pub ticks_allowed : ℕ → ℕ
ticks_allowed level = 2 ^ level

-- before the switch: st_time, state and numOfScheduled
abbrev pub schedule : ℕ → Proc → Proc
schedule ticks p = record p {
  st_time = ticks;
  state = running;
  num_of_scheduled = p.num_of_scheduled + 1;
}

-- After the switch in queues 0 .. 3: a process that has used up its ticks goes one queue down, unless
-- it was killed (queue 3 does not ask). It then leaves its queue, whether or not it was put anywhere.
pub demotes : ℕ → Proc → Bool
demotes level p = leb (ticks_allowed level) (p.num_of_ticks level) && (level == 3 || not p.killed)

pub requeue : ℕ → ℕ → Proc → (ℕ → Queue) → Option (ℕ → Queue)
unfolding demotes push
requeue level b p queue =
    if demotes level p
    then (push (some b) (queue (level + 1)) >>= λ lower. some (update queue (level + 1) lower))
    else some queue

-- for(int j=i;j<=queueN_ptr;j++) queueN[j]=queueN[j+1]; queueN_ptr--; for a queue that still has an
-- entry.
abbrev pub drop_entry : ℕ → Queue → Queue
drop_entry i q = record { slot = shift i (q.len - i) q.slot; len = q.len - 1 }

-- The process after it has been served.
abbrev pub served : ℕ → Proc → Proc
served level p = record p {
  curr_queue = if demotes level p then p.curr_queue +ℤ pos 1 else p.curr_queue;
  num_of_ticks = update p.num_of_ticks level 0;
}

-- The locks that this CPU holds, by the index of the process, beside the queues.
pub record Served : Type 0 where
  pub mlfq : Mlfq
  pub held : ℕ → Bool

-- The table and the queues when the process `b` has given the CPU back. `swtch` is what happens to them
-- in between: a process that forks, for one, puts an entry into a queue.
abbrev pub switched : (ℕ → Mlfq → Mlfq) → ℕ → ℕ → Proc → Mlfq → Mlfq
switched swtch ticks b p m = swtch b (record m { table = set m.table b (schedule ticks p) })

-- The turn of the process `b` at index `i`: the switch, the new queues and what becomes of it.
pub run_entry : (ℕ → Mlfq → Mlfq) → ℕ → ℕ → ℕ → ℕ → Proc → (ℕ → Bool) → Mlfq → Option Served
unfolding requeue
run_entry swtch ticks level i b p held m =
    let after = switched swtch ticks b p m in
    get_elem? after.table b >>= λ p'. requeue level b p' after.queue >>= λ queue. some (record {
      mlfq = record {
        table = set after.table b (served level p');
        queue = update queue level (drop_entry i (queue level));
      };
      held = held;
    })

-- The turn is taken only by a runnable process.
pub run_if_ready : (ℕ → Mlfq → Mlfq) → ℕ → ℕ → ℕ → ℕ → Proc → (ℕ → Bool) → Mlfq → Option Served
unfolding run_entry
run_if_ready swtch ticks level i b p held m =
    if is_runnable p
    then run_entry swtch ticks level i b p held m
    else some (record { mlfq = m; held = held })

-- release(&queueN[i]->lock)
pub release_slot : ℕ → ℕ → Served → Option Served
unfolding release
release_slot level i s = do
  c ← (s.mlfq.queue level).slot i
  held ← release c s.held
  some (record s { held = held })

-- The body of the loop over `queueN` for N below 4, at index `i`; `c->proc` is set around the switch and
-- null otherwise.
pub serve_body : (ℕ → Mlfq → Mlfq) → ℕ → ℕ → ℕ → Served → Option Served
unfolding acquire run_if_ready release_slot
serve_body swtch ticks level i s = do
  b ← (s.mlfq.queue level).slot i
  held ← acquire b s.held
  p ← get_elem? s.mlfq.table b
  s' ← run_if_ready swtch ticks level i b p held s.mlfq
  release_slot level i s'
