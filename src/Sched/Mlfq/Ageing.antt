-- ===== src/Sched/Mlfq/Ageing.antt =====
-- The ageing of the MLFQ branch of `scheduler()` in kernel/proc.c: the four loops that move a process
-- that has waited up one queue. The loops for `queue1` .. `queue4` differ in the arrays alone.
pub mod Loses
pub mod Fuel
use modified_riscv.Base.{
  ℕ, zero, suc, ◌+◌, ◌-◌, ◌%◌, ◌^◌, Bool, true, false, ◌&&◌, Option, none, some, List, ltb, ◌==◌,
  if◌then◌else◌, update, get_elem?, set, ◌>>=◌,
}
use modified_riscv.Base.Int.{ℤ, pos, negsuc, ◌-ℤ◌}
use modified_riscv.Proc.{Proc, is_runnable, nproc}
use modified_riscv.Sched.Mlfq.{Queue, remove_from_queue}

-- The process table and `queue0` .. `queue4`, by their numbers.
pub record Mlfq : Type 0 where
  pub table : List Proc
  pub queue : ℕ → Queue

-- ticks - st_time > wait_time, in the unsigned arithmetic that `ticks` imposes
abbrev pub has_waited : ℕ → Proc → Bool
has_waited ticks p = ltb p.wait_time ((ticks + 2 ^ 32 - p.st_time) % 2 ^ 32)

-- p->num_of_ticks[cqueue] = 0; a fault outside the array of five.
pub clear_ticks : ℤ → Proc → Option Proc
clear_ticks (pos c) p =
    if ltb c 5 then some (record p { num_of_ticks = update p.num_of_ticks c 0 }) else none
clear_ticks (negsuc c) p = none

-- queueN_ptr++; queueN[queueN_ptr] = ptr; a fault past the end of the array.
unfoldable pub push : Option ℕ → Queue → Option Queue
push ptr q =
    if ltb q.len nproc
    then some (record { slot = update q.slot q.len ptr; len = q.len + 1 })
    else none

-- the changes to the process
pub promote : ℕ → Proc → Option Proc
unfolding clear_ticks
promote ticks p = do
  p' ← clear_ticks (p.curr_queue -ℤ pos 1) (record p { curr_queue = p.curr_queue -ℤ pos 1 })
  some (record p' { st_time = ticks })

-- The two queues: the entry goes to the upper one, `ptr` of the lower one falls, and then the process
-- is removed from what is left of it.
pub move_up : List Proc → ℕ → Option ℕ → ℕ → (ℕ → Queue) → Option (ℕ → Queue)
unfolding push
move_up table pid ptr level queue = do
  upper ← push ptr (queue (level - 1))
  lower ← remove_from_queue table pid (record (queue level) { len = (queue level).len - 1 })
  some (update (update queue (level - 1) upper) level lower)

-- the body of the loop over `queueN`, at index `i`
pub age_body : ℕ → ℕ → ℕ → Mlfq → Option Mlfq
unfolding promote move_up
age_body ticks level i m =
    let ptr = (m.queue level).slot i in
    ptr >>= λ b. get_elem? m.table b >>= λ p.
    if is_runnable p && has_waited ticks p
    then (promote ticks p >>= λ p'. move_up (set m.table b p') p.pid ptr level m.queue >>= λ queue'.
        some (record { table = set m.table b p'; queue = queue' }))
    else some m

-- for(int i=0; i<=queueN_ptr; i++), on fuel; the queue never grows, so its length is enough.
pub age_loop : ℕ → ℕ → ℕ → ℕ → Mlfq → Option Mlfq
unfolding age_body
age_loop ticks level zero i m = some m
age_loop ticks level (suc n) i m =
    let rest = age_body ticks level i m >>= λ m'. age_loop ticks level n (i + 1) m' in
    if ltb i (m.queue level).len then rest else some m

abbrev pub age_queue : ℕ → ℕ → Mlfq → Option Mlfq
age_queue ticks level m = age_loop ticks level (m.queue level).len 0 m

-- The four loops in turn.
pub age : ℕ → Mlfq → Option Mlfq
unfolding age_loop
age ticks m = do
  m1 ← age_queue ticks 1 m
  m2 ← age_queue ticks 2 m1
  m3 ← age_queue ticks 3 m2
  age_queue ticks 4 m3
