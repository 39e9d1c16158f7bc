-- ===== src/Sched/Tests.antt =====
-- Runs of the schedulers on small tables, and the theorems at these inputs.
use modified_riscv.Base.{
  ℕ, ◌+◌, ◌≡◌, refl, false, Option, none, some, List, [], ◌∷◌, arith, ltb, ◌==◌, if◌then◌else◌,
  zero, suc, Returns, update,
}
use modified_riscv.Base.Int.{pos}
use modified_riscv.Proc.{Proc, blank, runnable, sleeping}
use modified_riscv.Sched.Scan.{is_best}
use modified_riscv.Sched.Select.{select, IsChoice}
use modified_riscv.Sched.Fcfs
use modified_riscv.Sched.Pbs
use modified_riscv.Sched.Lottery
use modified_riscv.Sched.Mlfq
use modified_riscv.Sched.Mlfq.{Queue, entries, contents, pid_of}
use modified_riscv.Sched.Mlfq.Remove.{erase_first, IsLive}

abbrev ready : ℕ → ℕ → Proc
ready pid born = record blank {
  pid = pid;
  creation_time = born;
  state = runnable;
  tickets = pos 1;
  stat_pr = pos 60;
  curr_queue = pos 1;
  wait_time = 3;
}

abbrev asleep : Proc
asleep = record (ready 9 0) { state = sleeping }

-- Three runnable processes behind a sleeping one; pid 2 is the oldest of them.
abbrev table : List Proc
table = asleep ∷ ready 1 5 ∷ ready 2 3 ∷ ready 3 4 ∷ []

fcfs_choice : select Fcfs.Correct.age table 0 none ≡ some (2, ready 2 3)
unfolding select
fcfs_choice = refl

pick_oldest_example :
    (c : Option (ℕ × Proc)) × IsChoice Fcfs.Correct.age table 0 c
    × Returns
        (Fcfs.pick table)
        (λ d. Fcfs.Correct.IsDispatchOf table c d × ((j : ℕ) → d.held j ≡ is_best c j))
pick_oldest_example = Fcfs.Correct.pick_oldest table

pbs_choice : select Pbs.Correct.urgency table 0 none ≡ some (1, ready 1 5)
unfolding select Pbs.dynamic_priority
pbs_choice = refl

pick_most_urgent_example :
    (c : Option (ℕ × Proc)) × IsChoice Pbs.Correct.urgency table 0 c
    × Returns
        (Pbs.pick 7 table)
        (λ d. Pbs.Correct.IsDispatchOf 7 table c d × ((j : ℕ) → d.held j ≡ is_best c j))
pick_most_urgent_example = Pbs.Correct.pick_most_urgent 7 table

-- Scheduled before, one tick run and 99 slept.
abbrev sleeper : Proc
sleeper = record (ready 4 0) { num_of_scheduled = 1; run_time = 1; sleep_time = 99 }

pick-first_runnable_example : Returns (Lottery.pick 37 table) (λ d.
    Lottery.Correct.IsDispatchOf table (Lottery.Correct.first_runnable table 0) d
    × ((j : ℕ) → d.held j ≡ is_best (Lottery.Correct.first_runnable table 0) j))
pick-first_runnable_example = Lottery.Correct.pick-first_runnable 37 table (omega arith)

-- The entries 1, 2, 3 of the table in `queue1`, and empty queues beside it.
abbrev entry : ℕ → Option ℕ
entry i = if ltb i 3 then some (i + 1) else none

abbrev queue1 : Queue
queue1 = record { slot = entry; len = 3 }

abbrev queues : ℕ → Queue
queues level = if level == 1 then queue1 else record { slot = λ _. none; len = 0 }

abbrev entry_pid : Option ℕ → ℕ
entry_pid none = 0
entry_pid (some i) = i

live : IsLive table entry_pid entry 0 3
unfolding pid_of
live zero h = refl
live (suc zero) h = refl
live (suc (suc zero)) h = refl
live (suc (suc (suc k))) h = absurd (omega arith)

remove_from_queue_lem_example :
    Returns
      (Mlfq.remove_from_queue table 2 queue1)
      (λ q. contents q ≡ erase_first (λ ptr. entry_pid ptr == 2) (contents queue1))
remove_from_queue_lem_example = Mlfq.Remove.remove_from_queue_lem table entry_pid 2 queue1 live

IsLive-two : IsLive table entry_pid entry 0 2
IsLive-two k h = live k (omega arith)

-- Ageing pid 1 drops pid 3 with it: `queue1` is left with pid 2.
age_body_lem_example :
    Returns
      (Mlfq.Ageing.age_body 9 1 0 (record { table = table; queue = queues }))
      (λ m. (contents (m.queue 0) ≡ some 1 ∷ []) × (contents (m.queue 1) ≡ some 2 ∷ []))
age_body_lem_example =
    Mlfq.Ageing.Loses.age_body_lem 9 1 0 1 0 (ready 1 5) (record { table = table; queue = queues })
      entry_pid (omega arith) refl refl refl refl refl (omega arith) (omega arith) IsLive-two

-- While entry 1 of `queue1` runs, it forks entry 0 into `queue0`; the lock of the next entry is free.
abbrev forking : ℕ → Mlfq.Ageing.Mlfq → Mlfq.Ageing.Mlfq
forking b m = record m {
  queue = update m.queue 0 (record { slot = λ _. some 0; len = (m.queue 0).len + 1 });
}

serve_body-none_example :
    Mlfq.Serve.serve_body forking 9 1 0
      (record { mlfq = record { table = table; queue = queues }; held = λ _. false })
    ≡ none
serve_body-none_example =
    Mlfq.Serve.Release.serve_body-none forking 9 1 0 1 (ready 1 5)
      (record { mlfq = record { table = table; queue = queues }; held = λ _. false }) refl refl refl
      refl (omega arith) refl
