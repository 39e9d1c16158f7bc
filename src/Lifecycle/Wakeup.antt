-- ===== src/Lifecycle/Wakeup.antt =====
-- kernel/proc.c: `sleep`, `wakeup`, `kill`, `setkilled`, `yield`, the end of `exit`, `reparent`,
-- `setPriority` and `updateTime`, on the process table. `me` is the caller's index, or nothing.
pub mod Search
pub mod States
use modified_riscv.Base.{
  ℕ, ◌+◌, Bool, true, false, ◌&&◌, not, Option, none, some, List, [], ◌∷◌, ◌==◌, if◌then◌else◌,
  zero, suc, get_elem?, set,
}
use modified_riscv.Base.Int.{ℤ, ltb_ℤ}
use modified_riscv.Proc.{Proc, ProcState, is_state, sleeping, runnable, running, zombie, modify}

abbrev pub is_me : Option ℕ → ℕ → Bool
is_me none i = false
is_me (some j) i = j == i

-- one round of the loop of `wakeup`
abbrev pub woken : Option ℕ → ℕ → ℕ → Proc → Proc
woken me chan i p =
    if not (is_me me i) && (is_state p.state sleeping && p.chan == chan)
    then record p { state = runnable }
    else p

unfoldable pub wakeup : Option ℕ → ℕ → ℕ → List Proc → List Proc
wakeup me chan i [] = []
wakeup me chan i (p ∷ ps) = woken me chan i p ∷ wakeup me chan (i + 1) ps

-- what `kill` does to its victim
abbrev pub doomed : Proc → Proc
doomed p = record p {
  killed = true;
  state = if is_state p.state sleeping then runnable else p.state;
}

-- The result is whether there was such a process: 0 or -1.
unfoldable pub kill : ℕ → List Proc → Bool × List Proc
kill pid [] = (false, [])
kill pid (p ∷ ps) =
    let (found, rest) = kill pid ps in
    if p.pid == pid then (true, doomed p ∷ ps) else (found, p ∷ rest)

abbrev pub setkilled : ℕ → List Proc → List Proc
setkilled i ps = modify i (λ p. record p { killed = true }) ps

-- `sleep` up to `sched`, and from there on
abbrev pub sleep_begin : ℕ → ℕ → List Proc → List Proc
sleep_begin i chan ps = modify i (λ p. record p { chan = chan; state = sleeping }) ps

abbrev pub sleep_end : ℕ → List Proc → List Proc
sleep_end i ps = modify i (λ p. record p { chan = 0 }) ps

abbrev pub yield : ℕ → List Proc → List Proc
yield i ps = modify i (λ p. record p { state = runnable }) ps

-- p->xstate = status; p->state = ZOMBIE;
abbrev pub become_zombie : ℕ → ℤ → List Proc → List Proc
become_zombie i status ps = modify i (λ p. record p { xstate = status; state = zombie }) ps

abbrev pub is_child : ℕ → Proc → Bool
is_child i p = elim p.parent [ none ↦ false | some j ↦ j == i ]

-- one round of the loop of `reparent`: a child of `i` goes to init, which is woken. `init_chan` is
-- the address of init's entry, the channel on which it waits.
abbrev pub adopt : Option ℕ → ℕ → ℕ → ℕ → ℕ → Proc → List Proc → List Proc
adopt me initproc init_chan i k p ps =
    if is_child i p
    then wakeup me init_chan 0 (set ps k (record p { parent = some initproc }))
    else ps

-- The loop over the `n` entries from `k` on.
unfoldable pub reparent : Option ℕ → ℕ → ℕ → ℕ → ℕ → ℕ → List Proc → List Proc
unfolding wakeup
reparent me initproc init_chan i k zero ps = ps
reparent me initproc init_chan i k (suc n) ps =
    reparent me initproc init_chan i (k + 1) n
      (elim (get_elem? ps k) [ none ↦ ps | some p ↦ adopt me initproc init_chan i k p ps ])

-- setPriority: the old priority and whether the caller yields, or -1.
abbrev pub reprioritised : ℤ → Proc → Proc
reprioritised priority p = record p { stat_pr = priority; run_time = 0; sleep_time = 0 }

unfoldable pub set_priority : ℤ → ℕ → List Proc → Option (ℤ × Bool) × List Proc
set_priority priority pid [] = (none, [])
set_priority priority pid (p ∷ ps) =
    let (result, rest) = set_priority priority pid ps in
    if p.pid == pid
    then (some (p.stat_pr, ltb_ℤ priority p.stat_pr), reprioritised priority p ∷ ps)
    else (result, p ∷ rest)

-- one round of the loop of `updateTime`
abbrev pub aged : Proc → Proc
aged p =
    if is_state p.state running
    then record p { run_time = p.run_time + 1; tot_run_time = p.tot_run_time + 1 }
    else if is_state p.state sleeping
    then record p { sleep_time = p.sleep_time + 1 }
    else p

unfoldable pub update_time : List Proc → List Proc
update_time [] = []
update_time (p ∷ ps) = aged p ∷ update_time ps
