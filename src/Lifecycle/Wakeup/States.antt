-- ===== src/Lifecycle/Wakeup/States.antt =====
-- The state machine of a process: what each event of the table may do to the state of an entry.
use modified_riscv.Base.{
  ℕ, ◌+◌, ◌≡◌, refl, sym, ◌∙◌, true, Option, none, some, List, ◌==◌, get_elem?, get_elem?-set_there,
  ℕ_discrete, arith, Bool-cases, inl, inr, subst, not, ◌&&◌,
}
use modified_riscv.Base.Int.{ℤ}
use modified_riscv.Proc.{
  Proc, ProcState, is_state, sleeping, runnable, running, zombie, modify, modify-eq-set, modify-ne,
  is_state-eq,
}
use modified_riscv.Lifecycle.Wakeup.{
  woken, wakeup, kill, doomed, set_priority, reprioritised, aged, update_time, sleep_begin,
  sleep_end, yield, become_zombie, setkilled, is_me,
}
use modified_riscv.Lifecycle.Wakeup.Search.{
  get_elem?-wakeup, find_pid, change_found, kill_lem, set_priority_lem, find_pid_lem,
  get_elem?-update_time,
}

-- The steps of a process that is neither created nor reaped.
pub data Moves : ProcState → ProcState → Type 0 where
  stay : (s : ProcState) → Moves s s
  wake : Moves sleeping runnable
  give_up : Moves running runnable
  doze : Moves running sleeping
  die : Moves running zombie

-- What happens to the table: calls of the functions, with their callers.
pub data Event : Type 0 where
  wakes : Option ℕ → ℕ → Event
  kills : ℕ → Event
  marks : ℕ → Event
  sleeps : ℕ → ℕ → Event
  resumes : ℕ → Event
  yields : ℕ → Event
  exits : ℕ → ℤ → Event
  sets_priority : ℤ → ℕ → Event
  ticks : Event

unfoldable pub happen : Event → List Proc → List Proc
happen (wakes me chan) ps = wakeup me chan 0 ps
happen (kills pid) ps = (kill pid ps).1
happen (marks i) ps = setkilled i ps
happen (sleeps i chan) ps = sleep_begin i chan ps
happen (resumes i) ps = sleep_end i ps
happen (yields i) ps = yield i ps
happen (exits i status) ps = become_zombie i status ps
happen (sets_priority priority pid) ps = (set_priority priority pid ps).1
happen ticks ps = update_time ps

-- `sleep`, `yield` and `exit` are called by a running process.
abbrev pub IsRunning : ℕ → List Proc → Type 0
IsRunning i ps = (p : Proc) → get_elem? ps i ≡ some p → p.state ≡ running

abbrev pub IsEnabled : Event → List Proc → Type 0
IsEnabled (sleeps i chan) ps = IsRunning i ps
IsEnabled (yields i) ps = IsRunning i ps
IsEnabled (exits i status) ps = IsRunning i ps
IsEnabled _ ps = Unit

-- The entry afterwards, whose state is a step away and whose pid is the same.
abbrev pub Follows : Proc → Option Proc → Type 0
Follows p o = (q : Proc) × (o ≡ some q) × Moves p.state q.state × (q.pid ≡ p.pid)

modify-Follows :
    (i j : ℕ) (f : Proc → Proc) (ps : List Proc) (p : Proc)
    → get_elem? ps j ≡ some p
    → (i ≡ j → Moves p.state (f p).state)
    → (f p).pid ≡ p.pid
    → Follows p (get_elem? (modify i f ps) j)
modify-Follows i j f ps p h moves same = elim (ℕ_discrete i j) [
  | yes e ↦
      let at_i : get_elem? ps i ≡ some p = subst (λ x. get_elem? ps x ≡ some p) (sym e) h in
      (
        f p,
        subst (λ x. get_elem? (modify i f ps) x ≡ some (f p)) e
            (rw (modify-eq-set i f ps p at_i) (get_elem?-set_there ps i p (f p) at_i)),
        moves e,
        same,
      )
  | no ne ↦ (p, modify-ne i j f ps ne ∙ h, stay p.state, refl)
]

wakes-Moves : (s : ProcState) → is_state s sleeping ≡ true → Moves s runnable
wakes-Moves s e = subst (λ x. Moves x runnable) (sym (is_state-eq s sleeping e)) wake

from_running : {s t : ProcState} → Moves running t → s ≡ running → Moves s t
from_running {t = t} m e = subst (λ x. Moves x t) (sym e) m

runs :
    (i j : ℕ) (ps : List Proc) (p : Proc)
    → IsRunning i ps
    → get_elem? ps j ≡ some p
    → i ≡ j
    → p.state ≡ running
runs i j ps p en h e = en p (subst (λ x. get_elem? ps x ≡ some p) (sym e) h)

woken-Follows :
    (me : Option ℕ) (chan i : ℕ) (p : Proc)
    → Moves p.state (woken me chan i p).state × ((woken me chan i p).pid ≡ p.pid)
woken-Follows me chan i p =
    elim (Bool-cases (not (is_me me i) && (is_state p.state sleeping && p.chan == chan))) [
      | inl e ↦ rw e (wakes-Moves p.state (ground arith), refl)
      | inr e ↦ rw e (stay p.state, refl)
    ]

doomed-Moves : (p : Proc) → Moves p.state (doomed p).state
doomed-Moves p = elim (Bool-cases (is_state p.state sleeping)) [
  | inl e ↦ rw e (wakes-Moves p.state e)
  | inr e ↦ rw e (stay p.state)
]

aged-Follows : (p : Proc) → Moves p.state (aged p).state × ((aged p).pid ≡ p.pid)
aged-Follows p = elim (Bool-cases (is_state p.state running)) [
  | inl e ↦ rw e (stay p.state, refl)
  | inr e ↦ rw e (elim (Bool-cases (is_state p.state sleeping)) [
    | inl e' ↦ rw e' (stay p.state, refl)
    | inr e' ↦ rw e' (stay p.state, refl)
  ])
]

change-Follows :
    (f : Proc → Proc) (c : Option (ℕ × Proc)) (ps : List Proc) (j : ℕ) (p : Proc)
    → ((i : ℕ) (q : Proc) → c ≡ some (i, q) → get_elem? ps i ≡ some q)
    → get_elem? ps j ≡ some p
    → Moves p.state (f p).state
    → (f p).pid ≡ p.pid
    → Follows p (get_elem? (change_found f c ps) j)
change-Follows f none ps j p there h moves same = (p, h, stay p.state, refl)
change-Follows f (some (i, q)) ps j p there h moves same =
    rw (← modify-eq-set i f ps q (there i q refl)) (modify-Follows i j f ps p h (λ e. moves) same)

-- Every event that its caller may bring about takes each entry one step of the state machine: no
-- zombie, unused or new process moves, a sleeping one only to RUNNABLE, a runnable one not at all,
-- and no pid changes.
pub happen-Follows :
    (e : Event) (ps : List Proc) (j : ℕ) (p : Proc)
    → IsEnabled e ps
    → get_elem? ps j ≡ some p
    → Follows p (get_elem? (happen e ps) j)
unfolding happen
happen-Follows (wakes me chan) ps j p en h =
    let (moves, same) = woken-Follows me chan (0 + j) p in
    (woken me chan (0 + j) p, get_elem?-wakeup me chan 0 ps j p h, moves, same)
happen-Follows (kills pid) ps j p en h =
    subst (λ r. Follows p (get_elem? r.1 j)) (sym (kill_lem pid ps))
      (change-Follows doomed (find_pid pid ps) ps j p (find_pid_lem pid ps) h (doomed-Moves p) refl)
happen-Follows (marks i) ps j p en h = modify-Follows i j _ ps p h (λ e. stay p.state) refl
happen-Follows (sleeps i chan) ps j p en h =
    modify-Follows i j _ ps p h (λ e. from_running doze (runs i j ps p en h e)) refl
happen-Follows (resumes i) ps j p en h = modify-Follows i j _ ps p h (λ e. stay p.state) refl
happen-Follows (yields i) ps j p en h =
    modify-Follows i j _ ps p h (λ e. from_running give_up (runs i j ps p en h e)) refl
happen-Follows (exits i status) ps j p en h =
    modify-Follows i j _ ps p h (λ e. from_running die (runs i j ps p en h e)) refl
happen-Follows (sets_priority priority pid) ps j p en h =
    subst (λ r. Follows p (get_elem? r.1 j)) (sym (set_priority_lem priority pid ps))
      (change-Follows (reprioritised priority) (find_pid pid ps) ps j p (find_pid_lem pid ps) h
        (stay p.state) refl)
happen-Follows ticks ps j p en h =
    let (moves, same) = aged-Follows p in (aged p, get_elem?-update_time ps j p h, moves, same)
