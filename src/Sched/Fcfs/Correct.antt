-- ===== src/Sched/Fcfs/Correct.antt =====
-- The FCFS scan is the plain selection by creation time, and keeps the lock of its choice alone.
use modified_riscv.Base.{
  ℕ, zero, suc, ◌+◌, ◌≡◌, refl, sym, ◌∙◌, Bool, true, false, ◌&&◌, Option, none, some, List, [],
  ◌∷◌, length, get_elem?, set, arith, subst, ==_refl, ◌>>=◌, Returns, bind-Returns,
}
use native.Mathlib.Nat.{zero-add}
use modified_riscv.Proc.{Proc, is_runnable, modify-eq-set}
use modified_riscv.Sched.Scan.{
  Scan, IsLocked, is_best, acquire-next, empty-IsLocked, no_locks, settle-IsLocked,
}
use modified_riscv.Sched.Select.{Rank, improves, choose, select, IsChoice}
use modified_riscv.Sched.Choice.{select-IsChoice}
use modified_riscv.Sched.Fcfs.{
  older, body, scan, finish, round, Dispatch, bump_at, dispatch, pick, set_running,
}

-- earlier processes first
abbrev pub age : Proc → Rank
age p = (p.creation_time, 0)

older-eq-improves : (p : Proc) (best : Option (ℕ × Proc)) → older p best ≡ improves age p best
older-eq-improves p none = refl
older-eq-improves p (some (b, q)) = ground arith

body_lem :
    (i : ℕ) (p : Proc) (s : Scan)
    → IsLocked i s
    → Returns (body i p s) (λ s'. IsLocked (i + 1) s' × (s'.best ≡ choose age i p s.best))
unfolding body
body_lem i p s l =
    rw (acquire-next i s l, ← older-eq-improves p s.best)
      (settle-IsLocked (is_runnable p && older p s.best) i p s l)

scan-eq-select :
    (ps : List Proc) (i : ℕ) (s : Scan)
    → IsLocked i s
    → Returns
        (scan ps i s)
        (λ s'. ((j : ℕ) → s'.held j ≡ is_best s'.best j) × (s'.best ≡ select age ps i s.best))
unfolding scan select
scan-eq-select [] i s l = (l.only, refl)
scan-eq-select (p ∷ ps) i s l =
    bind-Returns (body i p s) (λ s'. scan ps (i + 1) s') _ _ (body_lem i p s l)
      (λ s' h. rw (← h.1) (scan-eq-select ps (i + 1) s' h.0))

get_elem?-length {ℓ} : {A : Type ℓ} (xs : List A) → get_elem? xs (length xs) ≡ none
get_elem?-length [] = refl
get_elem?-length (x ∷ xs) = get_elem?-length xs

get_elem?-set-length {ℓ} :
    {A : Type ℓ} (xs : List A) (i : ℕ) (v : A) → get_elem? (set xs i v) (length xs) ≡ none
get_elem?-set-length [] i v = refl
get_elem?-set-length (x ∷ xs) zero v = get_elem?-length xs
get_elem?-set-length (x ∷ xs) (suc i) v = get_elem?-set-length xs i v

-- The machine at the switch, for the choice `c`: nothing has changed, or the chosen process is
-- RUNNING and is the CPU's, and one increment went past the end of the table.
abbrev pub IsDispatchOf : List Proc → Option (ℕ × Proc) → Dispatch → Type 0
IsDispatchOf ps none d = (d.table ≡ ps) × (d.running_proc ≡ none) × (d.stray_writes ≡ 0)
IsDispatchOf ps (some (b, q)) d =
    (d.table ≡ set ps b (set_running q)) × (d.running_proc ≡ some b) × (d.stray_writes ≡ 1)

bump_past_end :
    (n : ℕ) (d : Dispatch)
    → get_elem? d.table n ≡ none
    → bump_at n d ≡ record d { stray_writes = d.stray_writes + 1 }
unfolding bump_at
bump_past_end n d h = rw (h, bump_at)

abbrev ran : ℕ → List Proc → (ℕ → Bool) → Dispatch
ran b ps held = record { table = ps; running_proc = some b; held = held; stray_writes = 0 }

dispatch_lem :
    (ps : List Proc) (c : Option (ℕ × Proc)) (held : ℕ → Bool)
    → IsChoice age ps 0 c
    → IsDispatchOf ps c (dispatch ps (record { held = held; best = c }))
      × ((dispatch ps (record { held = held; best = c })).held ≡ held)
unfolding dispatch
dispatch_lem ps none held choice = ((refl, refl, refl), refl)
dispatch_lem ps (some (b, q)) held choice =
    let (k, e, there) = choice.there in
    let at_b : get_elem? ps b ≡ some q = rw (e, zero-add) there in
    rw
      (
        modify-eq-set b set_running ps q at_b,
        bump_past_end (length ps) (ran b (set ps b (set_running q)) held)
            (get_elem?-set-length ps b (set_running q)),
      )
      ((refl, refl, refl), refl)

pick_of :
    (ps : List Proc) (o : Option Scan)
    → Returns o (λ s. ((j : ℕ) → s.held j ≡ is_best s.best j) × (s.best ≡ select age ps 0 none))
    → (c : Option (ℕ × Proc)) × IsChoice age ps 0 c
      × Returns
          (o >>= λ s. some (dispatch ps s))
          (λ d. IsDispatchOf ps c d × ((j : ℕ) → d.held j ≡ is_best c j))
pick_of ps none h = absurd h
pick_of ps (some s) (only, e) =
    let choice : IsChoice age ps 0 s.best =
      subst (IsChoice age ps 0) (sym e) (select-IsChoice age ps) in
    let (is_of, held) = dispatch_lem ps s.best s.held choice in
    (s.best, choice, (is_of, λ j. rw held (only j)))

-- FCFS never panics. It runs the first of the runnable processes with the earliest creation time, if
-- there is one, holding that process's lock alone; it leaves every entry but the chosen one's state
-- as it was, and its one increment of `numOfScheduled` goes to the entry past the end of the table.
pub pick_oldest :
    (ps : List Proc)
    → (c : Option (ℕ × Proc)) × IsChoice age ps 0 c
      × Returns (pick ps) (λ d. IsDispatchOf ps c d × ((j : ℕ) → d.held j ≡ is_best c j))
unfolding pick
pick_oldest ps = pick_of ps (scan ps 0 no_locks) (scan-eq-select ps 0 no_locks empty-IsLocked)

finish_of :
    (swtch : ℕ → List Proc → List Proc) (ps : List Proc) (c : Option (ℕ × Proc)) (d : Dispatch)
    → IsDispatchOf ps c d × ((j : ℕ) → d.held j ≡ is_best c j)
    → Returns
        (finish swtch d d.running_proc)
        (λ e. (e.running_proc ≡ none) × ((j : ℕ) → e.held j ≡ false))
unfolding finish
finish_of swtch ps none d (is_of, held) = rw (is_of.1, finish) (is_of.1, held)
finish_of swtch ps (some (b, q)) d (is_of, held) =
    let mine : d.held b ≡ true = held b ∙ ==_refl b in
    rw (is_of.1, finish, mine) (refl, λ j. ground (arith, held j))

-- A whole FCFS pass never panics, whatever the process does while it runs: it ends with no lock held
-- and with no process on the CPU.
pub round_unlocks :
    (swtch : ℕ → List Proc → List Proc) (ps : List Proc)
    → Returns (round swtch ps) (λ e. (e.running_proc ≡ none) × ((j : ℕ) → e.held j ≡ false))
unfolding round
round_unlocks swtch ps =
    let (c, choice, picked) = pick_oldest ps in
    bind-Returns (pick ps) (λ d. finish swtch d d.running_proc) _ _ picked (finish_of swtch ps c)
