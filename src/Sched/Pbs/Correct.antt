-- ===== src/Sched/Pbs/Correct.antt =====
-- The PBS scan is the plain selection by dynamic priority and then by the number of times scheduled.
use modified_riscv.Base.{
  ℕ, ◌+◌, ◌≡◌, refl, sym, subst, Bool, true, false, ◌&&◌, Option, none, some, List, [], ◌∷◌,
  if◌then◌else◌, get_elem?, set, arith, update, ◌>>=◌, Returns, bind-Returns,
}
use modified_riscv.Base.Int.{ℤ, pos, pos_part}
use native.Mathlib.Nat.{zero-add}
use modified_riscv.Proc.{Proc, is_runnable, modify-eq-set}
use modified_riscv.Sched.Scan.{
  settle, IsLocked, is_best, settled, acquire-next, settle-IsLocked, empty-IsLocked,
}
use modified_riscv.Sched.Select.{Rank, improves, choose, select, IsChoice}
use modified_riscv.Sched.Choice.{select-IsChoice}
use modified_riscv.Sched.Pbs.{
  dynamic_priority, PbsScan, takes, body, scan, start, Dispatch, schedule, dispatch, pick,
  check_cond_1, check_cond_2,
}
use modified_riscv.Sched.Pbs.Priority.{dynamic_priority_bounds, dynamic_priority-pos}

-- a smaller dynamic priority first, then the one scheduled less often
abbrev pub urgency : Proc → Rank
urgency p = (pos_part (dynamic_priority p), p.num_of_scheduled)

-- `dynamic_pr` is the dynamic priority of the best process so far.
abbrev IsTied : Option (ℕ × Proc) → ℤ → Type 0
IsTied none d = d ≡ pos 999
IsTied (some (b, q)) d = d ≡ dynamic_priority q

-- The test reads no null pointer, and is the comparison by rank.
takes_parts :
    (p : Proc) (held : ℕ → Bool) (best : Option (ℕ × Proc)) (d : ℤ)
    → IsTied best d
    → takes (record { scan = record { held = held; best = best }; dynamic_pr = d }) p
      ≡ some (is_runnable p && improves urgency p best)
unfolding takes check_cond_1 check_cond_2
takes_parts p held none d t = ground (arith, dynamic_priority_bounds p, dynamic_priority-pos p)
takes_parts p held (some (b, q)) d t =
    ground (arith, dynamic_priority-pos p, dynamic_priority-pos q)

takes_lem :
    (s : PbsScan) (p : Proc)
    → IsTied s.scan.best s.dynamic_pr
    → takes s p ≡ some (is_runnable p && improves urgency p s.scan.best)
takes_lem s p t = takes_parts p s.scan.held s.scan.best s.dynamic_pr t

record Keeps (i : ℕ) (best : Option (ℕ × Proc)) (s : PbsScan) : Type 0 where
  locked : IsLocked i s.scan
  tied : IsTied s.scan.best s.dynamic_pr
  same : s.scan.best ≡ best

retie :
    (t : Bool) (i : ℕ) (p : Proc) (best best' : Option (ℕ × Proc)) (d : ℤ)
    → IsTied best d
    → best' ≡ settled t i p best
    → IsTied best' (if t then dynamic_priority p else d)
retie true i p best best' d h e = subst (λ b. IsTied b (dynamic_priority p)) (sym e) refl
retie false i p best best' d h e = subst (λ b. IsTied b d) (sym e) h

body_lem :
    (i : ℕ) (p : Proc) (s : PbsScan)
    → IsLocked i s.scan
    → IsTied s.scan.best s.dynamic_pr
    → Returns (body i p s) (Keeps (i + 1) (choose urgency i p s.scan.best))
unfolding body
body_lem i p s l t =
    rw (acquire-next i s.scan l, takes_lem s p t)
      (bind-Returns
        (settle test i p (record { held = update s.scan.held i true; best = s.scan.best })) _ _ _
        (settle-IsLocked test i p s.scan l)
        (λ s' h. record {
          locked = h.0;
          tied = retie test i p s.scan.best s'.best s.dynamic_pr t h.1;
          same = h.1;
        }))
  where
    test : Bool
    test = is_runnable p && improves urgency p s.scan.best

scan-eq-select :
    (ps : List Proc) (i : ℕ) (s : PbsScan)
    → IsLocked i s.scan
    → IsTied s.scan.best s.dynamic_pr
    → Returns (scan ps i s) (λ s'.
      ((j : ℕ) → s'.scan.held j ≡ is_best s'.scan.best j)
      × (s'.scan.best ≡ select urgency ps i s.scan.best))
unfolding scan select
scan-eq-select [] i s l t = (l.only, refl)
scan-eq-select (p ∷ ps) i s l t =
    bind-Returns (body i p s) (λ s'. scan ps (i + 1) s') _ _ (body_lem i p s l t)
      (λ s' h. rw (← h.same) (scan-eq-select ps (i + 1) s' h.locked h.tied))

-- The machine at the switch, for the choice `c`.
abbrev pub IsDispatchOf : ℕ → List Proc → Option (ℕ × Proc) → Dispatch → Type 0
IsDispatchOf ticks ps none d = (d.table ≡ ps) × (d.running_proc ≡ none)
IsDispatchOf ticks ps (some (b, q)) d =
    (d.table ≡ set ps b (schedule ticks q)) × (d.running_proc ≡ some b)

dispatch_lem :
    (ticks : ℕ) (ps : List Proc) (c : Option (ℕ × Proc)) (held : ℕ → Bool)
    → IsChoice urgency ps 0 c
    → IsDispatchOf ticks ps c (dispatch ticks ps (record { held = held; best = c }))
      × ((dispatch ticks ps (record { held = held; best = c })).held ≡ held)
unfolding dispatch
dispatch_lem ticks ps none held choice = ((refl, refl), refl)
dispatch_lem ticks ps (some (b, q)) held choice =
    let (k, e, there) = choice.there in
    let at_b : get_elem? ps b ≡ some q = rw (e, zero-add) there in
    ((modify-eq-set b (schedule ticks) ps q at_b, refl), refl)

pick_of :
    (ticks : ℕ) (ps : List Proc) (o : Option PbsScan)
    → Returns o (λ s.
      ((j : ℕ) → s.scan.held j ≡ is_best s.scan.best j) × (s.scan.best ≡ select urgency ps 0 none))
    → (c : Option (ℕ × Proc)) × IsChoice urgency ps 0 c
      × Returns
          (o >>= λ s. some (dispatch ticks ps s.scan))
          (λ d. IsDispatchOf ticks ps c d × ((j : ℕ) → d.held j ≡ is_best c j))
pick_of ticks ps none h = absurd h
pick_of ticks ps (some s) (only, e) =
    let best = s.scan.best in
    let choice : IsChoice urgency ps 0 best =
      subst (IsChoice urgency ps 0) (sym e) (select-IsChoice urgency ps) in
    let (is_of, held) = dispatch_lem ticks ps best s.scan.held choice in
    (best, choice, (is_of, λ j. rw held (only j)))

-- PBS never panics and reads no null pointer. It runs, if some process is runnable, one of the least
-- dynamic priority, of those one scheduled the fewest times, and of those the first in the table,
-- whatever the creation times; it holds that process's lock alone, and the entries change by the
-- chosen one's reset of its run and sleep times, its count, its state and its start time.
pub pick_most_urgent :
    (ticks : ℕ) (ps : List Proc)
    → (c : Option (ℕ × Proc)) × IsChoice urgency ps 0 c
      × Returns
          (pick ticks ps)
          (λ d. IsDispatchOf ticks ps c d × ((j : ℕ) → d.held j ≡ is_best c j))
unfolding pick
pick_most_urgent ticks ps =
    pick_of ticks ps (scan ps 0 start) (scan-eq-select ps 0 start empty-IsLocked refl)
