-- ===== src/Lifecycle/Wakeup/Search.antt =====
-- The loops over the table, entry by entry.
use modified_riscv.Base.{
  ℕ, zero, suc, ◌+◌, ◌≡◌, refl, ◌∙◌, ap, Bool, true, false, Option, none, some, List, [], ◌∷◌, ◌==◌,
  if◌then◌else◌, get_elem?, set, arith, Bool-cases, inl, inr,
}
use modified_riscv.Base.Int.{ℤ, ltb_ℤ}
use modified_riscv.Proc.{Proc}
use modified_riscv.Lifecycle.Wakeup.{
  woken, wakeup, kill, doomed, set_priority, reprioritised, aged, update_time,
}

some_eq : {A : Type 0} {a b : A} → some a ≡ some b → a ≡ b
some_eq h = cc

-- `wakeup` makes exactly the processes that sleep on the channel RUNNABLE, the caller left out, and
-- changes nothing else.
pub get_elem?-wakeup :
    (me : Option ℕ) (chan j : ℕ) (ps : List Proc) (k : ℕ) (p : Proc)
    → get_elem? ps k ≡ some p
    → get_elem? (wakeup me chan j ps) k ≡ some (woken me chan (j + k) p)
unfolding wakeup
get_elem?-wakeup me chan j [] k p h = cc
get_elem?-wakeup me chan j (x ∷ xs) zero p h =
    ap some (ap (woken me chan j) (some_eq h) ∙ ap (λ n. woken me chan n p) (omega arith))
get_elem?-wakeup me chan j (x ∷ xs) (suc k) p h =
    get_elem?-wakeup me chan (j + 1) xs k p h ∙ ap some (ap (λ n. woken me chan n p) (omega arith))

-- The first entry with the pid.
unfoldable pub find_pid : ℕ → List Proc → Option (ℕ × Proc)
find_pid pid [] = none
find_pid pid (p ∷ ps) =
    if p.pid == pid
    then some (0, p)
    else elim (find_pid pid ps) [ none ↦ none | some (i, q) ↦ some (suc i, q) ]

pub find_pid_lem :
    (pid : ℕ) (ps : List Proc) (i : ℕ) (q : Proc)
    → find_pid pid ps ≡ some (i, q)
    → get_elem? ps i ≡ some q
unfolding find_pid
find_pid_lem pid [] i q h = cc
find_pid_lem pid (p ∷ ps) i q h = elim (Bool-cases (p.pid == pid)) [
  | inl e ↦ ground (arith, rw e at h)
  | inr e ↦ later (find_pid pid ps) (find_pid_lem pid ps) i q (rw (e, find_pid) at h)
]
  where
    later :
        (c : Option (ℕ × Proc))
        → ((i : ℕ) (q : Proc) → c ≡ some (i, q) → get_elem? ps i ≡ some q)
        → (i : ℕ) (q : Proc)
        → ◌≡◌ {A = Option (ℕ × Proc)}
            (elim c [ none ↦ none | some (k, r) ↦ some (suc k, r) ])
            (some (i, q))
        → get_elem? (p ∷ ps) i ≡ some q
    later none ih i q h = cc
    later (some (k, r)) ih zero q h = ground arith
    later (some (k, r)) ih (suc i) q h = ground (arith, ih k r refl)

-- `updateTime` treats every entry by itself.
pub get_elem?-update_time :
    (ps : List Proc) (k : ℕ) (p : Proc)
    → get_elem? ps k ≡ some p
    → get_elem? (update_time ps) k ≡ some (aged p)
unfolding update_time
get_elem?-update_time [] k p h = cc
get_elem?-update_time (x ∷ xs) zero p h = ap some (ap aged (some_eq h))
get_elem?-update_time (x ∷ xs) (suc k) p h = get_elem?-update_time xs k p h

-- A change of the entry found, if there is one.
abbrev pub change_found : (Proc → Proc) → Option (ℕ × Proc) → List Proc → List Proc
change_found f none ps = ps
change_found f (some (i, p)) ps = set ps i (f p)

abbrev pub is_found : Option (ℕ × Proc) → Bool
is_found none = false
is_found (some _) = true

change_later :
    (f : Proc → Proc) (c : Option (ℕ × Proc)) (x : Proc) (ps : List Proc)
    → change_found f (elim c [ none ↦ none | some (i, q) ↦ some (suc i, q) ]) (x ∷ ps)
      ≡ x ∷ change_found f c ps
change_later f none x ps = refl
change_later f (some c) x ps = refl

found_later :
    (c : Option (ℕ × Proc))
    → is_found (elim c [ none ↦ none | some (i, q) ↦ some (suc i, q) ]) ≡ is_found c
found_later none = refl
found_later (some c) = refl

-- `kill` returns 0 exactly where some entry has the pid, and then changes the first one alone: it is
-- killed, and made RUNNABLE if it sleeps.
pub kill_lem :
    (pid : ℕ) (ps : List Proc)
    → kill pid ps ≡ (is_found (find_pid pid ps), change_found doomed (find_pid pid ps) ps)
unfolding kill find_pid
kill_lem pid [] = refl
kill_lem pid (p ∷ ps) = elim (Bool-cases (p.pid == pid)) [
  | inl e ↦ rw e
  | inr e ↦ rw (e, kill_lem pid ps, found_later, change_later)
]

abbrev pub old_priority : ℤ → Option (ℕ × Proc) → Option (ℤ × Bool)
old_priority priority none = none
old_priority priority (some (i, p)) = some (p.stat_pr, ltb_ℤ priority p.stat_pr)

old_later :
    (priority : ℤ) (c : Option (ℕ × Proc))
    → old_priority priority (elim c [ none ↦ none | some (i, q) ↦ some (suc i, q) ])
      ≡ old_priority priority c
old_later priority none = refl
old_later priority (some c) = refl

-- `setPriority` gives the first entry with the pid the new priority and no run or sleep time, returns
-- the old priority, and has the caller yield exactly if the new one is smaller; with no such entry it
-- returns -1 and changes nothing.
pub set_priority_lem :
    (priority : ℤ) (pid : ℕ) (ps : List Proc)
    → set_priority priority pid ps ≡ (
      old_priority priority (find_pid pid ps),
      change_found (reprioritised priority) (find_pid pid ps) ps,
    )
unfolding set_priority find_pid
set_priority_lem priority pid [] = refl
set_priority_lem priority pid (p ∷ ps) = elim (Bool-cases (p.pid == pid)) [
  | inl e ↦ rw e
  | inr e ↦ rw (e, set_priority_lem priority pid ps, old_later, change_later)
]
