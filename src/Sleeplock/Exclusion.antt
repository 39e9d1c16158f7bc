-- ===== src/Sleeplock/Exclusion.antt =====
-- Mutual exclusion, and no process that sleeps on a free lock.
use modified_riscv.Base.{
  ℕ, ◌≡◌, ◌≢◌, ◌⊎◌, ◌↔◌, inl, inr, refl, sym, ◌∙◌, ap, subst, Bool, true, false, ◌&&◌, Option, none,
  some, ◌==◌, if◌then◌else◌, update, update_self, update_ne, ==_iff, true_ne_false,
}
use native.Mathlib.Decide.{ℕ_discrete}
use modified_riscv.Sleeplock.{
  Sleeplock, acquiresleep, holdingsleep, Phase, outside, trying, asleep, inside, System, wake, Step,
  calls, waits, enters, leaves, killed, Reached, begin, then_step,
}

-- The lock is held exactly while a process is inside, which it names, and a process sleeps only while
-- it is held.
record IsHeld (pid_of : ℕ → ℕ) (s : System) : Type 0 where
  named : (i : ℕ) → s.phase i ≡ inside → (s.lock.locked ≡ true) × (s.lock.pid ≡ pid_of i)
  someone : s.lock.locked ≡ true → (i : ℕ) × (s.phase i ≡ inside)
  sleeps : (i : ℕ) → s.phase i ≡ asleep → s.lock.locked ≡ true

-- What a changed process does, the others as they were.
by_process :
    (f : ℕ → Phase) (i j : ℕ) (p q : Phase)
    → update f i p j ≡ q
    → ((i ≡ j) × (p ≡ q)) ⊎ ((i ≢ j) × (f j ≡ q))
by_process f i j p q e = elim (ℕ_discrete i j) [
  | yes same ↦ inl (same, sym (update_self f i p) ∙ ap (update f i p) same ∙ e)
  | no ne ↦ inr (ne, sym (update_ne f i j p ne) ∙ e)
]

-- A process that is not inside changes to another such phase.
IsHeld-outside :
    (pid_of : ℕ → ℕ) (s : System) (i : ℕ) (p : Phase)
    → s.phase i ≢ inside
    → p ≢ inside
    → (p ≡ asleep → s.lock.locked ≡ true)
    → IsHeld pid_of s
    → IsHeld pid_of (record s { phase = update s.phase i p })
IsHeld-outside pid_of s i p was not_in sleep h = record {
  named = λ j e. elim (by_process s.phase i j p inside e) [
    | inl (same, x) ↦ absurd (not_in x)
    | inr (ne, x) ↦ h.named j x
  ];
  someone = λ on.
      let (j, x) = h.someone on in (j, update_ne s.phase i j p (λ e. was (ap s.phase e ∙ x)) ∙ x);
  sleeps = λ j e. elim (by_process s.phase i j p asleep e) [
    | inl (same, x) ↦ sleep x
    | inr (ne, x) ↦ h.sleeps j x
  ];
}

trying_inside : trying ≢ inside
trying_inside e = cc

asleep_inside : asleep ≢ inside
asleep_inside e = cc

trying_asleep : trying ≢ asleep
trying_asleep e = cc

wake-inside : (p : Phase) → wake p ≡ inside → p ≡ inside
wake-inside outside e = cc
wake-inside trying e = cc
wake-inside asleep e = cc
wake-inside inside e = refl

wake-asleep : (p : Phase) → wake p ≢ asleep
wake-asleep outside e = cc
wake-asleep trying e = cc
wake-asleep asleep e = cc
wake-asleep inside e = cc

acquiresleep-none : (me : ℕ) (lk : Sleeplock) → acquiresleep me lk ≡ none → lk.locked ≡ true
unfolding acquiresleep
acquiresleep-none me lk e = by_test _ lk.locked e
  where
    by_test : (x : Sleeplock) (t : Bool) → (if t then none else some x) ≡ none → t ≡ true
    by_test x true e = refl
    by_test x false e = cc

acquiresleep-some :
    (me : ℕ) (lk after : Sleeplock)
    → acquiresleep me lk ≡ some after
    → (lk.locked ≡ false) × (after.locked ≡ true) × (after.pid ≡ me)
unfolding acquiresleep
acquiresleep-some me lk after e = by_test lk.locked e
  where
    lock_of : Option Sleeplock → Sleeplock
    lock_of none = record { locked = false; pid = 0 }
    lock_of (some x) = x

    by_test :
        (t : Bool)
        → (if t then none else some (record { locked = true; pid = me })) ≡ some after
        → (t ≡ false) × (after.locked ≡ true) × (after.pid ≡ me)
    by_test true e = cc
    by_test false e =
        (refl, sym (ap (λ o. (lock_of o).locked) e), sym (ap (λ o. (lock_of o).pid) e))

Step-IsHeld :
    (pid_of : ℕ → ℕ) (s t : System)
    → ((i j : ℕ) → pid_of i ≡ pid_of j → i ≡ j)
    → Step pid_of s t
    → IsHeld pid_of s
    → IsHeld pid_of t
Step-IsHeld pid_of _ _ apart (calls s i e) h =
    IsHeld-outside pid_of s i trying (λ x. outside_inside (sym e ∙ x)) trying_inside
      (λ x. absurd (trying_asleep x)) h
  where
    outside_inside : outside ≢ inside
    outside_inside x = cc
Step-IsHeld pid_of _ _ apart (waits s i e none_left) h =
    IsHeld-outside pid_of s i asleep (λ x. trying_inside (sym e ∙ x)) asleep_inside
      (λ x. acquiresleep-none (pid_of i) s.lock none_left) h
Step-IsHeld pid_of _ _ apart (enters s i lk e taken) h = record {
  named = λ j x. elim (by_process s.phase i j inside inside x) [
    | inl (same, y) ↦ (got.1, got.2 ∙ ap pid_of same)
    | inr (ne, y) ↦ absurd (true_ne_false (sym (h.named j y).0 ∙ got.0))
  ];
  someone = λ on. (i, update_self s.phase i inside);
  sleeps = λ j x. got.1;
}
  where
    got : (s.lock.locked ≡ false) × (lk.locked ≡ true) × (lk.pid ≡ pid_of i)
    got = acquiresleep-some (pid_of i) s.lock lk taken
Step-IsHeld pid_of _ _ apart (leaves s i e) h = record {
  named = λ j x. absurd (alone j x);
  someone = λ on. absurd (true_ne_false (sym on));
  sleeps = λ j x. absurd (wake-asleep (update s.phase i outside j) x);
}
  where
    outside_inside : outside ≢ inside
    outside_inside x = cc

    alone : (j : ℕ) → wake (update s.phase i outside j) ≢ inside
    alone j x = elim (by_process s.phase i j outside inside (wake-inside _ x)) [
      | inl (same, y) ↦ outside_inside y
      | inr (ne, y) ↦ ne (apart i j (sym (h.named i e).1 ∙ (h.named j y).1))
    ]
Step-IsHeld pid_of _ _ apart (killed s i e) h =
    IsHeld-outside pid_of s i trying (λ x. asleep_inside (sym e ∙ x)) trying_inside
      (λ x. absurd (trying_asleep x)) h

Reached-IsHeld :
    (pid_of : ℕ → ℕ) (s : System)
    → ((i j : ℕ) → pid_of i ≡ pid_of j → i ≡ j)
    → Reached pid_of s
    → IsHeld pid_of s
Reached-IsHeld pid_of _ apart begin = record {
  named = λ i x. cc;
  someone = λ on. cc;
  sleeps = λ i x. cc;
}
Reached-IsHeld pid_of _ apart (then_step {s} {t} r st) =
    Step-IsHeld pid_of s t apart st (Reached-IsHeld pid_of s apart r)

-- For processes with distinct pids: two processes inside are one, `holdingsleep` holds for the process
-- inside and for no other, and a process sleeps only while the lock is held, so that no wakeup is lost.
pub sleeplock_exclusion :
    (pid_of : ℕ → ℕ) (s : System)
    → ((i j : ℕ) → pid_of i ≡ pid_of j → i ≡ j)
    → Reached pid_of s
    → ((i j : ℕ) → s.phase i ≡ inside → s.phase j ≡ inside → i ≡ j)
      × ((i : ℕ) → (s.phase i ≡ inside) ↔ (holdingsleep (pid_of i) s.lock ≡ true))
      × ((i : ℕ) → s.phase i ≡ asleep → s.lock.locked ≡ true)
sleeplock_exclusion pid_of s apart reached = (
  λ i j x y. apart i j (sym (h.named i x).1 ∙ (h.named j y).1),
  λ i. (
    λ x. rw ((h.named i x).0) ((==_iff _ _).1 (h.named i x).1),
    λ x. holder i s.lock.locked refl x,
  ),
  h.sleeps,
)
  where
    h : IsHeld pid_of s
    h = Reached-IsHeld pid_of s apart reached

    holder :
        (i : ℕ) (t : Bool)
        → s.lock.locked ≡ t
        → (t && s.lock.pid == pid_of i) ≡ true
        → s.phase i ≡ inside
    holder i false off x = absurd (true_ne_false (sym x))
    holder i true on x =
        let (j, y) = h.someone on in
        subst (λ k. s.phase k ≡ inside)
          (apart j i (sym (h.named j y).1 ∙ (==_iff s.lock.pid (pid_of i)).0 x)) y
