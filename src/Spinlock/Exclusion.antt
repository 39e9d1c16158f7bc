-- ===== src/Spinlock/Exclusion.antt =====
-- A spinlock excludes: the invariant of `Step`.
use modified_riscv.Base.{
  ℕ, ◌≡◌, ◌≢◌, ◌⊎◌, inl, inr, refl, sym, ◌∙◌, subst, true, false, Option, none, some, ◌==◌, update,
  update_self, update_ne, ==_refl, arith, ap,
}
use modified_riscv.Base.{ℕ_discrete, Returns}
use modified_riscv.Spinlock.Depth.{
  masked, pop_off-Returns, IsCounted, AllCounted, reachable-AllCounted,
}
use modified_riscv.Spinlock.{
  holding, Stage, outside, spinning, swapped, inside, leaving, Machine, Step, enter, spin, swap,
  take_over, leave, unlock, undo, push_other, pop_other, set_interrupts, set_intena, unlocked,
  pop_off, Reachable, start, next,
}

==_ne : (a b : ℕ) → a ≢ b → (a == b) ≡ false
==_ne a b ne = ground arith

-- A stage without the lock.
abbrev pub IsOut : Stage → Type 0
IsOut outside = Unit
IsOut spinning = Unit
IsOut unlocked = Unit
IsOut _ = ⊥

-- What `lk->cpu` is at the stages of processor `h` with the lock.
abbrev pub IsOwner : ℕ → Stage → Option ℕ → Type 0
IsOwner h swapped c = c ≡ none
IsOwner h inside c = c ≡ some h
IsOwner h leaving c = c ≡ none
IsOwner h _ c = ⊥

-- No processor has the lock, or `h` alone.
abbrev pub Owned : Machine → Type 0
Owned m =
    ((m.lock.locked ≡ false) × (m.lock.cpu ≡ none) × ((i : ℕ) → IsOut (m.stage i)))
    ⊎ ((h : ℕ) × (m.lock.locked ≡ true)
        × IsOwner h (m.stage h) m.lock.cpu
        × ((i : ℕ) → h ≢ i → IsOut (m.stage i)))

-- Every other stage stays out when one changes.
others :
    (f : ℕ → Stage) (h : ℕ) (s : Stage)
    → ((i : ℕ) → h ≢ i → IsOut (f i))
    → (i : ℕ) → h ≢ i
    → IsOut (update f h s i)
others f h s out i ne = subst IsOut (sym (update_ne f h i s ne)) (out i ne)

-- Among processors that are out, one more is.
all-IsOut :
    (f : ℕ → Stage) (j : ℕ) (s : Stage)
    → IsOut s
    → (i : ℕ) → (j ≢ i → IsOut (f i))
    → IsOut (update f j s i)
all-IsOut f j s o i out = elim (ℕ_discrete j i) [
  | yes e ↦ subst IsOut (sym (subst (λ k. update f j s k ≡ s) e (update_self f j s))) o
  | no ne ↦ subst IsOut (sym (update_ne f j i s ne)) (out ne)
]

-- A processor with one of these stages is the owner.
owner_is :
    (h i : ℕ) (f : ℕ → Stage) (s : Stage)
    → ((j : ℕ) → h ≢ j → IsOut (f j))
    → f i ≡ s
    → (IsOut s → ⊥)
    → h ≡ i
owner_is h i f s out e not_out = elim (ℕ_discrete h i) [
  | yes same ↦ same
  | no ne ↦ absurd (not_out (subst IsOut e (out i ne)))
]

out-owner : (h : ℕ) (s : Stage) (c : Option ℕ) → IsOut s → IsOwner h s c → ⊥
out-owner h outside c o own = own
out-owner h spinning c o own = own
out-owner h swapped c o own = o
out-owner h inside c o own = o
out-owner h leaving c o own = o
out-owner h unlocked c o own = own

-- A processor that is out is not the owner.
other :
    (h i : ℕ) (f : ℕ → Stage) (s : Stage) (c : Option ℕ)
    → IsOwner h (f h) c
    → f i ≡ s
    → IsOut s
    → i ≢ h
other h i f s c own e o same =
    out-owner h (f h) c (subst (λ j. IsOut (f j)) same (subst IsOut (sym e) o)) own

-- The owner has the lock alone when the stages change at it.
becomes :
    (i : ℕ) (f : ℕ → Stage) (s : Stage) (c : Option ℕ)
    → IsOwner i s c
    → IsOwner i (update f i s i) c
becomes i f s c own = subst (λ t. IsOwner i t c) (sym (update_self f i s)) own

-- What the invariant says at the stage `s` of an owner `i`.
at-IsOwner :
    (m : Machine) (i : ℕ) (s : Stage)
    → m.stage i ≡ s
    → (IsOut s → ⊥)
    → Owned m
    → (m.lock.locked ≡ true) × IsOwner i s m.lock.cpu × ((k : ℕ) → i ≢ k → IsOut (m.stage k))
at-IsOwner m i s e not_out (inl (free, c, out)) = absurd (not_out (subst IsOut e (out i)))
at-IsOwner m i s e not_out (inr (h, l, own, out)) = (
  l,
  subst (λ t. IsOwner i t m.lock.cpu) e (subst (λ j. IsOwner j (m.stage j) m.lock.cpu) same own),
  subst (λ j. (k : ℕ) → j ≢ k → IsOut (m.stage k)) same out,
)
  where
    same : h ≡ i
    same = owner_is h i m.stage s out e not_out

-- A processor without the lock comes to another stage without it.
out-Owned :
    (m : Machine) (i : ℕ) (s t : Stage)
    → m.stage i ≡ s
    → IsOut s
    → IsOut t
    → Owned m
    → Owned (record m { stage = update m.stage i t })
out-Owned m i s t e is_s is_t (inl (free, c, out)) =
    inl (free, c, λ k. all-IsOut m.stage i t is_t k (λ ne. out k))
out-Owned m i s t e is_s is_t (inr (h, l, own, out)) = inr (
  h,
  l,
  subst (λ x. IsOwner h x m.lock.cpu) (sym (update_ne m.stage i h t apart)) own,
  λ k ne. all-IsOut m.stage i t is_t k (λ _. out k ne),
)
  where
    apart : i ≢ h
    apart = other h i m.stage s m.lock.cpu own e is_s

swap-Owned :
    (m : Machine) (i : ℕ)
    → m.lock.locked ≡ false
    → Owned m
    → Owned
        (record m { lock = record (m.lock) { locked = true }; stage = update m.stage i swapped })
swap-Owned m i free (inl (_, c, out)) =
    inr (i, refl, becomes i m.stage swapped m.lock.cpu c, others m.stage i swapped (λ k ne. out k))
swap-Owned m i free (inr (h, locked, own, out)) = cc

spin-Owned :
    (m : Machine)
    → m.lock.locked ≡ true
    → Owned m
    → Owned (record m { lock = record (m.lock) { locked = true } })
spin-Owned m l (inl (free, c, out)) = cc
spin-Owned m l (inr (h, locked, own, out)) = inr (h, refl, own, out)

Step-Owned : (m n : Machine) → Step m n → Owned m → Owned n
Step-Owned _ _ (enter i m e no_hold) o = out-Owned m i outside spinning e tt tt o
Step-Owned _ _ (spin i m e l) o = spin-Owned m l o
Step-Owned _ _ (swap i m e l) o = swap-Owned m i l o
Step-Owned _ _ (take_over i m e) o =
    let (l, own, out) = at-IsOwner m i swapped e (λ x. x) o in
    inr (i, l, becomes i m.stage inside (some i) refl, others m.stage i inside out)
Step-Owned _ _ (leave i m e hold) o =
    let (l, own, out) = at-IsOwner m i inside e (λ x. x) o in
    inr (i, l, becomes i m.stage leaving none refl, others m.stage i leaving out)
Step-Owned _ _ (unlock i m e) o =
    let (l, own, out) = at-IsOwner m i leaving e (λ x. x) o in
    inl (refl, own, λ k. all-IsOut m.stage i unlocked tt k (λ ne. out k ne))
Step-Owned _ _ (undo i m c e pop) o = out-Owned m i unlocked outside e tt tt o
Step-Owned _ _ (push_other i m e) o = o
Step-Owned _ _ (pop_other i k m c e some_k pop) o = o
Step-Owned _ _ (set_interrupts i b m e zero_k) o = o
Step-Owned _ _ (set_intena i b m) o = o

reachable-Owned : (m : Machine) → Reachable m → Owned m
reachable-Owned _ (start c none_yet) = inl (refl, refl, λ i. tt)
reachable-Owned n (next m _ r s) = Step-Owned m n s (reachable-Owned m r)

outside_quiet : (m : Machine) (i : ℕ) → m.stage i ≡ outside → Owned m → holding i m.lock ≡ false
outside_quiet m i e (inl (free, c, out)) = rw free refl
outside_quiet m i e (inr (h, l, own, out)) = rw l (by_stage (m.stage h) refl own)
  where
    apart : inside ≢ outside
    apart p = cc

    by_stage :
        (s : Stage)
        → m.stage h ≡ s
        → IsOwner h s m.lock.cpu
        → elim m.lock.cpu [ none ↦ false | some j ↦ j == i ] ≡ false
    by_stage outside f o = absurd o
    by_stage spinning f o = absurd o
    by_stage swapped f o = rw o refl
    by_stage unlocked f o = absurd o
    by_stage leaving f o = rw o refl
    by_stage inside f o = rw o (==_ne h i (λ same. apart (sym f ∙ ap m.stage same ∙ e)))

-- In every state that a lock and its processors reach by the steps of `acquire` and `release`,
-- while they also take and give back other locks and switch interrupts on and off where no
-- `push_off` is pending: two processors past `acquire` are one; the test of `holding` fails for a
-- processor outside and succeeds for one inside, so that neither function panics at it;
-- interrupts are off on a processor from its `push_off` in `acquire` to its `pop_off` in
-- `release`; and this `pop_off` does not panic and leaves as many calls of `push_off` pending as
-- the other locks have made.
pub mutual_exclusion :
    (m : Machine)
    → Reachable m
    → ((i j : ℕ) → m.stage i ≡ inside → m.stage j ≡ inside → i ≡ j)
      × ((i : ℕ) → m.stage i ≡ outside → holding i m.lock ≡ false)
      × ((i : ℕ) → m.stage i ≡ inside → holding i m.lock ≡ true)
      × ((i : ℕ) → m.stage i ≢ outside → (m.cpu i).interrupts ≡ false)
      × ((i : ℕ) → m.stage i ≡ unlocked → Returns (pop_off (m.cpu i)) (λ c. c.noff ≡ m.pending i))
mutual_exclusion m r = (
  alone,
  quiet,
  held,
  λ i ne. masked (m.stage i) (m.pending i) (m.cpu i) ne (counted i),
  λ i e.
      pop_off-Returns (m.pending i) (m.cpu i)
        (subst (λ s. IsCounted s (m.pending i) (m.cpu i)) e (counted i)),
)
  where
    counted : AllCounted m
    counted = reachable-AllCounted m r

    owned : Owned m
    owned = reachable-Owned m r

    alone : (i j : ℕ) → m.stage i ≡ inside → m.stage j ≡ inside → i ≡ j
    alone i j e f =
        owner_is i j m.stage inside (at-IsOwner m i inside e (λ x. x) owned).2 f (λ x. x)

    held : (i : ℕ) → m.stage i ≡ inside → holding i m.lock ≡ true
    held i e = let (l, own, out) = at-IsOwner m i inside e (λ x. x) owned in rw (l, own) (==_refl i)

    quiet : (i : ℕ) → m.stage i ≡ outside → holding i m.lock ≡ false
    quiet i e = outside_quiet m i e owned
