-- ===== src/Spinlock/Depth.antt =====
-- The calls of `push_off` that are pending on each processor, in every state that `Step` reaches.
use modified_riscv.Base.{
  ℕ, ◌+◌, ◌-◌, ◌≡◌, ◌≢◌, refl, ◌∙◌, ap, subst, false, some, update, update_self, update_ne, arith,
  ℕ_discrete, Returns, ◌==◌,
}
use modified_riscv.Spinlock.{
  Cpu, push_off, pop_off, Stage, outside, spinning, swapped, inside, leaving, unlocked, Machine,
  Step, enter, spin, swap, take_over, leave, unlock, undo, push_other, pop_other, set_interrupts,
  set_intena, Reachable, start, next,
}
use modified_riscv.Spinlock.Nesting.{IsNested}

-- The calls of `push_off` for the lock that are pending at a stage.
abbrev pub own : Stage → ℕ
own outside = 0
own _ = 1

abbrev pub IsCounted : Stage → ℕ → Cpu → Type 0
IsCounted s k c = (c.noff ≡ k + own s) × IsNested c

abbrev pub AllCounted : Machine → Type 0
AllCounted m = (i : ℕ) → IsCounted (m.stage i) (m.pending i) (m.cpu i)

-- A step of processor `i` leaves the others as they are.
all-IsCounted :
    (m : Machine) (i : ℕ) (stage : ℕ → Stage) (pending : ℕ → ℕ) (cpu : ℕ → Cpu)
    → ((k : ℕ) → i ≢ k → (stage k ≡ m.stage k) × (pending k ≡ m.pending k) × (cpu k ≡ m.cpu k))
    → IsCounted (stage i) (pending i) (cpu i)
    → AllCounted m
    → (k : ℕ) → IsCounted (stage k) (pending k) (cpu k)
all-IsCounted m i stage pending cpu same here all k = elim (ℕ_discrete i k) [
  | yes e ↦ subst (λ j. IsCounted (stage j) (pending j) (cpu j)) e here
  | no ne ↦ let (s, p, c) = same k ne in rw (s, p, c) (all k)
]

-- A step that changes only the stage of processor `i`, and not whether it is outside.
moves :
    (m : Machine) (i : ℕ) (s t : Stage)
    → m.stage i ≡ s
    → own s ≡ own t
    → AllCounted m
    → AllCounted (record m { stage = update m.stage i t })
moves m i s t at same all =
    all-IsCounted m i (update m.stage i t) m.pending m.cpu
      (λ k ne. (update_ne m.stage i k t ne, refl, refl))
      (rw (update_self m.stage i t)
        ((all i).0 ∙ ap (λ x. m.pending i + x) (ap own at ∙ same), (all i).1))
      all

pop_facts : (c d : Cpu) → pop_off c ≡ some d → (c.noff ≡ d.noff + 1) × IsNested d
pop_facts c d e = ground arith

Step-AllCounted : (m n : Machine) → Step m n → AllCounted m → AllCounted n
Step-AllCounted _ _ (enter i m at quiet) all =
    all-IsCounted m i (update m.stage i spinning) m.pending (update m.cpu i (push_off (m.cpu i)))
      (λ k ne. (update_ne m.stage i k _ ne, refl, update_ne m.cpu i k _ ne))
      (rw (update_self m.stage i spinning, update_self m.cpu i (push_off (m.cpu i)))
        (omega (arith, (all i).0, ap own at), λ _. refl))
      all
Step-AllCounted _ _ (spin i m at l) all = all
Step-AllCounted _ _ (swap i m at l) all = moves m i spinning swapped at refl all
Step-AllCounted _ _ (take_over i m at) all = moves m i swapped inside at refl all
Step-AllCounted _ _ (leave i m at l) all = moves m i inside leaving at refl all
Step-AllCounted _ _ (unlock i m at) all = moves m i leaving unlocked at refl all
Step-AllCounted _ _ (undo i m c at pop) all =
    all-IsCounted m i (update m.stage i outside) m.pending (update m.cpu i c)
      (λ k ne. (update_ne m.stage i k _ ne, refl, update_ne m.cpu i k _ ne))
      (rw (update_self m.stage i outside, update_self m.cpu i c)
        (
          omega (arith, (all i).0, ap own at, (pop_facts (m.cpu i) c pop).0),
          (pop_facts (m.cpu i) c pop).1,
        ))
      all
Step-AllCounted _ _ (push_other i m at) all =
    all-IsCounted m i m.stage (update m.pending i (m.pending i + 1))
      (update m.cpu i (push_off (m.cpu i)))
      (λ k ne. (refl, update_ne m.pending i k _ ne, update_ne m.cpu i k _ ne))
      (rw (update_self m.pending i (m.pending i + 1), update_self m.cpu i (push_off (m.cpu i)))
        (omega (arith, (all i).0), λ _. refl))
      all
Step-AllCounted _ _ (pop_other i k m c at some_k pop) all =
    all-IsCounted m i m.stage (update m.pending i k) (update m.cpu i c)
      (λ j ne. (refl, update_ne m.pending i j _ ne, update_ne m.cpu i j _ ne))
      (rw (update_self m.pending i k, update_self m.cpu i c)
        (
          omega (arith, (all i).0, some_k, (pop_facts (m.cpu i) c pop).0),
          (pop_facts (m.cpu i) c pop).1,
        ))
      all
Step-AllCounted _ _ (set_interrupts i b m at zero_k) all =
    all-IsCounted m i m.stage m.pending (update m.cpu i (record (m.cpu i) { interrupts = b }))
      (λ k ne. (refl, refl, update_ne m.cpu i k _ ne))
      (rw (update_self m.cpu i (record (m.cpu i) { interrupts = b }))
        ((all i).0, λ ne. absurd (ne ((all i).0 ∙ omega (arith, zero_k, ap own at)))))
      all
Step-AllCounted _ _ (set_intena i b m) all =
    all-IsCounted m i m.stage m.pending (update m.cpu i (record (m.cpu i) { intena = b }))
      (λ k ne. (refl, refl, update_ne m.cpu i k _ ne))
      (rw (update_self m.cpu i (record (m.cpu i) { intena = b })) (all i)) all

pub reachable-AllCounted : (m : Machine) → Reachable m → AllCounted m
reachable-AllCounted _ (start c none_yet) = λ i. (none_yet i, λ ne. absurd (ne (none_yet i)))
reachable-AllCounted n (next m _ r s) = Step-AllCounted m n s (reachable-AllCounted m r)

-- Interrupts are off from `acquire` to `release`.
pub masked : (s : Stage) (k : ℕ) (c : Cpu) → s ≢ outside → IsCounted s k c → c.interrupts ≡ false
masked outside k c ne h = absurd (ne refl)
masked spinning k c ne h = h.1 (omega (arith, h.0))
masked swapped k c ne h = h.1 (omega (arith, h.0))
masked inside k c ne h = h.1 (omega (arith, h.0))
masked leaving k c ne h = h.1 (omega (arith, h.0))
masked unlocked k c ne h = h.1 (omega (arith, h.0))

pub pop_off-Returns :
    (k : ℕ) (c : Cpu) → IsCounted unlocked k c → Returns (pop_off c) (λ d. d.noff ≡ k)
pop_off-Returns k c (off, nested) = rw (nested (omega (arith, off)), positive c.noff off) back
  where
    positive : (n : ℕ) → n ≡ k + 1 → (n == 0) ≡ false
    positive n e = ground arith

    back : c.noff - 1 ≡ k
    back = omega (arith, off)
