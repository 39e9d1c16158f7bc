-- ===== src/Spinlock/Nesting.antt =====
-- `push_off` and `pop_off` nest.
use modified_riscv.Base.{
  ℕ, zero, suc, ◌+◌, ◌-◌, ◌≡◌, ◌≢◌, refl, sym, ◌∙◌, false, ◌&&◌, Option, some, ◌==◌, if◌then◌else◌,
  arith, ◌>>=◌, Bool-cases, inl, inr,
}
use modified_riscv.Spinlock.{Cpu, push_off, pop_off}

-- Interrupts are off while a `push_off` has not been undone.
abbrev pub IsNested : Cpu → Type 0
IsNested c = c.noff ≢ 0 → c.interrupts ≡ false

-- `n` nested calls.
abbrev pub pushes : ℕ → Cpu → Cpu
pushes zero c = c
pushes (suc n) c = pushes n (push_off c)

abbrev pub pops : ℕ → Cpu → Option Cpu
pops zero c = some c
pops (suc n) c = pops n c >>= λ c'. pop_off c'

-- The same nesting and the same interrupt bit, and the same saved bit where it matters.
abbrev pub Same : Cpu → Cpu → Type 0
Same c d = (d.noff ≡ c.noff) × (d.interrupts ≡ c.interrupts) × (c.noff ≢ 0 → d.intena ≡ c.intena)

-- The interrupt bit that the outermost `pop_off` restores.
restored :
    (c d : Cpu)
    → IsNested c
    → d.intena ≡ (push_off c).intena
    → ((c.noff == 0) && d.intena) ≡ c.interrupts
restored c d nested saved = elim (Bool-cases (c.noff == 0)) [
  | inl zero_off ↦ rw (saved, zero_off) refl
  | inr some_off ↦ rw some_off (sym (nested (nonzero c.noff some_off)))
]
  where
    nonzero : (n : ℕ) → (n == 0) ≡ false → n ≢ 0
    nonzero n h = ground arith

pop_off-push_off :
    (c d : Cpu) → IsNested c → Same (push_off c) d → (e : Cpu) × (pop_off d ≡ some e) × Same c e
pop_off-push_off c d nested (off, bit, saved) = (
  record d { noff = c.noff; interrupts = (c.noff == 0) && d.intena },
  rw (bit, off, positive c.noff, back c.noff) refl,
  (refl, restored c d nested kept, λ some_off. kept ∙ inner c.noff some_off),
)
  where
    positive : (n : ℕ) → (n + 1 == 0) ≡ false
    positive n = ground arith

    back : (n : ℕ) → n + 1 - 1 ≡ n
    back n = omega arith

    kept : d.intena ≡ (push_off c).intena
    kept = saved (omega arith)

    inner : (n : ℕ) → n ≢ 0 → (if n == 0 then c.interrupts else c.intena) ≡ c.intena
    inner n ne = ground arith

-- After `n` calls of `push_off`, on a processor whose interrupts are off where such calls are
-- pending, interrupts are off if `n` is positive, and `n` calls of `pop_off` do not panic and bring
-- back the count, the interrupt bit and, while calls are pending, the saved bit.
pub pops-pushes :
    (n : ℕ) (c : Cpu)
    → IsNested c
    → IsNested (pushes n c)
      × ((pushes n c).noff ≡ c.noff + n)
      × ((e : Cpu) × (pops n (pushes n c) ≡ some e) × Same c e)
pops-pushes zero c nested = (nested, omega arith, (c, refl, (refl, refl, λ _. refl)))
pops-pushes (suc n) c nested =
    let (inner, off, (e, run, same)) = pops-pushes n (push_off c) (λ _. refl) in
    let (f, pop, back) = pop_off-push_off c e nested same in
    (inner, omega arith, (f, rw (run, pop) refl, back))
