-- ===== src/Spinlock/Tests.antt =====
-- Locks at work, and the theorems at these inputs.
use modified_riscv.Base.{ℕ, ◌≡◌, ◌≢◌, Returns, refl, true, false, none, some, update}
use modified_riscv.Spinlock.{
  Cpu, push_off, pop_off, unlocked, initlock, holding, outside, spinning, swapped, inside, Machine,
  enter, swap, take_over, Reachable, start, next,
}
use modified_riscv.Spinlock.Exclusion.{mutual_exclusion}

abbrev calm : Cpu
calm = record { noff = 0; intena = false; interrupts = true }

abbrev fresh : Machine
fresh = record { lock = initlock; stage = λ _. outside; cpu = λ _. calm; pending = λ _. 0 }

abbrev waiting : Machine
waiting = record fresh {
  stage = update fresh.stage 1 spinning;
  cpu = update fresh.cpu 1 (push_off calm);
}

abbrev taken : Machine
taken = record waiting {
  lock = record { locked = true; cpu = none };
  stage = update waiting.stage 1 swapped;
}

abbrev held : Machine
held = record taken {
  lock = record { locked = true; cpu = some 1 };
  stage = update taken.stage 1 inside;
}

-- Processor 1 has the lock.
held-Reachable : Reachable held
held-Reachable =
    next taken held
      (next waiting taken
        (next fresh waiting (start (λ _. calm) (λ i. refl)) (enter 1 fresh refl refl))
        (swap 1 waiting refl refl))
      (take_over 1 taken refl)

mutual_exclusion_example :
    ((i j : ℕ) → held.stage i ≡ inside → held.stage j ≡ inside → i ≡ j)
    × ((i : ℕ) → held.stage i ≡ outside → holding i held.lock ≡ false)
    × ((i : ℕ) → held.stage i ≡ inside → holding i held.lock ≡ true)
    × ((i : ℕ) → held.stage i ≢ outside → (held.cpu i).interrupts ≡ false)
    × ((i : ℕ)
        → held.stage i ≡ unlocked
        → Returns (pop_off (held.cpu i)) (λ c. c.noff ≡ held.pending i))
mutual_exclusion_example = mutual_exclusion held held-Reachable
