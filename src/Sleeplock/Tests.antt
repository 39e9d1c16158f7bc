-- ===== src/Sleeplock/Tests.antt =====
-- One process inside and one asleep, and the theorem at this state.
use modified_riscv.Base.{ℕ, ◌+◌, ◌≡◌, ◌↔◌, refl, true, update, arith}
use modified_riscv.Sleeplock.{
  holdingsleep, Phase, outside, trying, asleep, inside, System, Step, calls, waits, enters, Reached,
  begin, then_step, start,
}
use modified_riscv.Sleeplock.Exclusion.{sleeplock_exclusion}

abbrev pid_of : ℕ → ℕ
pid_of i = i + 1

abbrev one_inside : System
one_inside = record {
  lock = record { locked = true; pid = 4 };
  phase = update (update start.phase 3 trying) 3 inside;
}

abbrev one_asleep : System
one_asleep = record one_inside { phase = update (update one_inside.phase 5 trying) 5 asleep }

reaches : Reached pid_of one_asleep
unfolding modified_riscv.Sleeplock.acquiresleep
reaches =
    then_step
      (then_step
        (then_step (then_step begin (calls start 3 refl))
          (enters _ 3 (record { locked = true; pid = 4 }) refl refl))
        (calls one_inside 5 refl))
      (waits _ 5 refl refl)

sleeplock_exclusion_example :
    ((i j : ℕ) → one_asleep.phase i ≡ inside → one_asleep.phase j ≡ inside → i ≡ j)
    × ((i : ℕ) → (one_asleep.phase i ≡ inside) ↔ (holdingsleep (pid_of i) one_asleep.lock ≡ true))
    × ((i : ℕ) → one_asleep.phase i ≡ asleep → one_asleep.lock.locked ≡ true)
sleeplock_exclusion_example = sleeplock_exclusion pid_of one_asleep (λ i j e. omega arith) reaches
