-- ===== src/Spinlock.antt =====
-- kernel/spinlock.c: one lock, and the nesting of disabled interrupts on each processor. The loop of
-- `acquire` is the step in which its atomic swap finds the lock free.
pub mod Nesting
pub mod Depth
pub mod Exclusion
mod Tests
use modified_riscv.Base.{
  ℕ, zero, suc, ◌+◌, ◌-◌, Bool, true, false, ◌&&◌, ◌||◌, ◌≡◌, update, not, Option, none, some, List,
  [], ◌∷◌, ◌==◌, if◌then◌else◌, ◌>>=◌,
}

-- The part of struct cpu that locks use, and the interrupt enable bit of the processor.
pub record Cpu : Type 0 where
  pub noff : ℕ
  pub intena : Bool
  pub interrupts : Bool

-- struct spinlock: `locked`, and the number of the processor in `cpu`, or nothing.
pub record Spinlock : Type 0 where
  pub locked : Bool
  pub cpu : Option ℕ

abbrev pub initlock : Spinlock
initlock = record { locked = false; cpu = none }

abbrev pub push_off : Cpu → Cpu
push_off c = record {
  noff = c.noff + 1;
  intena = if c.noff == 0 then c.interrupts else c.intena;
  interrupts = false;
}

-- `none` is a panic.
abbrev pub pop_off : Cpu → Option Cpu
pop_off c =
    if c.interrupts || (c.noff == 0)
    then none
    else some (record c { noff = c.noff - 1; interrupts = (c.noff - 1 == 0) && c.intena })

abbrev pub holding : ℕ → Spinlock → Bool
holding me lk = lk.locked && elim lk.cpu [ none ↦ false | some i ↦ i == me ]

-- Where a processor is in `acquire` and `release`: in neither; in the loop of `acquire`, with
-- interrupts off; after its swap, and not yet recorded in `lk->cpu`; past `acquire`; in `release`, with
-- `lk->cpu` reset; and in `release`, with the lock given back, before `pop_off`.
pub data Stage : Type 0 where
  outside spinning swapped inside leaving unlocked : Stage

-- The lock, and for each processor its stage, its struct cpu, and the number of its calls of `push_off`
-- for other locks that it has not undone.
pub record Machine : Type 0 where
  pub lock : Spinlock
  pub stage : ℕ → Stage
  pub cpu : ℕ → Cpu
  pub pending : ℕ → ℕ

-- Whether the processor can be in other code of the kernel.
abbrev pub IsElsewhere : Stage → Type 0
IsElsewhere outside = Unit
IsElsewhere inside = Unit
IsElsewhere _ = ⊥

-- One memory access of one processor, with what it does to itself before; the test of `holding` only
-- reads. The last four steps are the other code of the kernel.
pub data Step : Machine → Machine → Type 0 where
  -- acquire, up to its loop: push_off(), and a panic where `holding` is true
  enter :
      (i : ℕ) (m : Machine)
      → m.stage i ≡ outside
      → holding i m.lock ≡ false
      → Step m (record m {
        stage = update m.stage i spinning;
        cpu = update m.cpu i (push_off (m.cpu i));
      })
  -- __sync_lock_test_and_set(&lk->locked, 1) != 0
  spin :
      (i : ℕ) (m : Machine)
      → m.stage i ≡ spinning
      → m.lock.locked ≡ true
      → Step m (record m { lock = record (m.lock) { locked = true } })
  -- __sync_lock_test_and_set(&lk->locked, 1) == 0
  swap :
      (i : ℕ) (m : Machine)
      → m.stage i ≡ spinning
      → m.lock.locked ≡ false
      → Step m
          (record m { lock = record (m.lock) { locked = true }; stage = update m.stage i swapped })
  -- lk->cpu = mycpu()
  take_over :
      (i : ℕ) (m : Machine)
      → m.stage i ≡ swapped
      → Step m
          (record m { lock = record (m.lock) { cpu = some i }; stage = update m.stage i inside })
  -- release, up to lk->cpu = 0: it panics where `holding` is false
  leave :
      (i : ℕ) (m : Machine)
      → m.stage i ≡ inside
      → holding i m.lock ≡ true
      → Step m
          (record m { lock = record (m.lock) { cpu = none }; stage = update m.stage i leaving })
  -- __sync_lock_release(&lk->locked)
  unlock :
      (i : ℕ) (m : Machine)
      → m.stage i ≡ leaving
      → Step m (record m {
        lock = record (m.lock) { locked = false };
        stage = update m.stage i unlocked;
      })
  -- pop_off(), which panics where it is `none`
  undo :
      (i : ℕ) (m : Machine) (c : Cpu)
      → m.stage i ≡ unlocked
      → pop_off (m.cpu i) ≡ some c
      → Step m (record m { stage = update m.stage i outside; cpu = update m.cpu i c })
  -- the push_off() of another lock
  push_other :
      (i : ℕ) (m : Machine)
      → IsElsewhere (m.stage i)
      → Step m (record m {
        cpu = update m.cpu i (push_off (m.cpu i));
        pending = update m.pending i (m.pending i + 1);
      })
  -- the pop_off() of another lock
  pop_other :
      (i k : ℕ) (m : Machine) (c : Cpu)
      → IsElsewhere (m.stage i)
      → m.pending i ≡ k + 1
      → pop_off (m.cpu i) ≡ some c
      → Step m (record m { cpu = update m.cpu i c; pending = update m.pending i k })
  -- intr_on(), intr_off(), a trap and its return, where no push_off() is pending
  set_interrupts :
      (i : ℕ) (b : Bool) (m : Machine)
      → m.stage i ≡ outside
      → m.pending i ≡ 0
      → Step m (record m { cpu = update m.cpu i (record (m.cpu i) { interrupts = b }) })
  -- mycpu()->intena = intena in `sched`
  set_intena :
      (i : ℕ) (b : Bool) (m : Machine)
      → Step m (record m { cpu = update m.cpu i (record (m.cpu i) { intena = b }) })

-- The states that a machine reaches whose lock is new, where no `push_off` is pending at first.
pub data Reachable : Machine → Type 0 where
  start :
      (c : ℕ → Cpu)
      → ((i : ℕ) → (c i).noff ≡ 0)
      → Reachable (record { lock = initlock; stage = λ _. outside; cpu = c; pending = λ _. 0 })
  next : (m n : Machine) → Reachable m → Step m n → Reachable n
