-- ===== src/Sched/Lottery.antt =====
-- The LBS branch of `scheduler()` in kernel/proc.c (`#ifdef LBS`), and `getrand`.
pub mod Correct
use modified_riscv.Base.{
  ℕ, ◌+◌, ◌*◌, ◌/◌, ◌%◌, Bool, true, false, ◌&&◌, Option, none, some, List, [], ◌∷◌, if◌then◌else◌,
  ◌>>=◌,
}
use modified_riscv.Base.Int.{ℤ, pos, ltb_ℤ, ◌+ℤ◌, ◌*ℤ◌}
use modified_riscv.Proc.{Proc, is_runnable, running, modify}
use modified_riscv.Sched.Scan.{acquire, release}

-- getrand: the new seed and the number drawn. `nxt_seed` is between 0 and 99, so that the cast
-- `(int)((nxt_seed*1.0)/99)`, which binds tighter than the product, is the quotient of integers.
pub getrand : ℕ → ℤ → ℕ × ℤ
getrand seed tot_tickets =
    let nxt_seed = seed * seed % 100 in (nxt_seed, pos (nxt_seed / 99) *ℤ tot_tickets)

-- the first loop, `tot_tickets`
pub total_tickets : ℤ → List Proc → ℤ
total_tickets tot [] = tot
total_tickets tot (p ∷ ps) = total_tickets (if is_runnable p then tot +ℤ p.tickets else tot) ps

-- num_passed_tickets after process `p`
abbrev pub passed_by : Proc → ℤ → ℤ
passed_by p passed = if is_runnable p then passed +ℤ p.tickets else passed

abbrev pub wins : ℤ → Proc → ℤ → Bool
wins ans p passed = is_runnable p && ltb_ℤ ans (passed_by p passed)

-- the second loop, which leaves with the lock of the process that it found
pub draw : ℤ → List Proc → ℕ → ℤ → (ℕ → Bool) → Option (Option (ℕ × Proc) × (ℕ → Bool))
unfolding acquire release
draw ans [] i passed held = some (none, held)
draw ans (p ∷ ps) i passed held = acquire i held >>= λ h. elim (wins ans p passed) [
  | true ↦ some (some (i, p), h)
  | false ↦ release i h >>= λ h'. draw ans ps (i + 1) (passed_by p passed) h'
]

-- The machine at `swtch`.
pub record Dispatch : Type 0 where
  pub table : List Proc
  pub running_proc : Option ℕ
  pub held : ℕ → Bool
  pub seed : ℕ

abbrev pub set_running : Proc → Proc
set_running p = record p { state = running }

-- if(process) { ... } up to the switch
pub dispatch : List Proc → ℕ → Option (ℕ × Proc) → (ℕ → Bool) → Dispatch
dispatch ps seed none held = record { table = ps; running_proc = none; held = held; seed = seed }
dispatch ps seed (some (b, q)) held = record {
  table = modify b set_running ps;
  running_proc = some b;
  held = held;
  seed = seed;
}

pub pick : ℕ → List Proc → Option Dispatch
unfolding getrand total_tickets draw dispatch
pick seed ps =
    let (seed', ans) = getrand seed (total_tickets (pos 0) ps) in
    draw ans ps 0 (pos 0) (λ _. false) >>= λ r. some (dispatch ps seed' r.0 r.1)
