-- ===== src/Sched/Mlfq.antt =====
-- The arrays `queue0` .. `queue4` of kernel/proc.c, with `remove_from_queue`; the children hold the
-- ageing and the serving of a queue in the MLFQ branch of `scheduler()`.
pub mod Remove
pub mod Ageing
pub mod Serve
use modified_riscv.Base.{
  ℕ, zero, suc, ◌+◌, ◌-◌, Bool, true, false, Option, none, some, List, [], ◌∷◌, ◌==◌, if◌then◌else◌,
  update, get_elem?, ◌>>=◌,
}
use modified_riscv.Proc.{Proc}

-- One queue: the array of pointers into the process table (`none` is null), and `queueN_ptr + 1`,
-- the number of entries.
pub record Queue : Type 0 where
  pub slot : ℕ → Option ℕ
  pub len : ℕ

-- the entries from index `i` on
abbrev pub entries : (ℕ → Option ℕ) → ℕ → ℕ → List (Option ℕ)
entries slot i zero = []
entries slot i (suc n) = slot i ∷ entries slot (i + 1) n

abbrev pub contents : Queue → List (Option ℕ)
contents q = entries q.slot 0 q.len

-- queue[i]->pid, a fault at a null pointer
unfoldable pub pid_of : List Proc → Option ℕ → Option ℕ
pid_of table ptr = ptr >>= λ i. get_elem? table i >>= λ p. some p.pid

-- for(int j=i; ...; j++) queue[j] = queue[j+1]; with the number of rounds
unfoldable pub shift : ℕ → ℕ → (ℕ → Option ℕ) → ℕ → Option ℕ
shift j zero slot = slot
shift j (suc k) slot = shift (j + 1) k (update slot j (slot (j + 1)))

-- The loop of `remove_from_queue`, from index `i` with `n` entries left.
pub remove_loop : List Proc → ℕ → ℕ → ℕ → Queue → Option Queue
unfolding pid_of shift
remove_loop table pid i zero q = some q
remove_loop table pid i (suc n) q =
    let rest = remove_loop table pid (i + 1) n q in
    let shifted = shift i (q.len - 1 - i) q.slot in
    pid_of table (q.slot i) >>= λ pid'.
    if pid' == pid then some (record { slot = shifted; len = q.len - 1 }) else rest

-- The five cases of `remove_from_queue` differ in the array alone.
pub remove_from_queue : List Proc → ℕ → Queue → Option Queue
unfolding remove_loop
remove_from_queue table pid q = remove_loop table pid 0 q.len q
