-- ===== src/Log/Space/Reserved.antt =====
-- The reservation is enough.
use modified_riscv.Base.{ℕ, ◌+◌, ◌≤◌, ◌≡◌, none, List, [], ◌∷◌, length}
use modified_riscv.Log.Space.{maxopblocks, logsize, Log, log_write, System}

abbrev pub total : List ℕ → ℕ
total [] = 0
total (x ∷ xs) = x + total xs

-- No operation may write more than its share.
abbrev pub AreSmall : List ℕ → Type 0
AreSmall [] = Unit
AreSmall (x ∷ xs) = (x ≤ maxopblocks) × AreSmall xs

pub record IsReserved (size : ℕ) (s : System) : Type 0 where
  pub same_size : s.log.size ≡ size
  pub counted : s.log.outstanding ≡ length s.left
  pub small : AreSmall s.left
  pub room : s.log.n + total s.left ≤ logsize

-- A log of LOGSIZE blocks is full at one block less: one of its blocks is the header.
abbrev pub IsFull : ℕ → ℕ → Log → Type 0
IsFull size b l = (log_write b l ≡ none) × (size ≡ logsize) × (l.n + 1 ≡ logsize)
