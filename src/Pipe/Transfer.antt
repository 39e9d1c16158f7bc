-- ===== src/Pipe/Transfer.antt =====
-- What `pipewrite` and `piperead` move through the queue of a pipe.
use modified_riscv.Base.{
  ℕ, ◌+◌, ◌≤◌, ◌≡◌, ◌⊎◌, Bool, true, false, Option, none, some, List, [], ◌∷◌, ◌++◌, length,
}
use modified_riscv.Pipe.{Pipe, pipesize, Ends, returns, fails, sleeps}
use modified_riscv.Pipe.Fifo.{IsQueue}

-- `bs` are the bytes from `i` on of the user's buffer.
abbrev pub IsBuffer : (ℕ → Option ℕ) → ℕ → List ℕ → Type 0
IsBuffer copyin i [] = Unit
IsBuffer copyin i (b ∷ bs) = (copyin i ≡ some b) × IsBuffer copyin (i + 1) bs

-- How a write of `n` bytes from `i` on ends, that has put `bs` behind `q`.
abbrev pub EndsWrite : (ℕ → Option ℕ) → (ℕ → Bool) → ℕ → ℕ → List ℕ → List ℕ → Pipe → Ends → Type 0
EndsWrite copyin killed i n q bs pi (returns r) =
    (r ≡ i + length bs) × ((length bs ≡ n) ⊎ (copyin r ≡ none))
EndsWrite copyin killed i n q bs pi fails = (pi.readopen ≡ false) ⊎ (killed (i + length bs) ≡ true)
EndsWrite copyin killed i n q bs pi (sleeps r) = (r ≡ i + length bs) × (length (q ++ bs) ≡ pipesize)

abbrev pub Written : (ℕ → Option ℕ) → (ℕ → Bool) → ℕ → ℕ → List ℕ → Ends × Pipe → Type 0
Written copyin killed i n q (e, pi) =
    (bs : List ℕ) × IsQueue pi (q ++ bs)
    × IsBuffer copyin i bs
    × (length bs ≤ n)
    × EndsWrite copyin killed i n q bs pi e

-- How a read of `n` bytes ends that has taken `bs` and left the rest of the queue: the byte that
-- cannot be copied out is taken as well.
abbrev pub EndsRead : (ℕ → Bool) → ℕ → ℕ → List ℕ → List ℕ → Pipe → Type 0
EndsRead copies i n bs rest pi =
    (IsQueue pi rest × ((length bs ≡ n) ⊎ (rest ≡ [])))
    ⊎ ((x : ℕ) × (rest' : List ℕ) × (rest ≡ x ∷ rest')
        × (copies (i + length bs) ≡ false)
        × IsQueue pi rest')

abbrev pub Taken : (ℕ → Bool) → ℕ → ℕ → List ℕ → (List ℕ × ℕ) × Pipe → Type 0
Taken copies i n q ((bs, r), pi) =
    (rest : List ℕ) × (q ≡ bs ++ rest)
    × (r ≡ i + length bs)
    × (length bs ≤ n)
    × EndsRead copies i n bs rest pi

-- How `piperead` ends: it sleeps or fails on an empty pipe that has a writer, by whether the caller
-- is killed.
abbrev pub IsRead : (ℕ → Bool) → Bool → ℕ → List ℕ → Pipe → (Ends × List ℕ) × Pipe → Type 0
IsRead copies killed n q pi ((returns r, bs), pi') =
    Taken copies 0 n q ((bs, r), pi') × ((q ≡ []) → pi.writeopen ≡ false)
IsRead copies killed n q pi ((fails, bs), pi') =
    (q ≡ []) × (pi.writeopen ≡ true) × (killed ≡ true) × (pi' ≡ pi)
IsRead copies killed n q pi ((sleeps r, bs), pi') =
    (q ≡ []) × (pi.writeopen ≡ true) × (killed ≡ false) × (pi' ≡ pi)
