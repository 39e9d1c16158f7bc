-- ===== src/Strings/Tests.antt =====
-- Copies at work, and the theorems at these inputs.
use modified_riscv.Base.{if◌then◌else◌, ◌==◌, inr, arith, ℕ, ◌+◌, ◌<◌, ◌≡◌, refl}
use modified_riscv.Strings.{memmove}
use modified_riscv.Strings.Null.{strncpy, safestrcpy}
use modified_riscv.Strings.Null.Copy.{IsTerminated, safestrcpy-IsTerminated}
use modified_riscv.Strings.Moves.{IsBeside, memmove_lem}

abbrev bytes : ℕ → ℕ
bytes a = a + 100

-- The ranges from 2 and from 4 overlap.
memmove_lem_example :
    ((k : ℕ) → k < 5 → memmove 4 2 5 bytes (4 + k) ≡ bytes (2 + k))
    × ((a : ℕ) → IsBeside 4 5 a → memmove 4 2 5 bytes a ≡ bytes a)
memmove_lem_example = memmove_lem 4 2 5 bytes

last_byte : memmove 4 2 5 bytes 8 ≡ 106
unfolding memmove
last_byte = refl

-- "ab" at 10, in memory that is 7 behind it.
abbrev text : ℕ → ℕ
text a = if a == 10 then 97 else if a == 11 then 98 else if a == 12 then 0 else 7

padded_runs : strncpy 20 10 5 text 24 ≡ 0
unfolding strncpy
padded_runs = refl

safestrcpy-IsTerminated_example : IsTerminated 20 10 2 text (safestrcpy 20 10 2 text)
safestrcpy-IsTerminated_example =
    safestrcpy-IsTerminated 2 20 10 text (omega arith) (inr (omega arith))
