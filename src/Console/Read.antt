-- ===== src/Console/Read.antt =====
-- kernel/console.c: `consoleread` and `consolewrite`.
pub mod Lines
mod Output
use modified_riscv.Base.{
  ℕ, zero, suc, ◌+◌, ◌-◌, ◌%◌, ◌^◌, Bool, true, false, Option, none, some, List, [], ◌∷◌, ltb, ◌==◌,
  if◌then◌else◌,
}
use modified_riscv.Console.{Cons, input_buf_size}

-- `returned` with a count, -1, or asleep with the count of the bytes read so far.
pub data Outcome : Type 0 where
  returned : ℕ → Outcome
  failed : Outcome
  slept : ℕ → Outcome

-- cons.r++ and cons.r--
abbrev pub advance : Cons → Cons
advance c = record c { r = (c.r + 1) % 2 ^ 32 }

abbrev pub retreat : Cons → Cons
retreat c = record c { r = (c.r + 2 ^ 32 - 1) % 2 ^ 32 }

-- cons.buf[cons.r % INPUT_BUF_SIZE]
abbrev pub next_char : Cons → ℕ
next_char c = c.buf (c.r % input_buf_size)

-- After `i` bytes, with `n` more wanted: how the call ends, the bytes that it copies out, and `cons`.
-- `copies i` is whether byte `i` of the user's buffer can be written; Control-D is 4.
unfoldable pub consoleread : (ℕ → Bool) → Bool → ℕ → ℕ → Cons → (Outcome × List ℕ) × Cons
consoleread copies killed i zero c = ((returned i, []), c)
consoleread copies killed i (suc n) c =
    let ch = next_char c in
    let ((how, out), after) = consoleread copies killed (i + 1) n (advance c) in
    if c.r == c.w
    then (if killed then ((failed, []), c) else ((slept i, []), c))
    else if ch == 4
    then ((returned i, []), if ltb 0 i then retreat (advance c) else advance c)
    else if copies i
    then (if ch == 10 then ((returned (i + 1), ch ∷ []), advance c) else ((how, ch ∷ out), after))
    else ((returned i, []), advance c)

-- The bytes given to `uartputc`, and the result. `copyin i` is byte `i` of the user's buffer, if it
-- can be read.
unfoldable pub consolewrite : (ℕ → Option ℕ) → ℕ → ℕ → List ℕ × ℕ
consolewrite copyin i zero = ([], i)
consolewrite copyin i (suc n) =
    let (out, result) = consolewrite copyin (i + 1) n in
    elim (copyin i) [ none ↦ ([], i) | some c ↦ (c ∷ out, result) ]
