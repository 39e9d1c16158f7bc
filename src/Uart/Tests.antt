-- ===== src/Uart/Tests.antt =====
-- The driver with counters that are about to wrap, and the theorems at these inputs.
use modified_riscv.Base.{ℕ, ◌≡◌, ◌<◌, refl, true, false, some, [], ◌∷◌, arith, update, leb}
use modified_riscv.Console.{Cons}
use modified_riscv.Console.Counters.{IsBuffered}
use modified_riscv.Uart.{
  Uart, put_char, uartstart, uartputc, uartintr, Runs, starts, puts, interrupts,
}
use modified_riscv.Uart.Queue.{Holds}
use modified_riscv.Uart.Order.{InOrder, Runs-InOrder, uartstart-drains}

-- The character 104 at the last position before the counters wrap.
abbrev one_char : Uart
one_char = record { buf = update (λ _. 0) 31 104; w = 0; r = 0xffffffffffffffff }

one_char-Holds : Holds one_char (104 ∷ [])
one_char-Holds = record {
  reads = omega arith;
  writes = omega arith;
  fits = omega arith;
  window = (refl, tt);
}

abbrev quiet : Cons
quiet = record { buf = λ _. 0; r = 0; w = 0; e = 0 }

quiet-IsBuffered : IsBuffered 0 0 quiet
quiet-IsBuffered = record {
  small = omega arith;
  written = omega arith;
  typed = omega arith;
  fits = omega arith;
}

-- The device is busy while 105 is put in, and an interrupt finds it idle for one character.
abbrev two_chars : Uart
two_chars = put_char 105 one_char

waits : uartputc (λ _. false) 105 one_char ≡ some ([], two_chars)
unfolding uartputc
waits = refl

two-Runs :
    Runs
      (one_char, quiet)
      (105 ∷ [])
      (uartintr (λ i. leb i 0) (97 ∷ []) quiet two_chars).0
      (
        (uartintr (λ i. leb i 0) (97 ∷ []) quiet two_chars).1,
        (uartintr (λ i. leb i 0) (97 ∷ []) quiet two_chars).2,
      )
two-Runs =
    interrupts (one_char, quiet) (105 ∷ []) [] two_chars quiet
      (puts (one_char, quiet) [] [] one_char quiet (starts (one_char, quiet)) (λ _. false) 105 []
        two_chars waits)
      (λ i. leb i 0) (97 ∷ [])

sends_the_first : (uartintr (λ i. leb i 0) (97 ∷ []) quiet two_chars).0 ≡ 104 ∷ []
unfolding uartintr
sends_the_first = refl

Runs-InOrder_example :
    InOrder (104 ∷ []) (105 ∷ []) (uartintr (λ i. leb i 0) (97 ∷ []) quiet two_chars).0 (
      (uartintr (λ i. leb i 0) (97 ∷ []) quiet two_chars).1,
      (uartintr (λ i. leb i 0) (97 ∷ []) quiet two_chars).2,
    )
Runs-InOrder_example =
    Runs-InOrder (one_char, quiet) _ (104 ∷ []) (105 ∷ []) _ 0 0 one_char-Holds quiet-IsBuffered
      two-Runs

uartstart-drains_example :
    ((uartstart (λ i. leb i 0) one_char).0 ≡ (104 ∷ []))
    × Holds (uartstart (λ i. leb i 0) one_char).1 []
uartstart-drains_example =
    uartstart-drains (λ i. leb i 0) (104 ∷ []) one_char one_char-Holds (λ i lt. idle_first i lt)
  where
    idle_first : (i : ℕ) → i < 1 → leb i 0 ≡ true
    idle_first i lt = ground arith
