-- ===== src/Console/Tests.antt =====
-- The line editor at work, and the theorems at these inputs.
use modified_riscv.Base.{true, [], ◌∷◌, ◌≡◌, refl, false, arith, update}
use modified_riscv.Console.{Cons, consoleintr}
use modified_riscv.Console.Counters.{IsBuffered, Keeps, consoleintr-Keeps}
use modified_riscv.Console.Read.{returned, advance, consoleread}

-- One character waits to be read and two can be erased; the last counter has wrapped.
abbrev typing : Cons
typing = record {
  buf = update (update (update (λ _. 0) 126 10) 127 65) 0 66;
  r = 0xfffffffe;
  w = 0xffffffff;
  e = 1;
}

typing-IsBuffered : IsBuffered 1 2 typing
typing-IsBuffered = record {
  small = omega arith;
  written = omega arith;
  typed = omega arith;
  fits = omega arith;
}

consoleintr-Keeps_example : Keeps 1 typing (consoleintr 67 typing)
consoleintr-Keeps_example = consoleintr-Keeps 1 2 67 typing typing-IsBuffered

erases_both : (consoleintr 21 typing).e ≡ 0xffffffff
unfolding consoleintr
erases_both = refl

-- The newline that waits is read, and ends the read of five bytes.
reads_line : consoleread (λ _. true) false 0 5 typing ≡ ((returned 1, 10 ∷ []), advance typing)
unfolding consoleread
reads_line = refl
