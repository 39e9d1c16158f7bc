-- ===== src/Uart.antt =====
-- kernel/uart.c: the output buffer, and the interrupt, which feeds the console. A part under
-- `uart_tx_lock` is one atomic step; the `for(;;)` after a panic is left out.
pub mod Queue
pub mod Order
mod Tests
use modified_riscv.Base.{
  ℕ, zero, suc, ◌+◌, ◌%◌, ◌^◌, Bool, true, false, ◌||◌, not, Option, none, some, List, [], ◌∷◌,
  ◌++◌, ◌==◌, ◌≡◌, if◌then◌else◌, update,
}
use modified_riscv.Console.{Cons, consoleintr}

abbrev pub uart_tx_buf_size : ℕ
uart_tx_buf_size = 32

-- uart_tx_buf, uart_tx_w and uart_tx_r; the last two are `uint64`s.
pub record Uart : Type 0 where
  pub buf : ℕ → ℕ
  pub w : ℕ
  pub r : ℕ

-- uart_tx_buf[uart_tx_r % UART_TX_BUF_SIZE]
abbrev pub next_char : Uart → ℕ
next_char u = u.buf (u.r % uart_tx_buf_size)

-- uart_tx_r += 1
abbrev pub drop_char : Uart → Uart
drop_char u = record u { r = (u.r + 1) % 2 ^ 64 }

-- The loop of `uartstart`: the characters written to the device, and the buffer. `idle i` is whether
-- LSR has LSR_TX_IDLE at the i-th look. A round takes a character from the buffer, so that fuel for its
-- size is enough.
unfoldable pub send_loop : (ℕ → Bool) → ℕ → ℕ → Uart → List ℕ × Uart
send_loop idle i zero u = ([], u)
send_loop idle i (suc n) u =
    let (sent, after) = send_loop idle (i + 1) n (drop_char u) in
    if u.w == u.r then ([], u) else if not (idle i) then ([], u) else (next_char u ∷ sent, after)

unfoldable pub uartstart : (ℕ → Bool) → Uart → List ℕ × Uart
unfolding send_loop
uartstart idle u = send_loop idle 0 uart_tx_buf_size u

-- uart_tx_w == uart_tx_r + UART_TX_BUF_SIZE
abbrev pub has_no_room : Uart → Bool
has_no_room u = u.w == (u.r + uart_tx_buf_size) % 2 ^ 64

-- uart_tx_buf[uart_tx_w % UART_TX_BUF_SIZE] = c; uart_tx_w += 1;
abbrev pub put_char : ℕ → Uart → Uart
put_char c u = record u { buf = update u.buf (u.w % uart_tx_buf_size) c; w = (u.w + 1) % 2 ^ 64 }

-- `uartputc` from the test of its loop on: `none` where it sleeps.
unfoldable pub uartputc : (ℕ → Bool) → ℕ → Uart → Option (List ℕ × Uart)
unfolding uartstart
uartputc idle c u = if has_no_room u then none else some (uartstart idle (put_char c u))

-- The loop of `uartintr` over the characters that `uartgetc` gives before its -1.
unfoldable pub receive : List ℕ → Cons → Cons
unfolding consoleintr
receive [] cons = cons
receive (c ∷ cs) cons = receive cs (consoleintr c cons)

unfoldable pub uartintr : (ℕ → Bool) → List ℕ → Cons → Uart → List ℕ × Uart × Cons
unfolding uartstart receive
uartintr idle input cons u =
    let (sent, after) = uartstart idle u in (sent, after, receive input cons)

-- The calls of the two halves of the driver in any order, with the characters that were put into it,
-- and those that it has sent.
pub data Runs : Uart × Cons → List ℕ → List ℕ → Uart × Cons → Type 0 where
  starts : (s : Uart × Cons) → Runs s [] [] s
  puts :
      (s : Uart × Cons) (put sent : List ℕ) (u : Uart) (cons : Cons)
      → Runs s put sent (u, cons)
      → (idle : ℕ → Bool) (c : ℕ) (out : List ℕ) (after : Uart)
      → uartputc idle c u ≡ some (out, after)
      → Runs s (put ++ (c ∷ [])) (sent ++ out) (after, cons)
  interrupts :
      (s : Uart × Cons) (put sent : List ℕ) (u : Uart) (cons : Cons)
      → Runs s put sent (u, cons)
      → (idle : ℕ → Bool) (input : List ℕ)
      → Runs s put
          (sent ++ (uartintr idle input cons u).0)
          ((uartintr idle input cons u).1, (uartintr idle input cons u).2)
