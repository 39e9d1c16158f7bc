-- ===== src/Console.antt =====
-- kernel/console.c: here the line editor, `consoleintr`, with its echo and its wakeup left out: they
-- change nothing of `cons`. The counters are `uint`s.
pub mod Counters
pub mod Read
mod Tests
use modified_riscv.Base.{
  ℕ, zero, suc, ◌+◌, ◌-◌, ◌%◌, ◌^◌, Bool, true, false, ◌&&◌, ◌||◌, not, ltb, ◌==◌, if◌then◌else◌,
  update,
}

abbrev pub input_buf_size : ℕ
input_buf_size = 128

-- cons: `r`, `w` and `e` are the read, write and edit indices.
pub record Cons : Type 0 where
  pub buf : ℕ → ℕ
  pub r : ℕ
  pub w : ℕ
  pub e : ℕ

-- cons.e-- and cons.buf[(cons.e-1) % INPUT_BUF_SIZE]
abbrev pub step_back : Cons → Cons
step_back c = record c { e = (c.e + 2 ^ 32 - 1) % 2 ^ 32 }

abbrev pub last_char : Cons → ℕ
last_char c = c.buf ((c.e + 2 ^ 32 - 1) % 2 ^ 32 % input_buf_size)

-- C('U'): back to the start of the line, on fuel.
unfoldable pub kill_line : ℕ → Cons → Cons
kill_line zero c = c
kill_line (suc n) c =
    let rest = kill_line n (step_back c) in
    if not (c.e == c.w) && not (last_char c == 10) then rest else c

-- C('H') and the delete key
abbrev pub backspace : Cons → Cons
backspace c = if c.e == c.w then c else step_back c

-- cons.e - cons.r
abbrev pub held_chars : Cons → ℕ
held_chars c = (c.e + 2 ^ 32 - c.r) % 2 ^ 32

-- The end of `default`: at the end of a line, of the file or of the buffer, `cons.w = cons.e`.
abbrev pub publish : ℕ → Cons → Cons
publish ch c =
    if ch == 10 || ch == 4 || held_chars c == input_buf_size then record c { w = c.e } else c

-- c = (c == '\r') ? '\n' : c
abbrev pub newline : ℕ → ℕ
newline ch = if ch == 13 then 10 else ch

abbrev pub append_char : ℕ → Cons → Cons
append_char ch c = record c { buf = update c.buf (c.e % input_buf_size) ch; e = (c.e + 1) % 2 ^ 32 }

unfoldable pub add_char : ℕ → Cons → Cons
add_char ch c =
    if not (ch == 0) && ltb (held_chars c) input_buf_size
    then publish (newline ch) (append_char (newline ch) c)
    else c

-- The characters of control-P, -U and -H are 16, 21 and 8, that of the delete key 127.
unfoldable pub consoleintr : ℕ → Cons → Cons
unfolding kill_line add_char
consoleintr ch c =
    if ch == 16
    then c
    else if ch == 21
    then kill_line input_buf_size c
    else if ch == 8 || ch == 127
    then backspace c
    else add_char ch c
