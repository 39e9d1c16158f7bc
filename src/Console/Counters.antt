-- ===== src/Console/Counters.antt =====
-- The counters of the console's buffer.
use modified_riscv.Base.{
  ℕ, zero, suc, ◌+◌, ◌%◌, ◌^◌, ◌≤◌, ◌<◌, ◌≡◌, inl, inr, refl, true, false, ◌&&◌, ◌||◌, not, ltb,
  ◌==◌, ◌≢◌, update_ne, arith, Bool-cases,
}
use modified_riscv.Console.{
  input_buf_size, Cons, step_back, last_char, kill_line, backspace, held_chars, publish, newline,
  append_char, add_char, consoleintr,
}

-- `ready` characters wait to be read, and behind them `edited` ones can still be erased.
pub record IsBuffered (ready edited : ℕ) (c : Cons) : Type 0 where
  pub small : c.r < 2 ^ 32
  pub written : c.w ≡ (c.r + ready) % 2 ^ 32
  pub typed : c.e ≡ (c.r + ready + edited) % 2 ^ 32
  pub fits : ready + edited ≤ input_buf_size

back-IsBuffered :
    (ready edited : ℕ) (c : Cons)
    → IsBuffered ready (suc edited) c
    → IsBuffered ready edited (step_back c)
back-IsBuffered ready edited c h = record {
  small = h.small;
  written = h.written;
  typed = omega (arith, h.typed);
  fits = omega (arith, h.fits);
}

at_start : (ready edited : ℕ) (c : Cons) → IsBuffered ready edited c → (c.e == c.w) ≡ (edited == 0)
at_start ready edited c h = by_numbers c.r c.w c.e h.written h.typed h.fits
  where
    by_numbers :
        (r w e : ℕ)
        → w ≡ (r + ready) % 2 ^ 32
        → e ≡ (r + ready + edited) % 2 ^ 32
        → ready + edited ≤ input_buf_size
        → (e == w) ≡ (edited == 0)
    by_numbers r w e p q f = ground arith

held_chars-eq :
    (ready edited : ℕ) (c : Cons) → IsBuffered ready edited c → held_chars c ≡ ready + edited
held_chars-eq ready edited c h = omega (arith, h.small, h.typed, h.fits)

append-IsBuffered :
    (ready edited ch : ℕ) (c : Cons)
    → IsBuffered ready edited c
    → ready + edited < input_buf_size
    → IsBuffered ready (suc edited) (append_char ch c)
append-IsBuffered ready edited ch c h room = record {
  small = h.small;
  written = h.written;
  typed = omega (arith, h.typed);
  fits = omega arith;
}

-- What a character may do to the buffer `c`, of which `ready` characters wait to be read.
abbrev pub Keeps : ℕ → Cons → Cons → Type 0
Keeps ready c after =
    (ready' : ℕ) × (edited' : ℕ) × IsBuffered ready' edited' after
    × (ready ≤ ready')
    × (after.r ≡ c.r)
    × ((k : ℕ)
        → k < ready
        → after.buf ((c.r + k) % input_buf_size) ≡ c.buf ((c.r + k) % input_buf_size))

unchanged : (ready edited : ℕ) (c : Cons) → IsBuffered ready edited c → Keeps ready c c
unchanged ready edited c h = (ready, edited, h, omega arith, refl, λ k lt. refl)

kill_line-Keeps :
    (n ready edited : ℕ) (c : Cons) → IsBuffered ready edited c → Keeps ready c (kill_line n c)
unfolding kill_line
kill_line-Keeps zero ready edited c h = unchanged ready edited c h
kill_line-Keeps (suc n) ready zero c h = rw (at_start ready zero c h) (unchanged ready zero c h)
kill_line-Keeps (suc n) ready (suc edited) c h =
    elim (Bool-cases (not (c.e == c.w) && not (last_char c == 10))) [
      | inl go ↦
          rw go (kill_line-Keeps n ready edited (step_back c) (back-IsBuffered ready edited c h))
      | inr stop ↦ rw stop (unchanged ready (suc edited) c h)
    ]

backspace-Keeps :
    (ready edited : ℕ) (c : Cons) → IsBuffered ready edited c → Keeps ready c (backspace c)
backspace-Keeps ready zero c h = rw (at_start ready zero c h) (unchanged ready zero c h)
backspace-Keeps ready (suc edited) c h = elim (Bool-cases (c.e == c.w)) [
  | inl start ↦ rw start (unchanged ready (suc edited) c h)
  | inr go ↦
      rw go (ready, edited, back-IsBuffered ready edited c h, omega arith, refl, λ k lt. refl)
]

publish-IsBuffered :
    (ready edited : ℕ) (c : Cons)
    → IsBuffered ready edited c
    → IsBuffered (ready + edited) 0 (record c { w = c.e })
publish-IsBuffered ready edited c h = record {
  small = h.small;
  written = omega (arith, h.typed);
  typed = omega (arith, h.typed);
  fits = omega (arith, h.fits);
}

-- Where a character goes is none of the places that wait to be read.
apart :
    (ready edited k : ℕ) (c : Cons)
    → IsBuffered ready edited c
    → ready + edited < input_buf_size
    → k < ready
    → c.e % input_buf_size ≢ (c.r + k) % input_buf_size
apart ready edited k c h room lt = omega (arith, h.typed)

add_char-Keeps :
    (ready edited ch : ℕ) (c : Cons) → IsBuffered ready edited c → Keeps ready c (add_char ch c)
unfolding add_char
add_char-Keeps ready edited ch c h =
    elim (Bool-cases (not (ch == 0) && ltb (held_chars c) input_buf_size)) [
      | inr full ↦ rw full (unchanged ready edited c h)
      | inl open_place ↦ rw open_place (published (room open_place))
    ]
  where
    room :
        (not (ch == 0) && ltb (held_chars c) input_buf_size) ≡ true
        → ready + edited < input_buf_size
    room e = room_of (held_chars c) e (held_chars-eq ready edited c h)
      where
        room_of :
            (n : ℕ)
            → (not (ch == 0) && ltb n input_buf_size) ≡ true
            → n ≡ ready + edited
            → ready + edited < input_buf_size
        room_of n e p = ground arith

    published :
        ready + edited < input_buf_size
        → Keeps ready c (publish (newline ch) (append_char (newline ch) c))
    published small =
        elim (Bool-cases (
          newline ch == 10
          || newline ch == 4
          || held_chars (append_char (newline ch) c) == input_buf_size)) [
            | inl line ↦ rw line (
              ready + suc edited,
              0,
              publish-IsBuffered ready (suc edited) (append_char (newline ch) c)
                  (append-IsBuffered ready edited (newline ch) c h small),
              omega arith,
              refl,
              λ k lt. update_ne c.buf _ _ (newline ch) (apart ready edited k c h small lt),
            )
            | inr more ↦ rw more (
              ready,
              suc edited,
              append-IsBuffered ready edited (newline ch) c h small,
              omega arith,
              refl,
              λ k lt. update_ne c.buf _ _ (newline ch) (apart ready edited k c h small lt),
            )
          ]

-- Whatever character arrives, `consoleintr` keeps the counters of the console in order, with at most
-- 128 characters held; no character that waits to be read is taken back or overwritten, and the read
-- index stays.
pub consoleintr-Keeps :
    (ready edited ch : ℕ) (c : Cons) → IsBuffered ready edited c → Keeps ready c (consoleintr ch c)
unfolding consoleintr
consoleintr-Keeps ready edited ch c h = elim (Bool-cases (ch == 16)) [
  | inl p ↦ rw p (unchanged ready edited c h)
  | inr not_p ↦ rw not_p (elim (Bool-cases (ch == 21)) [
    | inl u ↦ rw u (kill_line-Keeps input_buf_size ready edited c h)
    | inr not_u ↦ rw not_u (elim (Bool-cases (ch == 8 || ch == 127)) [
      | inl b ↦ rw b (backspace-Keeps ready edited c h)
      | inr other ↦ rw other (add_char-Keeps ready edited ch c h)
    ])
  ])
]

-- `kill_line`, with fuel for the characters that can be erased, ends by its test: at the start of the
-- line or behind a newline.
pub kill_line_lem :
    (n ready edited : ℕ) (c : Cons)
    → IsBuffered ready edited c
    → edited ≤ n
    → (not ((kill_line n c).e == (kill_line n c).w) && not (last_char (kill_line n c) == 10))
      ≡ false
unfolding kill_line
kill_line_lem zero ready zero c h le = rw (at_start ready zero c h) refl
kill_line_lem zero ready (suc edited) c h le = absurd (omega arith)
kill_line_lem (suc n) ready zero c h le =
    rw (at_start ready zero c h) (rw (at_start ready zero c h) refl)
kill_line_lem (suc n) ready (suc edited) c h le =
    elim (Bool-cases (not (c.e == c.w) && not (last_char c == 10))) [
      | inl go ↦ rw go (
          kill_line_lem n ready edited (step_back c) (back-IsBuffered ready edited c h)
            (omega arith))
      | inr stop ↦ rw (stop, stop) refl
    ]
