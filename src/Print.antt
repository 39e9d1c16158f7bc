-- ===== src/Print.antt =====
-- user/printf.c and `atoi` of user/ulib.c: what is printed, as the characters handed to `putc`. A `uint`
-- is reduced as in C. The arguments of `vprintf` are words, one for each `va_arg`.
pub mod Digits
pub mod Format
mod Tests
use modified_riscv.Base.{
  ℕ, zero, suc, ◌+◌, ◌-◌, ◌*◌, ◌/◌, ◌%◌, ◌^◌, Bool, true, false, ◌&&◌, ◌||◌, not, Option, none,
  some, List, [], ◌∷◌, ◌++◌, ltb, leb, ◌==◌, if◌then◌else◌, update, ◌>>=◌,
}

-- digits[d]
abbrev pub digit : ℕ → ℕ
digit d = if ltb d 10 then 48 + d else 55 + d

-- The loop of `printint`, with `i` and `buf`. A round divides by the base, so that fuel for the binary
-- digits of a `uint` is enough.
unfoldable pub fill : ℕ → ℕ → ℕ → ℕ → (ℕ → ℕ) → ℕ × (ℕ → ℕ)
fill zero base x i buf = (i, buf)
fill (suc n) base x i buf =
    let stored = update buf i (digit (x % base)) in
    let rest = fill n base (x / base) (i + 1) stored in
    if x / base == 0 then (i + 1, stored) else rest

-- while(--i >= 0) putc(fd, buf[i]);
unfoldable pub flush : ℕ → (ℕ → ℕ) → List ℕ
flush zero buf = []
flush (suc i) buf = buf i ∷ flush i buf

-- sgn && xx < 0, for the word of an `int`
abbrev pub is_negative : Bool → ℕ → Bool
is_negative sgn xx = sgn && leb (2 ^ 31) xx

-- x = -xx or x = xx
abbrev pub magnitude : Bool → ℕ → ℕ
magnitude sgn xx = if is_negative sgn xx then (2 ^ 32 - xx) % 2 ^ 32 else xx

-- `buf` and `i` before the characters are written, from the bytes that `buf` has at first.
unfoldable pub fill_int : ℕ → ℕ → Bool → (ℕ → ℕ) → ℕ × (ℕ → ℕ)
unfolding fill
fill_int xx base sgn garbage =
    let (i, buf) = fill 32 base (magnitude sgn xx) 0 garbage in
    if is_negative sgn xx then (i + 1, update buf i 45) else (i, buf)

unfoldable pub printint : ℕ → ℕ → Bool → (ℕ → ℕ) → List ℕ
unfolding fill_int flush
printint xx base sgn garbage = let (i, buf) = fill_int xx base sgn garbage in flush i buf

-- The loop of `printptr`, with the number of rounds left.
unfoldable pub hex_digits : ℕ → ℕ → List ℕ
hex_digits zero x = []
hex_digits (suc n) x = digit (x / 2 ^ 60) ∷ hex_digits n (x * 2 ^ 4 % 2 ^ 64)

unfoldable pub printptr : ℕ → List ℕ
unfolding hex_digits
printptr x = 48 ∷ 120 ∷ hex_digits 16 x

-- The loop of `atoi` over the characters before the null byte, without overflow of its `int`.
unfoldable pub atoi_from : ℕ → List ℕ → ℕ
atoi_from n [] = n
atoi_from n (c ∷ s) = if leb 48 c && leb c 57 then atoi_from (n * 10 + c - 48) s else n

unfoldable pub atoi : List ℕ → ℕ
unfolding atoi_from
atoi s = atoi_from 0 s

-- va_arg; `none` where no argument is left.
abbrev pub va_arg : List ℕ → Option (ℕ × List ℕ)
va_arg [] = none
va_arg (a ∷ args) = some (a, args)

-- The strings that pointers name, and the bytes that `buf` has at first
module _ (string_at : ℕ → List ℕ) (garbage : ℕ → ℕ) where
  -- if(s == 0) s = "(null)";
  abbrev pub text_of : ℕ → List ℕ
  text_of s = if s == 0 then 40 ∷ 110 ∷ 117 ∷ 108 ∷ 108 ∷ 41 ∷ [] else string_at s

  -- The character after a '%': what is printed, and the arguments left.
  unfoldable pub convert : ℕ → List ℕ → Option (List ℕ × List ℕ)
  unfolding printint printptr
  convert c args =
      if c == 100
      then (va_arg args >>= λ (a, rest). some (printint (a % 2 ^ 32) 10 true garbage, rest))
      else if c == 108
      then (va_arg args >>= λ (a, rest). some (printint (a % 2 ^ 32) 10 false garbage, rest))
      else if c == 120
      then (va_arg args >>= λ (a, rest). some (printint (a % 2 ^ 32) 16 false garbage, rest))
      else if c == 112
      then (va_arg args >>= λ (a, rest). some (printptr a, rest))
      else if c == 115
      then (va_arg args >>= λ (a, rest). some (text_of a, rest))
      else if c == 99
      then (va_arg args >>= λ (a, rest). some (a % 2 ^ 8 ∷ [], rest))
      else if c == 37
      then some (c ∷ [], args)
      else some (37 ∷ c ∷ [], args)

  -- The loop of `vprintf` over the format; the state is whether a '%' came just before.
  unfoldable pub format_loop : Bool → List ℕ → List ℕ → Option (List ℕ)
  unfolding convert
  format_loop state [] args = some []
  format_loop false (c ∷ fmt) args =
      let literal = format_loop false fmt args in
      let special = format_loop true fmt args in
      if c == 37 then special else (literal >>= λ later. some (c ∷ later))
  format_loop true (c ∷ fmt) args =
      convert c args >>= λ (out, rest). format_loop false fmt rest >>= λ later. some (out ++ later)

  unfoldable pub vprintf : List ℕ → List ℕ → Option (List ℕ)
  unfolding format_loop
  vprintf fmt args = format_loop false fmt args
