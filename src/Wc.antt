-- ===== src/Wc.antt =====
-- user/wc.c: the counts of `wc`, over the pieces that `read` gives, without overflow of its `int`s; and
-- `strchr` of user/ulib.c.
pub mod Words
mod Tests
use modified_riscv.Base.{
  ℕ, zero, suc, ◌+◌, Bool, true, false, not, Option, none, some, List, [], ◌∷◌, ◌==◌, if◌then◌else◌,
}

-- Whether `strchr` finds the character before the null byte of the string.
unfoldable pub strchr : List ℕ → ℕ → Bool
strchr [] c = false
strchr (x ∷ s) c = if x == c then true else strchr s c

-- " \r\t\n\v"
abbrev pub spaces : List ℕ
spaces = 32 ∷ 13 ∷ 9 ∷ 10 ∷ 11 ∷ []

-- The variables of `wc`.
pub record Tally : Type 0 where
  pub l : ℕ
  pub w : ℕ
  pub c : ℕ
  pub inword : Bool

-- The body of the inner loop.
abbrev pub count_char : ℕ → Tally → Tally
count_char ch t =
    let lines = if ch == 10 then t.l + 1 else t.l in
    if strchr spaces ch
    then record { l = lines; w = t.w; c = t.c + 1; inword = false }
    else if not t.inword
    then record { l = lines; w = t.w + 1; c = t.c + 1; inword = true }
    else record { l = lines; w = t.w; c = t.c + 1; inword = t.inword }

-- The inner loop.
unfoldable pub count_buf : List ℕ → Tally → Tally
unfolding strchr
count_buf [] t = t
count_buf (ch ∷ buf) t = count_buf buf (count_char ch t)

-- The outer loop, over what the calls of `read` put into `buf`; `none` is a call that fails, and an
-- empty piece the end of the file.
unfoldable pub read_loop : List (Option (List ℕ)) → Tally → Option Tally
unfolding count_buf
read_loop [] t = some t
read_loop (none ∷ pieces) t = none
read_loop (some [] ∷ pieces) t = some t
read_loop (some (ch ∷ buf) ∷ pieces) t = read_loop pieces (count_buf (ch ∷ buf) t)

-- The tally that `wc` prints.
unfoldable pub wc : List (Option (List ℕ)) → Option Tally
unfolding read_loop
wc pieces = read_loop pieces (record { l = 0; w = 0; c = 0; inword = false })
