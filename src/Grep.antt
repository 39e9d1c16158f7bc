-- ===== src/Grep.antt =====
-- user/grep.c: the matcher of regular expressions. A string is the list of its characters before the
-- null byte.
pub mod Language
mod Tests
use modified_riscv.Base.{ℕ, Bool, true, false, ◌&&◌, ◌||◌, List, [], ◌∷◌, ◌==◌, if◌then◌else◌}

-- c == '.' || c == t
abbrev pub accepts : ℕ → ℕ → Bool
accepts c t = (c == 46) || (c == t)

abbrev pub at_end : List ℕ → Bool
at_end [] = true
at_end (t ∷ text) = false

-- The test of one character in `matchhere`, and what follows.
abbrev pub match_one : ℕ → (List ℕ → Bool) → List ℕ → Bool
match_one c rest [] = false
match_one c rest (t ∷ text) = accepts c t && rest text

-- `matchstar c re text`, with `matchhere re` as `rest`
unfoldable pub matchstar : ℕ → (List ℕ → Bool) → List ℕ → Bool
matchstar c rest [] = rest []
matchstar c rest (t ∷ text) = rest (t ∷ text) || (accepts c t && matchstar c rest text)

unfoldable pub matchhere : List ℕ → List ℕ → Bool
unfolding matchstar
matchhere [] text = true
matchhere (c ∷ []) text = if c == 36 then at_end text else match_one c (matchhere []) text
matchhere (c ∷ d ∷ re) text =
    let star = matchstar c (matchhere re) text in
    let one = match_one c (matchhere (d ∷ re)) text in if d == 42 then star else one

-- do ... while(*text++ != '\0')
unfoldable pub match_from : List ℕ → List ℕ → Bool
unfolding matchhere
match_from re [] = matchhere re []
match_from re (t ∷ text) = matchhere re (t ∷ text) || match_from re text

unfoldable pub match : List ℕ → List ℕ → Bool
unfolding match_from
match [] text = match_from [] text
match (c ∷ re) text =
    let anywhere = match_from (c ∷ re) text in if c == 94 then matchhere re text else anywhere
