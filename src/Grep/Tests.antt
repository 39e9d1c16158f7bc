-- ===== src/Grep/Tests.antt =====
-- The matcher at short patterns.
use modified_riscv.Base.{ℕ, ◌≡◌, ◌↔◌, refl, true, false, List, [], ◌∷◌}
use modified_riscv.Grep.{match}
use modified_riscv.Grep.Language.{Contains, match-Contains}

-- "b*c$"
abbrev pattern : List ℕ
pattern = 98 ∷ 42 ∷ 99 ∷ 36 ∷ []

-- "abbc"
abbrev line : List ℕ
line = 97 ∷ 98 ∷ 98 ∷ 99 ∷ []

match_runs : match pattern line ≡ true
unfolding match
match_runs = refl

anchored_runs : match (94 ∷ pattern) line ≡ false
unfolding match
anchored_runs = refl

match-Contains_example : (match pattern line ≡ true) ↔ Contains pattern line
match-Contains_example = match-Contains pattern line
