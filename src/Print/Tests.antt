-- ===== src/Print/Tests.antt =====
-- Numbers and formats that are printed, and the theorems at these inputs.
use modified_riscv.Base.{ℕ, ◌-◌, ◌%◌, ◌^◌, ◌≡◌, refl, true, some, List, [], ◌∷◌, ◌++◌, arith}
use modified_riscv.Print.{is_negative, fill, fill_int, flush, printint, vprintf}
use modified_riscv.Print.Digits.{Prints, printint-Prints}
use modified_riscv.Print.Format.{escape, vprintf-number}

abbrev zeros : ℕ → ℕ
zeros i = 0

minus_seven : printint (2 ^ 32 - 7) 10 true zeros ≡ 45 ∷ 55 ∷ []
unfolding printint fill_int fill flush
minus_seven = refl

printint-Prints_example :
    Prints 4294967295
      (is_negative true 4294967295)
      (fill_int 4294967295 10 true zeros)
      (printint 4294967295 10 true zeros)
printint-Prints_example = printint-Prints 4294967295 true zeros (omega arith)

-- "5% of %d\n" and the number 42
abbrev five_percent : List ℕ
five_percent = 53 ∷ 37 ∷ 32 ∷ 111 ∷ 102 ∷ 32 ∷ []

vprintf-number_example :
    vprintf (λ p. []) zeros (escape five_percent ++ (37 ∷ 100 ∷ escape (10 ∷ []))) (42 ∷ [])
    ≡ some (five_percent ++ (printint (42 % 2 ^ 32) 10 true zeros ++ (10 ∷ [])))
vprintf-number_example = vprintf-number (λ p. []) zeros five_percent (10 ∷ []) [] 42
