-- ===== src/Print/Format.antt =====
-- `vprintf` on formats of text and a number.
use modified_riscv.Base.{
  ℕ, ◌%◌, ◌^◌, ◌≡◌, refl, sym, ◌∙◌, ap, true, false, Option, none, some, List, [], ◌∷◌, ◌++◌, ◌==◌,
  if◌then◌else◌, arith, Bool-cases, inl, inr, ◌>>=◌,
}
use mathlib.Core.List.{append-nil}
use modified_riscv.Print.{printint, convert, format_loop, vprintf}

-- The format that prints a text: a '%' is written twice.
abbrev pub escape : List ℕ → List ℕ
escape [] = []
escape (c ∷ text) = if c == 37 then 37 ∷ 37 ∷ escape text else c ∷ escape text

-- A text before what is printed.
abbrev pub after_text : List ℕ → Option (List ℕ) → Option (List ℕ)
after_text text none = none
after_text text (some later) = some (text ++ later)

after_text-bind :
    (text : List ℕ) (c : ℕ) (m : Option (List ℕ))
    → (after_text text m >>= λ later. some (c ∷ later)) ≡ after_text (c ∷ text) m
after_text-bind text c none = refl
after_text-bind text c (some later) = refl

after_text-none : (m : Option (List ℕ)) → m ≡ after_text [] m
after_text-none none = refl
after_text-none (some later) = refl

is_percent : (c : ℕ) → (c == 37) ≡ true → c ≡ 37
is_percent c e = ground arith

module _ (string_at : ℕ → List ℕ) (garbage : ℕ → ℕ) where
  pub format_loop-escape :
      (text fmt args : List ℕ)
      → format_loop string_at garbage false (escape text ++ fmt) args
        ≡ after_text text (format_loop string_at garbage false fmt args)
  unfolding format_loop convert
  format_loop-escape [] fmt args = after_text-none (format_loop string_at garbage false fmt args)
  format_loop-escape (c ∷ text) fmt args = elim (Bool-cases (c == 37)) [
    | inl percent ↦ rw percent (
        ap (λ m. m >>= λ later. some (37 ∷ later)) (format_loop-escape text fmt args)
        ∙ after_text-bind text 37 (format_loop string_at garbage false fmt args)
        ∙ ap (λ d. after_text (d ∷ text) (format_loop string_at garbage false fmt args))
            (sym (is_percent c percent)))
    | inr plain ↦ rw plain (
        rw plain (
          ap (λ m. m >>= λ later. some (c ∷ later)) (format_loop-escape text fmt args)
          ∙ after_text-bind text c (format_loop string_at garbage false fmt args)))
  ]

  -- The format that has a text, `%d` and another text, each with its percent signs doubled,
  -- prints the first text, the number of the first argument as `printint` prints it, and the
  -- second text.
  pub vprintf-number :
      (before behind args : List ℕ) (x : ℕ)
      → vprintf string_at garbage (escape before ++ (37 ∷ 100 ∷ escape behind)) (x ∷ args)
        ≡ some (before ++ (printint (x % 2 ^ 32) 10 true garbage ++ behind))
  unfolding vprintf format_loop convert
  vprintf-number before behind args x =
      format_loop-escape before (37 ∷ 100 ∷ escape behind) (x ∷ args)
      ∙ ap
          (λ m.
            after_text before
              (m >>= λ later. some (printint (x % 2 ^ 32) 10 true garbage ++ later)))
          rest
    where
      rest : format_loop string_at garbage false (escape behind) args ≡ some behind
      rest =
          ap (λ f. format_loop string_at garbage false f args) (sym (append-nil (escape behind)))
          ∙ format_loop-escape behind [] args
          ∙ ap some (append-nil behind)
