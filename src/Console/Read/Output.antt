-- ===== src/Console/Read/Output.antt =====
-- What `consolewrite` puts out.
use modified_riscv.Base.{
  ℕ, zero, suc, ◌+◌, ◌≡◌, ◌⊎◌, inl, inr, refl, Option, none, some, List, [], ◌∷◌, length, arith,
}
use modified_riscv.Console.Read.{consolewrite}

-- The bytes of the user's buffer from `i` on.
abbrev pub IsFrom : (ℕ → Option ℕ) → ℕ → List ℕ → Type 0
IsFrom copyin i [] = Unit
IsFrom copyin i (c ∷ out) = (copyin i ≡ some c) × IsFrom copyin (i + 1) out

abbrev pub Writes : (ℕ → Option ℕ) → ℕ → ℕ → List ℕ × ℕ → Type 0
Writes copyin i n (out, result) =
    IsFrom copyin i out × (result ≡ i + length out) × ((length out ≡ n) ⊎ (copyin result ≡ none))

-- `consolewrite` puts out the bytes in their order, all or those before one that cannot be read, and
-- returns how many.
consolewrite-Writes :
    (copyin : ℕ → Option ℕ) (i n : ℕ) → Writes copyin i n (consolewrite copyin i n)
unfolding consolewrite
consolewrite-Writes copyin i zero = (tt, omega arith, inl refl)
consolewrite-Writes copyin i (suc n) =
    by_byte (copyin i) refl (consolewrite copyin (i + 1) n) (consolewrite-Writes copyin (i + 1) n)
  where
    by_byte :
        (o : Option ℕ)
        → copyin i ≡ o
        → (rest : List ℕ × ℕ) → Writes copyin (i + 1) n rest
        → Writes copyin i (suc n) (elim o [ none ↦ ([], i) | some c ↦ (c ∷ rest.0, rest.1) ])
    by_byte none e rest again = (tt, omega arith, inr e)
    by_byte (some c) e (out, result) (from, count, ends) = (
      (e, from),
      omega (arith, count),
      elim ends [ inl all ↦ inl (omega (arith, all)) | inr stop ↦ inr stop ],
    )
