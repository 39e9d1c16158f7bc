-- ===== src/Console/Read/Lines.antt =====
-- What `consoleread` takes from the characters that wait to be read.
use modified_riscv.Base.{
  ℕ, zero, suc, ◌+◌, ◌^◌, ◌<◌, ◌≡◌, ◌≢◌, ◌⊎◌, refl, sym, ◌∙◌, Bool, true, false, List, [], ◌∷◌,
  ◌++◌, length, ◌==◌, if◌then◌else◌, arith,
}
use modified_riscv.Console.{Cons}
use modified_riscv.Console.Read.{Outcome, returned, failed, slept, advance, next_char}
use modified_riscv.Console.Counters.{IsBuffered}

-- The characters that wait to be read.
abbrev pub Holds : List ℕ → Cons → Type 0
Holds [] c = c.r ≡ c.w
Holds (x ∷ q) c = (c.r ≢ c.w) × (c.r < 2 ^ 32) × (next_char c ≡ x) × Holds q (advance c)

unfoldable pub waiting : ℕ → Cons → List ℕ
waiting zero c = []
waiting (suc n) c = next_char c ∷ waiting n (advance c)

-- The buffer that `consoleintr` keeps holds its ready characters.
pub IsBuffered-Holds :
    (ready edited : ℕ) (c : Cons) → IsBuffered ready edited c → Holds (waiting ready c) c
unfolding waiting
IsBuffered-Holds zero edited c h = sym (h.written ∙ omega (arith, h.small))
IsBuffered-Holds (suc ready) edited c h = (
  λ e. omega (arith, e, h.written, h.small, h.fits),
  h.small,
  refl,
  IsBuffered-Holds ready edited (advance c) (record {
    small = omega arith;
    written = omega (arith, h.written);
    typed = omega (arith, h.typed);
    fits = omega (arith, h.fits);
  }),
)

-- No Control-D, and a newline at the end only.
abbrev pub Plain : List ℕ → Type 0
Plain [] = Unit
Plain (x ∷ out) = (x ≢ 4) × (x ≡ 10 → out ≡ []) × Plain out

abbrev pub EndsLine : List ℕ → Type 0
EndsLine [] = ⊥
EndsLine (x ∷ []) = x ≡ 10
EndsLine (x ∷ y ∷ out) = EndsLine (y ∷ out)

-- Why a read ends that took `out` and left `rest`: it has `n` bytes; or a line; or Control-D follows,
-- which is left for the next read unless no byte came before it; or the next byte cannot be copied
-- out, and is lost.
abbrev pub Ends : (ℕ → Bool) → ℕ → ℕ → List ℕ → List ℕ → List ℕ → Type 0
Ends copies i n q out rest =
    ((length out ≡ n) × (q ≡ out ++ rest))
    ⊎ (EndsLine out × (q ≡ out ++ rest))
    ⊎ ((more : List ℕ) × (q ≡ out ++ (4 ∷ more))
        × (rest ≡ (if i + length out == 0 then more else 4 ∷ more)))
    ⊎ ((x : ℕ) × (q ≡ out ++ (x ∷ rest)) × (copies (i + length out) ≡ false))

-- A read of `n` bytes after `i` ones, from the characters `q`.
abbrev pub IsRead : (ℕ → Bool) → Bool → ℕ → ℕ → List ℕ → (Outcome × List ℕ) × Cons → Type 0
IsRead copies killed i n q ((returned r, out), after) =
    (rest : List ℕ) × Holds rest after
    × (r ≡ i + length out)
    × Plain out
    × Ends copies i n q out rest
IsRead copies killed i n q ((failed, out), after) =
    Holds [] after × (q ≡ out) × (length out < n) × Plain out × ¬ (EndsLine out) × (killed ≡ true)
IsRead copies killed i n q ((slept r, out), after) =
    Holds [] after
    × (q ≡ out)
    × (length out < n)
    × Plain out
    × ¬ (EndsLine out)
    × (killed ≡ false)
    × (r ≡ i + length out)
