-- ===== src/Print/Digits.antt =====
-- The digits that `printint` stores, their number, and what `atoi` makes of them.
use modified_riscv.Base.{
  ℕ, zero, suc, ◌+◌, ◌-◌, ◌*◌, ◌/◌, ◌%◌, ◌^◌, ◌≤◌, ◌<◌, ◌≡◌, ◌≢◌, All, subst, refl, sym, ◌∙◌, ap,
  ap₂, Bool, true, false, ◌&&◌, List, [], ◌∷◌, ◌++◌, length, length-append, leb, ◌==◌,
  if◌then◌else◌, update, update_self, update_ne, arith, Bool-cases, inl, inr,
}
use native.Mathlib.Nat.{pow-suc}
use mathlib.Core.List.{append-nil, append_assoc}
use modified_riscv.Print.{
  digit, fill, flush, is_negative, magnitude, fill_int, printint, atoi_from, atoi,
}

flush-above : (i j v : ℕ) (buf : ℕ → ℕ) → i ≤ j → flush i (update buf j v) ≡ flush i buf
unfolding flush
flush-above zero j v buf le = refl
flush-above (suc i) j v buf le =
    ap₂ (λ c cs. c ∷ cs) (update_ne buf j i v (omega arith)) (flush-above i j v buf (omega arith))

flush-stored : (i v : ℕ) (buf : ℕ → ℕ) → flush (i + 1) (update buf i v) ≡ v ∷ flush i buf
unfolding flush
flush-stored i v buf =
    ap (λ k. flush k (update buf i v)) one_more
    ∙ ap₂ (λ c cs. c ∷ cs) (update_self buf i v) (flush-above i i v buf (omega arith))
  where
    one_more : i + 1 ≡ suc i
    one_more = omega arith

atoi_from-digit :
    (n d : ℕ) (rest : List ℕ) → d < 10 → atoi_from n (digit d ∷ rest) ≡ atoi_from (n * 10 + d) rest
unfolding atoi_from
atoi_from-digit n d rest lt =
    rw (decimal d lt, is_digit d lt) (ap (λ k. atoi_from k rest) (omega arith))
  where
    decimal : (d : ℕ) → d < 10 → digit d ≡ 48 + d
    decimal d lt = ground arith

    is_digit : (d : ℕ) → d < 10 → (leb 48 (48 + d) && leb (48 + d) 57) ≡ true
    is_digit d lt = ground arith

-- The characters '0' .. '9'.
abbrev pub IsDigit : ℕ → Type 0
IsDigit c = (48 ≤ c) × (c ≤ 57)

-- Not empty, and without leading zeros.
abbrev pub IsCanonical : List ℕ → Type 0
IsCanonical [] = ⊥
IsCanonical (c ∷ rest) = c ≡ 48 → rest ≡ []

-- The numeral of a number.
abbrev pub IsNumeral : ℕ → List ℕ → Type 0
IsNumeral x ds = All IsDigit ds × IsCanonical ds × (atoi ds ≡ x)

-- A first digit 0 is all of the number 0.
abbrev Leads : ℕ → List ℕ → Type 0
Leads x [] = ⊥
Leads x (c ∷ rest) = c ≡ 48 → (x ≡ 0) × (rest ≡ [])

Leads-IsCanonical : (x : ℕ) (ds : List ℕ) → Leads x ds → IsCanonical ds
Leads-IsCanonical x [] h = h
Leads-IsCanonical x (c ∷ rest) h = λ e. (h e).1

Leads-append : (x y d : ℕ) (ds : List ℕ) → y ≢ 0 → Leads y ds → Leads x (ds ++ (d ∷ []))
Leads-append x y d [] ne h = absurd h
Leads-append x y d (c ∷ rest) ne h = λ e. absurd (ne (h e).0)

Leads-last : (x : ℕ) → (x / 10 == 0) ≡ true → Leads x (digit (x % 10) ∷ [])
Leads-last x last = λ e. (zero_only x last e, refl)
  where
    zero_only : (x : ℕ) → (x / 10 == 0) ≡ true → digit (x % 10) ≡ 48 → x ≡ 0
    zero_only x last e = ground arith

digit-IsDigit : (x : ℕ) → IsDigit (digit (x % 10))
digit-IsDigit x = (low x, high x)
  where
    low : (x : ℕ) → 48 ≤ digit (x % 10)
    low x = ground arith

    high : (x : ℕ) → digit (x % 10) ≤ 57
    high x = ground arith

All-last : (ds : List ℕ) (d : ℕ) → All IsDigit ds → IsDigit d → All IsDigit (ds ++ (d ∷ []))
All-last [] d all is = (is, tt)
All-last (c ∷ ds) d all is = (all.0, All-last ds d all.1 is)

-- The digits of a number, most significant first.
abbrev Stores : ℕ → ℕ → ℕ → (ℕ → ℕ) → ℕ × (ℕ → ℕ) → Type 0
Stores m x i buf (i', buf') =
    (ds : List ℕ) × (flush i' buf' ≡ ds ++ flush i buf)
    × (i' ≡ i + length ds)
    × (length ds ≤ m)
    × All IsDigit ds
    × Leads x ds
    × ((rest : List ℕ) → atoi_from 0 (ds ++ rest) ≡ atoi_from x rest)

fill-Stores :
    (n m x i : ℕ) (buf : ℕ → ℕ)
    → suc m ≤ n
    → x < 10 ^ suc m
    → Stores (suc m) x i buf (fill n 10 x i buf)
unfolding fill flush atoi_from
fill-Stores zero m x i buf le small = absurd (omega arith)
fill-Stores (suc n) zero x i buf le small = rw (one_digit x small) (
  digit (x % 10) ∷ [],
  flush-stored i (digit (x % 10)) buf,
  refl,
  omega arith,
  (digit-IsDigit x, tt),
  Leads-last x (one_digit x small),
  λ rest.
      atoi_from-digit 0 (x % 10) rest (omega arith)
      ∙ ap (λ k. atoi_from k rest) (omega (arith, small)),
)
  where
    one_digit : (x : ℕ) → x < 10 ^ 1 → (x / 10 == 0) ≡ true
    one_digit x small = ground arith
fill-Stores (suc n) (suc m) x i buf le small = elim (Bool-cases (x / 10 == 0)) [
  | inl last ↦ rw last (
    digit (x % 10) ∷ [],
    flush-stored i (digit (x % 10)) buf,
    refl,
    omega arith,
    (digit-IsDigit x, tt),
    Leads-last x last,
    λ rest.
        atoi_from-digit 0 (x % 10) rest (omega arith) ∙ ap (λ k. atoi_from k rest) (only x last),
  )
  | inr more ↦ rw more (
      let stored = update buf i (digit (x % 10)) in
      let (ds, same, at, few, digits, leads, value) =
        fill-Stores n m (x / 10) (i + 1) stored (omega arith) (omega (arith, small, power m)) in
      (
        ds ++ (digit (x % 10) ∷ []),
        same
            ∙ ap (λ l. ds ++ l) (flush-stored i (digit (x % 10)) buf)
            ∙ sym (append_assoc ds (digit (x % 10) ∷ []) (flush i buf)),
        omega (arith, at, length-append ds (digit (x % 10) ∷ [])),
        omega (arith, few, length-append ds (digit (x % 10) ∷ [])),
        All-last ds (digit (x % 10)) digits (digit-IsDigit x),
        Leads-append x (x / 10) (digit (x % 10)) ds (nonzero (x / 10) more) leads,
        λ rest.
            ap (atoi_from 0) (append_assoc ds (digit (x % 10) ∷ []) rest)
            ∙ value (digit (x % 10) ∷ rest)
            ∙ atoi_from-digit (x / 10) (x % 10) rest (omega arith)
            ∙ ap (λ k. atoi_from k rest) (omega arith),
      ))
]
  where
    nonzero : (n : ℕ) → (n == 0) ≡ false → n ≢ 0
    nonzero n h = ground arith

    only : (x : ℕ) → (x / 10 == 0) ≡ true → 0 * 10 + x % 10 ≡ x
    only x last = ground arith

    power : (m : ℕ) → 10 ^ suc (suc m) ≡ 10 ^ suc m * 10
    power m = pow-suc 10 (suc m)

nothing_below : (buf : ℕ → ℕ) → flush 0 buf ≡ []
unfolding flush
nothing_below buf = refl

nothing_more : (n : ℕ) → atoi_from n [] ≡ n
unfolding atoi_from
nothing_more n = refl

atoi-numeral :
    (x : ℕ) (ds : List ℕ)
    → ((rest : List ℕ) → atoi_from 0 (ds ++ rest) ≡ atoi_from x rest)
    → atoi ds ≡ x
unfolding atoi
atoi-numeral x ds value = ap (atoi_from 0) (sym (append-nil ds)) ∙ value [] ∙ nothing_more x

-- What `printint` to the base 10 prints for the word `xx` of an `int` or a `uint`, and how much of its
-- buffer it uses.
abbrev pub Prints : ℕ → Bool → ℕ × (ℕ → ℕ) → List ℕ → Type 0
Prints xx false (i, buf) out = IsNumeral xx out × (i ≡ length out) × (i ≤ 10)
Prints xx true (i, buf) out =
    (ds : List ℕ) × (out ≡ 45 ∷ ds) × IsNumeral (2 ^ 32 - xx) ds × (i ≡ length out) × (i ≤ 11)

-- For every 32-bit word, `printint` to the base 10 prints, if the word is negative as a signed
-- number and printed as such, a minus and the numeral of its magnitude, and else the numeral of
-- the word: digits, at least one, the first of which is 0 only if it is the only one, that `atoi`
-- reads as the number, where the `int` of `atoi` is taken not to overflow; it stores the
-- characters that it prints in its buffer of 16, at most 10, or 11 with the minus.
pub printint-Prints :
    (xx : ℕ) (sgn : Bool) (garbage : ℕ → ℕ)
    → xx < 2 ^ 32
    → Prints xx (is_negative sgn xx) (fill_int xx 10 sgn garbage) (printint xx 10 sgn garbage)
unfolding printint fill_int atoi
printint-Prints xx sgn garbage lt =
    by_sign (is_negative sgn xx) refl (fill 32 10 (magnitude sgn xx) 0 garbage) (
      fill-Stores 32 9 (magnitude sgn xx) 0 garbage (omega arith)
        (omega (arith, small (is_negative sgn xx))))
  where
    small : (b : Bool) → (if b then (2 ^ 32 - xx) % 2 ^ 32 else xx) < 2 ^ 32
    small true = omega arith
    small false = lt

    large : (b : Bool) (x : ℕ) → (b && leb (2 ^ 31) x) ≡ true → 2 ^ 31 ≤ x
    large true x e = ground arith
    large false x e = absurd (false_true e)
      where
        false_true : false ≡ true → ⊥
        false_true e = cc

    one_more : (i : ℕ) → i + 1 ≡ suc i
    one_more i = omega arith

    signed : Bool → ℕ × (ℕ → ℕ) → ℕ × (ℕ → ℕ)
    signed b r = if b then (r.0 + 1, update r.1 r.0 45) else (r.0, r.1)

    by_sign :
        (b : Bool)
        → is_negative sgn xx ≡ b
        → (r : ℕ × (ℕ → ℕ)) → Stores 10 (if b then (2 ^ 32 - xx) % 2 ^ 32 else xx) 0 garbage r
        → Prints xx b (signed b r) (flush (signed b r).0 (signed b r).1)
    by_sign false e (i, buf) (ds, same, at, few, digits, leads, value) = (
      subst (IsNumeral xx) (sym printed)
          (digits, Leads-IsCanonical xx ds leads, atoi-numeral xx ds value),
      omega (arith, at, ap length printed),
      omega (arith, at, few),
    )
      where
        printed : flush i buf ≡ ds
        printed = same ∙ ap (λ l. ds ++ l) (nothing_below garbage) ∙ append-nil ds
    by_sign true e (i, buf) (ds, same, at, few, digits, leads, value) = (
      ds,
      printed,
      (
        digits,
        Leads-IsCanonical ((2 ^ 32 - xx) % 2 ^ 32) ds leads,
        atoi-numeral ((2 ^ 32 - xx) % 2 ^ 32) ds value ∙ omega (arith, large sgn xx e),
      ),
      omega (arith, at, ap length printed),
      omega (arith, at, few),
    )
      where
        printed : flush (i + 1) (update buf i 45) ≡ 45 ∷ ds
        printed =
            flush-stored i 45 buf
            ∙ ap (λ l. 45 ∷ l) (same ∙ ap (λ l. ds ++ l) (nothing_below garbage) ∙ append-nil ds)
