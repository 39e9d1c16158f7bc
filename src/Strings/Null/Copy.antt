-- ===== src/Strings/Null/Copy.antt =====
-- What `strncpy` and `safestrcpy` leave in memory.
use modified_riscv.Base.{
  ℕ, zero, suc, ◌+◌, ◌≤◌, ◌<◌, ◌≡◌, ◌≢◌, ◌⊎◌, inl, inr, refl, sym, ◌∙◌, ap, ap₂, true, false, ◌==◌,
  if◌then◌else◌, update, update_self, update_ne, arith, Bool-cases, ==_iff, true_ne_false,
}
use modified_riscv.Strings.Moves.{IsBeside}
use modified_riscv.Strings.Null.Compare.{at_first, at_next}
use modified_riscv.Strings.Null.{zero_fill, strncpy, copy_terminated, safestrcpy}

-- The `n` bytes at `s` and those at `t` are apart.
abbrev pub IsApart : ℕ → ℕ → ℕ → Type 0
IsApart s t n = (s + n ≤ t) ⊎ (t + n ≤ s)

-- The string at `t` followed by null bytes for ever.
unfoldable pub padded : (ℕ → ℕ) → ℕ → ℕ → ℕ
padded mem t zero = mem t
padded mem t (suc k) = let rest = padded mem (t + 1) k in if mem t == 0 then 0 else rest

padded-same :
    (k t : ℕ) (m1 m2 : ℕ → ℕ)
    → ((j : ℕ) → j ≤ k → m1 (t + j) ≡ m2 (t + j))
    → padded m1 t k ≡ padded m2 t k
unfolding padded
padded-same zero t m1 m2 same = at_first m1 t ∙ same 0 (omega arith) ∙ sym (at_first m2 t)
padded-same (suc k) t m1 m2 same =
    ap₂ (λ c rest. if c == 0 then 0 else rest)
      (at_first m1 t ∙ same 0 (omega arith) ∙ sym (at_first m2 t))
      (padded-same k (t + 1) m1 m2
        (λ j le. at_next m1 t j ∙ same (suc j) (omega arith) ∙ sym (at_next m2 t j)))

padded-zero : (t : ℕ) (mem : ℕ → ℕ) → mem t ≡ padded mem t 0
unfolding padded
padded-zero t mem = refl

padded-null : (k t : ℕ) (mem : ℕ → ℕ) → (mem t == 0) ≡ true → padded mem t (suc k) ≡ 0
unfolding padded
padded-null k t mem null = rw null refl

padded-more :
    (k t : ℕ) (mem : ℕ → ℕ) → (mem t == 0) ≡ false → padded mem t (suc k) ≡ padded mem (t + 1) k
unfolding padded
padded-more k t mem more = rw more refl

zero_fill-IsBeside : (n s : ℕ) (mem : ℕ → ℕ) (a : ℕ) → IsBeside s n a → zero_fill s n mem a ≡ mem a
unfolding zero_fill
zero_fill-IsBeside zero s mem a out = refl
zero_fill-IsBeside (suc n) s mem a out =
    zero_fill-IsBeside n (s + 1) (update mem s 0) a (omega arith)
    ∙ update_ne mem s a 0 (omega arith)

zero_fill_lem : (n s k : ℕ) (mem : ℕ → ℕ) → k < n → zero_fill s n mem (s + k) ≡ 0
unfolding zero_fill
zero_fill_lem zero s k mem lt = absurd (omega arith)
zero_fill_lem (suc n) s zero mem lt =
    zero_fill-IsBeside n (s + 1) (update mem s 0) (s + 0) (omega arith)
    ∙ ap (update mem s 0) (omega arith)
    ∙ update_self mem s 0
zero_fill_lem (suc n) s (suc k) mem lt =
    ap (zero_fill (s + 1) n (update mem s 0)) (omega arith)
    ∙ zero_fill_lem n (s + 1) k (update mem s 0) (omega arith)

-- `strncpy` to a place apart from the string fills all of its `n` bytes: with the string, as far as
-- it goes, and then with null bytes. It changes no other byte.
pub strncpy-padded :
    (n s t : ℕ) (mem : ℕ → ℕ)
    → IsApart s t n
    → ((k : ℕ) → k < n → strncpy s t n mem (s + k) ≡ padded mem t k)
      × ((a : ℕ) → IsBeside s n a → strncpy s t n mem a ≡ mem a)
unfolding strncpy
strncpy-padded zero s t mem apart = (λ k lt. absurd (omega arith), λ a out. refl)
strncpy-padded (suc n) s t mem apart = elim (Bool-cases (mem t == 0)) [
  | inl null ↦ rw null (
    λ k lt. filled null k lt,
    λ a out.
        zero_fill-IsBeside n (s + 1) copied a (omega arith)
        ∙ update_ne mem s a (mem t) (omega arith),
  )
  | inr more ↦ rw more (
    λ k lt. string more (strncpy-padded n (s + 1) (t + 1) copied (omega arith)) k lt,
    λ a out.
        (strncpy-padded n (s + 1) (t + 1) copied (omega arith)).1 a (omega arith)
        ∙ update_ne mem s a (mem t) (omega arith),
  )
]
  where
    copied : ℕ → ℕ
    copied = update mem s (mem t)

    byte : copied (s + 0) ≡ padded mem t 0
    byte = sym (at_first copied s) ∙ update_self mem s (mem t) ∙ padded-zero t mem

    filled :
        (mem t == 0) ≡ true
        → (k : ℕ) → k < suc n
        → zero_fill (s + 1) n copied (s + k) ≡ padded mem t k
    filled null zero lt = zero_fill-IsBeside n (s + 1) copied (s + 0) (omega arith) ∙ byte
    filled null (suc k) lt =
        sym (at_next (zero_fill (s + 1) n copied) s k)
        ∙ zero_fill_lem n (s + 1) k copied (omega arith)
        ∙ sym (padded-null k t mem null)

    string :
        (mem t == 0) ≡ false
        → ((k : ℕ) → k < n → strncpy (s + 1) (t + 1) n copied (s + 1 + k) ≡ padded copied (t + 1) k)
          × ((a : ℕ) → IsBeside (s + 1) n a → strncpy (s + 1) (t + 1) n copied a ≡ copied a)
        → (k : ℕ) → k < suc n
        → strncpy (s + 1) (t + 1) n copied (s + k) ≡ padded mem t k
    string more (h, beside) zero lt = beside (s + 0) (omega arith) ∙ byte
    string more (h, beside) (suc k) lt =
        sym (at_next (strncpy (s + 1) (t + 1) n copied) s k)
        ∙ h k (omega arith)
        ∙ padded-same k (t + 1) copied mem
            (λ j le. update_ne mem s (t + 1 + j) (mem t) (omega arith))
        ∙ sym (padded-more k t mem more)

-- A string in the `n` bytes at `s`, with the bytes of the one at `t` as far as they fit with a null
-- byte behind them.
abbrev pub IsTerminated : ℕ → ℕ → ℕ → (ℕ → ℕ) → (ℕ → ℕ) → Type 0
IsTerminated s t n mem after =
    ((len : ℕ) × (len < n) × (after (s + len) ≡ 0) × ((j : ℕ) → j < len → after (s + j) ≢ 0))
    × ((k : ℕ) → k + 1 < n → ((j : ℕ) → j < k → mem (t + j) ≢ 0) → after (s + k) ≡ mem (t + k))
    × ((a : ℕ) → IsBeside s n a → after a ≡ mem a)

copy_terminated-IsTerminated :
    (n s t : ℕ) (mem : ℕ → ℕ)
    → IsApart s t (suc n)
    → IsTerminated s t (suc n) mem (copy_terminated s t n mem)
unfolding copy_terminated
copy_terminated-IsTerminated zero s t mem apart = (
  (
    0,
    omega arith,
    sym (at_first (update mem s 0) s) ∙ update_self mem s 0,
    λ j lt. absurd (omega arith),
  ),
  λ k lt before. absurd (omega arith),
  λ a out. update_ne mem s a 0 (omega arith),
)
copy_terminated-IsTerminated (suc n) s t mem apart = elim (Bool-cases (mem t == 0)) [
  | inl null ↦ rw null (
    (
      0,
      omega arith,
      sym (at_first (update copied (s + 1) 0) s)
          ∙ update_ne copied (s + 1) s 0 (omega arith)
          ∙ update_self mem s (mem t)
          ∙ (==_iff (mem t) 0).0 null,
      λ j lt. absurd (omega arith),
    ),
    λ k lt before. first_only null k before,
    λ a out. update_ne copied (s + 1) a 0 (omega arith) ∙ update_ne mem s a (mem t) (omega arith),
  )
  | inr more ↦
      rw more (longer _ more (copy_terminated-IsTerminated n (s + 1) (t + 1) copied (omega arith)))
]
  where
    copied : ℕ → ℕ
    copied = update mem s (mem t)

    first_only :
        (mem t == 0) ≡ true
        → (k : ℕ) → ((j : ℕ) → j < k → mem (t + j) ≢ 0)
        → update copied (s + 1) 0 (s + k) ≡ mem (t + k)
    first_only null zero before =
        sym (at_first (update copied (s + 1) 0) s)
        ∙ update_ne copied (s + 1) s 0 (omega arith)
        ∙ update_self mem s (mem t)
        ∙ at_first mem t
    first_only null (suc k) before =
        absurd (before 0 (omega arith) (sym (at_first mem t) ∙ (==_iff (mem t) 0).0 null))

    later : (j : ℕ) → j < suc n → copied (t + 1 + j) ≡ mem (t + suc j)
    later j lt = update_ne mem s (t + 1 + j) (mem t) (omega arith) ∙ at_next mem t j

    longer :
        (after : ℕ → ℕ)
        → (mem t == 0) ≡ false
        → IsTerminated (s + 1) (t + 1) (suc n) copied after
        → IsTerminated s t (suc (suc n)) mem after
    longer after more ((len, lt, null, before), string, beside) = (
      (suc len, omega arith, sym (at_next after s len) ∙ null, λ j l. not_null j l),
      λ k l on. by_index k l on,
      λ a out. beside a (omega arith) ∙ update_ne mem s a (mem t) (omega arith),
    )
      where
        here : after (s + 0) ≡ mem t
        here = beside (s + 0) (omega arith) ∙ sym (at_first copied s) ∙ update_self mem s (mem t)

        not_null : (j : ℕ) → j < suc len → after (s + j) ≢ 0
        not_null zero l z = true_ne_false (sym ((==_iff (mem t) 0).1 (sym here ∙ z)) ∙ more)
        not_null (suc j) l z = before j (omega arith) (at_next after s j ∙ z)

        by_index :
            (k : ℕ)
            → k + 1 < suc (suc n)
            → ((j : ℕ) → j < k → mem (t + j) ≢ 0)
            → after (s + k) ≡ mem (t + k)
        by_index zero l on = here ∙ at_first mem t
        by_index (suc k) l on =
            sym (at_next after s k)
            ∙ string k (omega arith)
                (λ j lj z. on (suc j) (omega arith) (sym (later j (omega arith)) ∙ z))
            ∙ later k (omega arith)

-- `safestrcpy` to n > 0 bytes apart from the string leaves a string that ends with a null byte within
-- them, and its bytes are those of the source as far as they fit. It changes no other byte.
pub safestrcpy-IsTerminated :
    (n s t : ℕ) (mem : ℕ → ℕ)
    → 0 < n
    → IsApart s t n
    → IsTerminated s t n mem (safestrcpy s t n mem)
unfolding safestrcpy
safestrcpy-IsTerminated zero s t mem positive apart = absurd (omega arith)
safestrcpy-IsTerminated (suc n) s t mem positive apart =
    copy_terminated-IsTerminated n s t mem apart
