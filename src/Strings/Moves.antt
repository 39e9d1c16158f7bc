-- ===== src/Strings/Moves.antt =====
-- What `memset` and `memmove` leave in memory.
use modified_riscv.Base.{
  ℕ, zero, suc, ◌+◌, ◌%◌, ◌≤◌, ◌<◌, ◌≡◌, ◌⊎◌, inl, inr, refl, sym, ◌∙◌, ap, subst, false, ◌&&◌, ltb,
  ◌==◌, update, update_self, update_ne, arith, Bool-cases, ℕ_discrete,
}
use modified_riscv.Strings.{memset, copy_up, copy_down, memmove}

-- An address outside the `n` bytes at `d`.
abbrev pub IsBeside : ℕ → ℕ → ℕ → Type 0
IsBeside d n a = (a < d) ⊎ (d + n ≤ a)

copy_up-IsBeside : (d s n : ℕ) (mem : ℕ → ℕ) (a : ℕ) → IsBeside d n a → copy_up d s n mem a ≡ mem a
unfolding copy_up
copy_up-IsBeside d s zero mem a out = refl
copy_up-IsBeside d s (suc n) mem a out =
    copy_up-IsBeside (d + 1) (s + 1) n (update mem d (mem s)) a (omega arith)
    ∙ update_ne mem d a (mem s) (omega arith)

copy_up_lem :
    (d s n : ℕ) (mem : ℕ → ℕ) (k : ℕ)
    → (d ≤ s) ⊎ (s + n ≤ d)
    → k < n
    → copy_up d s n mem (d + k) ≡ mem (s + k)
unfolding copy_up
copy_up_lem d s zero mem k apart lt = absurd (omega arith)
copy_up_lem d s (suc n) mem zero apart lt =
    copy_up-IsBeside (d + 1) (s + 1) n (update mem d (mem s)) (d + 0) (omega arith)
    ∙ subst (λ x. update mem d (mem s) x ≡ mem (s + 0)) (omega arith)
        (update_self mem d (mem s) ∙ ap mem (omega arith))
copy_up_lem d s (suc n) mem (suc k) apart lt =
    ap (copy_up (d + 1) (s + 1) n (update mem d (mem s))) (omega arith)
    ∙ copy_up_lem (d + 1) (s + 1) n (update mem d (mem s)) k (omega arith) (omega arith)
    ∙ update_ne mem d (s + 1 + k) (mem s) (omega arith)
    ∙ ap mem (omega arith)

copy_down-IsBeside :
    (d s n : ℕ) (mem : ℕ → ℕ) (a : ℕ) → IsBeside d n a → copy_down d s n mem a ≡ mem a
unfolding copy_down
copy_down-IsBeside d s zero mem a out = refl
copy_down-IsBeside d s (suc n) mem a out =
    copy_down-IsBeside d s n (update mem (d + n) (mem (s + n))) a (omega arith)
    ∙ update_ne mem (d + n) a (mem (s + n)) (omega arith)

copy_down_lem :
    (d s n : ℕ) (mem : ℕ → ℕ) (k : ℕ) → s ≤ d → k < n → copy_down d s n mem (d + k) ≡ mem (s + k)
unfolding copy_down
copy_down_lem d s zero mem k le lt = absurd (omega arith)
copy_down_lem d s (suc n) mem k le lt = elim (ℕ_discrete k n) [
  | yes last ↦
      copy_down-IsBeside d s n (update mem (d + n) (mem (s + n))) (d + k) (omega arith)
      ∙ subst (λ x. update mem (d + n) (mem (s + n)) (d + x) ≡ mem (s + x)) (sym last)
          (update_self mem (d + n) (mem (s + n)))
  | no ne ↦
      copy_down_lem d s n (update mem (d + n) (mem (s + n))) k le (omega arith)
      ∙ update_ne mem (d + n) (s + k) (mem (s + n)) (omega arith)
]

suc_test : (n : ℕ) → (suc n == 0) ≡ false
suc_test n = ground arith

-- `memmove` copies the `n` bytes at the source as they were before to the destination, whether or
-- not the two ranges overlap, and changes no other byte.
pub memmove_lem :
    (d s n : ℕ) (mem : ℕ → ℕ)
    → ((k : ℕ) → k < n → memmove d s n mem (d + k) ≡ mem (s + k))
      × ((a : ℕ) → IsBeside d n a → memmove d s n mem a ≡ mem a)
unfolding memmove
memmove_lem d s zero mem = (λ k lt. absurd (omega arith), λ a out. refl)
memmove_lem d s (suc n) mem = elim (Bool-cases (ltb s d && ltb d (s + suc n))) [
  | inl over ↦
      rw (suc_test n, over)
        (
          λ k lt. copy_down_lem d s (suc n) mem k (ground arith) lt,
          λ a out. copy_down-IsBeside d s (suc n) mem a out,
        )
  | inr apart ↦
      rw (suc_test n, apart)
        (
          λ k lt. copy_up_lem d s (suc n) mem k (ground arith) lt,
          λ a out. copy_up-IsBeside d s (suc n) mem a out,
        )
]

-- What `memset` from index `i` on leaves.
abbrev pub IsFilled : ℕ → ℕ → ℕ → ℕ → (ℕ → ℕ) → (ℕ → ℕ) → Type 0
IsFilled d c i n mem after =
    ((k : ℕ) → i ≤ k → k < i + n → after (d + k) ≡ c % 256)
    × ((a : ℕ) → IsBeside (d + i) n a → after a ≡ mem a)

fill_one :
    (d c i n : ℕ) (mem after : ℕ → ℕ)
    → IsFilled d c (i + 1) n (update mem (d + i) (c % 256)) after
    → IsFilled d c i (suc n) mem after
fill_one d c i n mem after (later, same) = (inside, beside)
  where
    beside : (a : ℕ) → IsBeside (d + i) (suc n) a → after a ≡ mem a
    beside a out = same a (omega arith) ∙ update_ne mem (d + i) a (c % 256) (omega arith)

    inside : (k : ℕ) → i ≤ k → k < i + suc n → after (d + k) ≡ c % 256
    inside k le lt = elim (ℕ_discrete i k) [
      | yes e ↦
          same (d + k) (omega arith)
          ∙ subst (λ x. update mem (d + i) (c % 256) (d + x) ≡ c % 256) e
              (update_self mem (d + i) (c % 256))
      | no ne ↦ later k (omega arith) (omega arith)
    ]

-- `memset` sets the `n` bytes from index `i` on to the low eight bits of the value, and changes no
-- other byte.
pub memset_lem : (d c n i : ℕ) (mem : ℕ → ℕ) → IsFilled d c i n mem (memset d c i n mem)
unfolding memset
memset_lem d c zero i mem = (λ k le lt. absurd (omega arith), λ a out. refl)
memset_lem d c (suc n) i mem =
    fill_one d c i n mem _ (memset_lem d c n (i + 1) (update mem (d + i) (c % 256)))
