-- ===== src/Strings/Null/Compare.antt =====
-- What `memcmp`, `strncmp` and `strlen` decide.
use modified_riscv.Base.{
  ℕ, zero, suc, ◌+◌, ◌-◌, ◌≤◌, ◌<◌, ◌≡◌, ◌≢◌, ◌↔◌, refl, sym, ◌∙◌, ap, true, false, leb, ◌==◌,
  arith, Bool-cases, ==_iff, true_ne_false, Returns, Returns-map, inl, inr,
}
use native.Mathlib.Decide.{ℕ_discrete}
use modified_riscv.Base.Int.{pos, sub_ℕ, pos_part, neg_part}
use modified_riscv.Strings.Null.{memcmp, strncmp, strlen}

-- The first byte of a range, and the others by their places behind it.
pub at_first : (mem : ℕ → ℕ) (a : ℕ) → mem a ≡ mem (a + 0)
at_first mem a = ap mem (omega arith)

pub at_next : (mem : ℕ → ℕ) (a k : ℕ) → mem (a + 1 + k) ≡ mem (a + suc k)
at_next mem a k = ap mem (omega arith)

sub_ℕ-zero : (a b : ℕ) → (sub_ℕ a b ≡ pos 0) ↔ (a ≡ b)
sub_ℕ-zero a b = elim (Bool-cases (leb b a)) [
  | inl le ↦ rw le (λ e. exact le (ap pos_part e), λ same. ap pos (omega arith))
  | inr less ↦ rw less (
    λ e. absurd (negative (ap neg_part e)),
    λ same. absurd (true_ne_false (sym (self same) ∙ less)),
  )
]
  where
    exact : leb b a ≡ true → a - b ≡ 0 → a ≡ b
    exact le e = ground arith

    negative : suc (b - a - 1) ≢ 0
    negative e = omega arith

    self : a ≡ b → leb b a ≡ true
    self same = ground arith

-- The strings agree in their first `n` bytes, or up to a null byte of both.
abbrev pub AgreeUpTo : ℕ → ℕ → ℕ → (ℕ → ℕ) → Type 0
AgreeUpTo p q n mem =
    (k : ℕ) → k < n → ((j : ℕ) → j < k → mem (p + j) ≢ 0) → mem (p + k) ≡ mem (q + k)

-- `strncmp` gives 0 exactly if the strings agree in their first `n` bytes or up to a null byte of
-- both.
pub strncmp-AgreeUpTo :
    (n p q : ℕ) (mem : ℕ → ℕ) → (strncmp p q n mem ≡ pos 0) ↔ AgreeUpTo p q n mem
unfolding strncmp
strncmp-AgreeUpTo zero p q mem = (λ e k lt. absurd (omega arith), λ h. refl)
strncmp-AgreeUpTo (suc n) p q mem = elim (Bool-cases (mem p == 0)) [
  | inl null ↦ rw null (
    λ e. at_null ((==_iff (mem p) 0).0 null) ((sub_ℕ-zero _ _).0 e),
    λ h. (sub_ℕ-zero _ _).1 (first h),
  )
  | inr more ↦ rw more (elim (Bool-cases (mem p == mem q)) [
    | inr other ↦
        rw other
          (λ e. absurd (differ other ((sub_ℕ-zero _ _).0 e)), λ h. absurd (differ other (first h)))
    | inl same ↦ rw same (
      λ e. longer ((==_iff (mem p) (mem q)).0 same) ((strncmp-AgreeUpTo n (p + 1) (q + 1) mem).0 e),
      λ h. (strncmp-AgreeUpTo n (p + 1) (q + 1) mem).1 (shorter more h),
    )
  ])
]
  where
    differ : (mem p == mem q) ≡ false → mem p ≢ mem q
    differ other e = true_ne_false (sym ((==_iff (mem p) (mem q)).1 e) ∙ other)

    first : AgreeUpTo p q (suc n) mem → mem p ≡ mem q
    first h =
        at_first mem p ∙ h 0 (omega arith) (λ j lt. absurd (omega arith)) ∙ sym (at_first mem q)

    at_null : mem p ≡ 0 → mem p ≡ mem q → AgreeUpTo p q (suc n) mem
    at_null null same zero lt on = sym (at_first mem p) ∙ same ∙ at_first mem q
    at_null null same (suc k) lt on = absurd (on 0 (omega arith) (sym (at_first mem p) ∙ null))

    longer : mem p ≡ mem q → AgreeUpTo (p + 1) (q + 1) n mem → AgreeUpTo p q (suc n) mem
    longer same h zero lt on = sym (at_first mem p) ∙ same ∙ at_first mem q
    longer same h (suc k) lt on =
        sym (at_next mem p k)
        ∙ h k (omega arith) (λ j l z. on (suc j) (omega arith) (sym (at_next mem p j) ∙ z))
        ∙ at_next mem q k

    shorter : (mem p == 0) ≡ false → AgreeUpTo p q (suc n) mem → AgreeUpTo (p + 1) (q + 1) n mem
    shorter more h k lt on =
        at_next mem p k ∙ h (suc k) (omega arith) (λ j l. by_index j l) ∙ sym (at_next mem q k)
      where
        by_index : (j : ℕ) → j < suc k → mem (p + j) ≢ 0
        by_index zero l z = true_ne_false (sym ((==_iff (mem p) 0).1 (at_first mem p ∙ z)) ∙ more)
        by_index (suc j) l z = on j (omega arith) (at_next mem p j ∙ z)

-- `memcmp` gives 0 exactly if the first `n` bytes agree.
pub memcmp_lem :
    (n s1 s2 : ℕ) (mem : ℕ → ℕ)
    → (memcmp s1 s2 n mem ≡ pos 0) ↔ ((k : ℕ) → k < n → mem (s1 + k) ≡ mem (s2 + k))
unfolding memcmp
memcmp_lem zero s1 s2 mem = (λ e k lt. absurd (omega arith), λ h. refl)
memcmp_lem (suc n) s1 s2 mem = elim (Bool-cases (mem s1 == mem s2)) [
  | inr other ↦ rw other (
    λ e. absurd (differ other ((sub_ℕ-zero _ _).0 e)),
    λ h. absurd (differ other (at_first mem s1 ∙ h 0 (omega arith) ∙ sym (at_first mem s2))),
  )
  | inl same ↦ rw same (
    λ e. longer ((==_iff (mem s1) (mem s2)).0 same) ((memcmp_lem n (s1 + 1) (s2 + 1) mem).0 e),
    λ h.
        (memcmp_lem n (s1 + 1) (s2 + 1) mem).1
          (λ k lt. at_next mem s1 k ∙ h (suc k) (omega arith) ∙ sym (at_next mem s2 k)),
  )
]
  where
    differ : (mem s1 == mem s2) ≡ false → mem s1 ≢ mem s2
    differ other e = true_ne_false (sym ((==_iff (mem s1) (mem s2)).1 e) ∙ other)

    longer :
        mem s1 ≡ mem s2
        → ((k : ℕ) → k < n → mem (s1 + 1 + k) ≡ mem (s2 + 1 + k))
        → (k : ℕ) → k < suc n
        → mem (s1 + k) ≡ mem (s2 + k)
    longer same h zero lt = sym (at_first mem s1) ∙ same ∙ at_first mem s2
    longer same h (suc k) lt = sym (at_next mem s1 k) ∙ h k (omega arith) ∙ at_next mem s2 k

-- `strlen` ends at the first null byte, where there is one within the fuel.
pub strlen_lem :
    (fuel n s k : ℕ) (mem : ℕ → ℕ)
    → n ≤ k
    → k < n + fuel
    → mem (s + k) ≡ 0
    → Returns
        (strlen fuel n s mem)
        (λ len. (mem (s + len) ≡ 0) × ((j : ℕ) → n ≤ j → j < len → mem (s + j) ≢ 0))
unfolding strlen
strlen_lem zero n s k mem low high null = absurd (omega arith)
strlen_lem (suc fuel) n s k mem low high null = elim (Bool-cases (mem (s + n) == 0)) [
  | inl ends ↦ rw ends ((==_iff _ 0).0 ends, λ j l h. absurd (omega arith))
  | inr on ↦ rw on (
      Returns-map (strlen fuel (n + 1) s mem) _ _
        (strlen_lem fuel (n + 1) s k mem (later on) (omega arith) null)
        (λ len (ends, before). (
          ends,
          λ j l h. elim (ℕ_discrete n j) [
            | yes e ↦ λ z. nonzero on (ap (λ x. mem (s + x)) e ∙ z)
            | no ne ↦ before j (omega arith) h
          ],
        )))
]
  where
    nonzero : (mem (s + n) == 0) ≡ false → mem (s + n) ≢ 0
    nonzero on z = true_ne_false (sym ((==_iff (mem (s + n)) 0).1 z) ∙ on)

    later : (mem (s + n) == 0) ≡ false → n + 1 ≤ k
    later on = elim (ℕ_discrete n k) [
      | yes e ↦ absurd (nonzero on (ap (λ x. mem (s + x)) e ∙ null))
      | no ne ↦ omega arith
    ]
