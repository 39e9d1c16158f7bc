-- ===== src/Bio/Find.antt =====
-- What the two loops of `bget` find.
use modified_riscv.Base.{
  ℕ, ◌≡◌, ◌≢◌, ◌⊎◌, inl, inr, refl, sym, subst, true, false, Option, none, some, List, [], ◌∷◌,
  ◌==◌, if◌then◌else◌, arith, Bool-cases,
}
use modified_riscv.Bio.{Buf, holds, find_cached, find_unused}

abbrev pub IsIn : ℕ → List ℕ → Type 0
IsIn i [] = ⊥
IsIn i (x ∷ xs) = (i ≡ x) ⊎ IsIn i xs

abbrev pub IsNoneFree : (ℕ → Buf) → List ℕ → Type 0
IsNoneFree buf order = (i : ℕ) → IsIn i order → (buf i).refcnt ≢ 0

zero_not : (n : ℕ) → (n == 0) ≡ false → n ≢ 0
zero_not n h = ground arith

holds_iff :
    (dev blockno : ℕ) (b : Buf) → holds dev blockno b ≡ true → (b.dev ≡ dev) × (b.blockno ≡ blockno)
holds_iff dev blockno b h = ground arith

holds_not :
    (dev blockno : ℕ) (b : Buf) → holds dev blockno b ≡ false → b.dev ≡ dev → b.blockno ≢ blockno
holds_not dev blockno b h e e' = ground arith

-- What `find_cached` gives.
abbrev pub Cached : ℕ → ℕ → (ℕ → Buf) → List ℕ → Option ℕ → Type 0
Cached dev blockno buf order none =
    (i : ℕ) → IsIn i order → (buf i).dev ≡ dev → (buf i).blockno ≢ blockno
Cached dev blockno buf order (some i) =
    IsIn i order × ((buf i).dev ≡ dev) × ((buf i).blockno ≡ blockno)

Cached-later :
    (dev blockno b : ℕ) (buf : ℕ → Buf) (order : List ℕ) (r : Option ℕ)
    → holds dev blockno (buf b) ≡ false
    → Cached dev blockno buf order r
    → Cached dev blockno buf (b ∷ order) r
Cached-later dev blockno b buf order none other h = each
  where
    each : (i : ℕ) → (i ≡ b) ⊎ IsIn i order → (buf i).dev ≡ dev → (buf i).blockno ≢ blockno
    each i (inl e) d =
        subst (λ x. (buf x).dev ≡ dev → (buf x).blockno ≢ blockno) (sym e)
          (holds_not dev blockno (buf b) other) d
    each i (inr t) d = h i t d
Cached-later dev blockno b buf order (some i) other (t, d, n) = (inr t, d, n)

pub find_cached-Cached :
    (dev blockno : ℕ) (buf : ℕ → Buf) (order : List ℕ)
    → Cached dev blockno buf order (find_cached dev blockno buf order)
unfolding find_cached
find_cached-Cached dev blockno buf [] = λ i t. absurd t
find_cached-Cached dev blockno buf (b ∷ order) = elim (Bool-cases (holds dev blockno (buf b))) [
  | inl yes_here ↦ rw yes_here (
    inl refl,
    (holds_iff dev blockno (buf b) yes_here).0,
    (holds_iff dev blockno (buf b) yes_here).1,
  )
  | inr not_here ↦ rw not_here (
      Cached-later dev blockno b buf order (find_cached dev blockno buf order) not_here
        (find_cached-Cached dev blockno buf order))
]

abbrev pub Unused : (ℕ → Buf) → List ℕ → Option ℕ → Type 0
Unused buf order none = IsNoneFree buf order
Unused buf order (some i) = IsIn i order × ((buf i).refcnt ≡ 0)

pub find_unused-Unused : (buf : ℕ → Buf) (order : List ℕ) → Unused buf order (find_unused buf order)
unfolding find_unused
find_unused-Unused buf [] = λ i t. absurd t
find_unused-Unused buf (b ∷ order) = by_rest (find_unused buf order) (find_unused-Unused buf order)
  where
    by_rest :
        (r : Option ℕ)
        → Unused buf order r
        → Unused buf
            (b ∷ order)
            (elim r [ some c ↦ some c | none ↦ if (buf b).refcnt == 0 then some b else none ])
    by_rest (some c) (t, zero_count) = (inr t, zero_count)
    by_rest none h = elim (Bool-cases ((buf b).refcnt == 0)) [
      | inl free ↦ rw free (inl refl, ground arith)
      | inr used ↦ rw used (each (zero_not (buf b).refcnt used))
    ]
      where
        each : (buf b).refcnt ≢ 0 → (i : ℕ) → (i ≡ b) ⊎ IsIn i order → (buf i).refcnt ≢ 0
        each u i (inl e) = subst (λ x. (buf x).refcnt ≢ 0) (sym e) u
        each u i (inr t) = h i t
