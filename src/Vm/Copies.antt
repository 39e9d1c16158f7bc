-- ===== src/Vm/Copies.antt =====
-- What `copyin` and `copyout` move.
use modified_riscv.Base.{
  ℕ, zero, suc, ◌+◌, ◌-◌, ◌≤◌, ◌<◌, ◌≡◌, ◌≢◌, inl, inr, refl, sym, ◌∙◌, ap, subst, Bool, true,
  false, ltb, ◌==◌, if◌then◌else◌, arith, Bool-cases, ltb→lt, ==_iff,
}
use native.Mathlib.Decide.{dec_lt}
use modified_riscv.Kalloc.{pgsize}
use modified_riscv.Strings.{memmove}
use modified_riscv.Strings.Moves.{IsBeside, memmove_lem}
use modified_riscv.Vm.{pgrounddown, chunk, address, copyin}

pub ne_of_test : (p : ℕ) → (p == 0) ≡ false → p ≢ 0
ne_of_test p h = ground arith

pub chunk_pos : (va len : ℕ) → 0 < len → 0 < chunk va len
chunk_pos va len some = ground arith

chunk-le : (va len : ℕ) → (chunk va len ≤ len) × (chunk va len ≤ pgsize - (va - pgrounddown va))
chunk-le va len = ground arith

-- A chunk stays inside its page.
same_page : (va len k : ℕ) → k < chunk va len → pgrounddown (va + k) ≡ pgrounddown va
same_page va len k lt = omega (arith, (chunk-le va len).1)

-- What follows it starts at the next page.
next_page : (va len : ℕ) → chunk va len < len → pgrounddown va + pgsize ≡ va + chunk va len
next_page va len lt = by_test (ltb len (pgsize - (va - pgrounddown va))) lt
  where
    by_test :
        (t : Bool)
        → (if t then len else pgsize - (va - pgrounddown va)) < len
        → pgrounddown va + pgsize ≡ va + (if t then len else pgsize - (va - pgrounddown va))
    by_test true l = absurd (omega arith)
    by_test false l = omega arith

module _ (walkaddr : ℕ → ℕ) where
  abbrev pub IsMapped : ℕ → ℕ → Type 0
  IsMapped va len = (k : ℕ) → k < len → walkaddr (pgrounddown (va + k)) ≢ 0

  abbrev pub HasHole : ℕ → ℕ → Type 0
  HasHole va len = (k : ℕ) × (k < len) × (walkaddr (pgrounddown (va + k)) ≡ 0)

  -- The user's bytes come to `dst`, and no other byte changes; or some byte is not mapped.
  abbrev pub CopiesIn : ℕ → ℕ → ℕ → (ℕ → ℕ) → Bool × (ℕ → ℕ) → Type 0
  CopiesIn dst va len mem (true, after) =
      IsMapped va len
      × ((k : ℕ) → k < len → after (dst + k) ≡ mem (address walkaddr (va + k)))
      × ((a : ℕ) → IsBeside dst len a → after a ≡ mem a)
  CopiesIn dst va len mem (false, after) =
      HasHole va len × ((a : ℕ) → IsBeside dst len a → after a ≡ mem a)

  -- A first chunk of `n` bytes in one page, and the rest from `next` on.
  pub record IsChunk (va len n next : ℕ) : Type 0 where
    pub positive : 0 < n
    pub within : n ≤ len
    pub page : (k : ℕ) → k < n → pgrounddown (va + k) ≡ pgrounddown va
    pub follows : n < len → next ≡ va + n

  pub chunk-IsChunk :
      (va len : ℕ) → 0 < len → IsChunk va len (chunk va len) (pgrounddown va + pgsize)
  chunk-IsChunk va len some = record {
    positive = chunk_pos va len some;
    within = (chunk-le va len).0;
    page = λ k lt. same_page va len k lt;
    follows = λ lt. next_page va len lt;
  }

  module _ (va len n next : ℕ) (c : IsChunk va len n next) where
    pub address-add : (k : ℕ) → k < n → address walkaddr (va + k) ≡ address walkaddr va + k
    address-add k lt =
        ap (λ p. walkaddr p + (va + k - p)) (c.page k lt) ∙ below (pgrounddown va) (omega arith)
      where
        below : (p : ℕ) → p ≤ va → walkaddr p + (va + k - p) ≡ walkaddr p + (va - p) + k
        below p le = omega arith

    -- An address in the rest.
    pub rest_address : (k : ℕ) → n ≤ k → k < len → next + (k - n) ≡ va + k
    rest_address k low high = omega (arith, c.follows (omega arith))

    pub IsMapped-all : walkaddr (pgrounddown va) ≢ 0 → IsMapped next (len - n) → IsMapped va len
    IsMapped-all here rest k lt = elim (dec_lt k n) [
      | yes first ↦ subst (λ p. walkaddr p ≢ 0) (sym (c.page k first)) here
      | no later ↦
          subst (λ x. walkaddr (pgrounddown x) ≢ 0) (rest_address k (omega arith) lt)
            (rest (k - n) (omega (arith, c.positive)))
    ]

    pub hole_later : HasHole next (len - n) → HasHole va len
    hole_later (k, lt, e) = (
      k + n,
      omega arith,
      subst (λ x. walkaddr (pgrounddown x) ≡ 0)
          (ap (λ x. next + x) (omega arith) ∙ rest_address (k + n) (omega arith) (omega arith)) e,
    )

    module _ (dst : ℕ) (mem : ℕ → ℕ)
        (apart : (k : ℕ) → k < len → IsBeside dst len (address walkaddr (va + k)))
        (here : walkaddr (pgrounddown va) ≢ 0) where
      first :
          (k : ℕ)
          → k < n
          → memmove dst (address walkaddr va) n mem (dst + k) ≡ mem (address walkaddr (va + k))
      first k lt =
          (memmove_lem dst (address walkaddr va) n mem).0 k lt ∙ ap mem (sym (address-add k lt))

      beside : (a : ℕ) → IsBeside dst len a → memmove dst (address walkaddr va) n mem a ≡ mem a
      beside a out = (memmove_lem dst (address walkaddr va) n mem).1 a (omega (arith, c.within))

      -- The bytes of the first chunk, and the rest.
      step-CopiesIn :
          (r : Bool × (ℕ → ℕ))
          → CopiesIn (dst + n) next (len - n) (memmove dst (address walkaddr va) n mem) r
          → CopiesIn dst va len mem r
      step-CopiesIn (false, after) (hole, same) =
          (hole_later hole, λ a out. same a (omega (arith, c.within)) ∙ beside a out)
      step-CopiesIn (true, after) (mapped, moved, same) =
          (IsMapped-all here mapped, all, λ a out. same a (omega (arith, c.within)) ∙ beside a out)
        where
          all : (k : ℕ) → k < len → after (dst + k) ≡ mem (address walkaddr (va + k))
          all k lt = elim (dec_lt k n) [
            | yes early ↦ same (dst + k) (omega arith) ∙ first k early
            | no late ↦
                ap after (omega arith)
                ∙ moved (k - n) (omega (arith, c.positive))
                ∙ ap (λ x. memmove dst (address walkaddr va) n mem (address walkaddr x))
                    (rest_address k (omega arith) lt)
                ∙ beside (address walkaddr (va + k)) (apart k lt)
          ]

      IsApart-later :
          (k : ℕ) → k < len - n → IsBeside (dst + n) (len - n) (address walkaddr (next + k))
      IsApart-later k lt =
          subst (λ x. IsBeside (dst + n) (len - n) (address walkaddr x))
            (sym (rest_address (k + n) (omega arith) (omega arith))
              ∙ ap (λ x. next + x) (omega arith))
            (inside (apart (k + n) (omega arith)))
        where
          inside :
              IsBeside dst len (address walkaddr (va + (k + n)))
              → IsBeside (dst + n) (len - n) (address walkaddr (va + (k + n)))
          inside (inl l) = inl (omega arith)
          inside (inr l) = inr (omega (arith, c.within))

  pub hole_here : (va len : ℕ) → 0 < len → walkaddr (pgrounddown va) ≡ 0 → HasHole va len
  hole_here va len some e = (0, some, subst (λ x. walkaddr (pgrounddown x) ≡ 0) (omega arith) e)

  -- `copyin` of `len` bytes from a buffer that does not overlap the destination returns 0 exactly if
  -- every byte is mapped, and then has copied them all; in both cases it changes no byte outside the
  -- destination. A round copies a byte at least, so that `len` rounds are enough.
  pub copyin-CopiesIn :
      (fuel dst va len : ℕ) (mem : ℕ → ℕ)
      → len ≤ fuel
      → ((k : ℕ) → k < len → IsBeside dst len (address walkaddr (va + k)))
      → CopiesIn dst va len mem (copyin walkaddr fuel dst va len mem)
  unfolding copyin
  copyin-CopiesIn zero dst va len mem le apart =
      (λ k lt. absurd (omega arith), λ k lt. absurd (omega arith), λ a out. refl)
  copyin-CopiesIn (suc fuel) dst va len mem le apart = elim (Bool-cases (ltb 0 len)) [
    | inr nothing ↦
        rw nothing (λ k lt. absurd (ground arith), λ k lt. absurd (ground arith), λ a out. refl)
    | inl some ↦ rw some (elim (Bool-cases (walkaddr (pgrounddown va) == 0)) [
      | inl hole ↦
          rw hole (hole_here va len (ltb→lt 0 len some) ((==_iff _ _).0 hole), λ a out. refl)
      | inr here ↦ rw here (
          step-CopiesIn va len (chunk va len) (pgrounddown va + pgsize)
            (chunk-IsChunk va len (ltb→lt 0 len some)) dst mem apart (ne_of_test _ here) _
            (copyin-CopiesIn fuel (dst + chunk va len) (pgrounddown va + pgsize)
              (len - chunk va len) (memmove dst (address walkaddr va) (chunk va len) mem)
              (omega (arith, chunk_pos va len (ltb→lt 0 len some)))
              (IsApart-later va len (chunk va len) (pgrounddown va + pgsize)
                (chunk-IsChunk va len (ltb→lt 0 len some)) dst mem apart (ne_of_test _ here))))
    ])
  ]
