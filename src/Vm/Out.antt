-- ===== src/Vm/Out.antt =====
-- What `copyout` moves.
use modified_riscv.Base.{
  ℕ, zero, suc, ◌+◌, ◌-◌, ◌≤◌, ◌<◌, ◌≡◌, ◌≢◌, inl, inr, refl, sym, ◌∙◌, ap, subst, Bool, true,
  false, ltb, ◌==◌, arith, Bool-cases, ltb→lt, ==_iff,
}
use native.Mathlib.Decide.{dec_lt}
use modified_riscv.Kalloc.{pgsize}
use modified_riscv.Strings.{memmove}
use modified_riscv.Strings.Moves.{IsBeside, memmove_lem}
use modified_riscv.Vm.{pgrounddown, chunk, address, copyout}
use modified_riscv.Vm.Copies.{
  ne_of_test, chunk_pos, IsMapped, HasHole, IsChunk, chunk-IsChunk, address-add, rest_address,
  IsMapped-all, hole_later, hole_here,
}

-- An address that is none of a range's.
IsBeside-of_ne : (p n a : ℕ) → ((k : ℕ) → k < n → p + k ≢ a) → IsBeside p n a
IsBeside-of_ne p n a out = elim (dec_lt a p) [
  | yes low ↦ inl low
  | no not_low ↦ elim (dec_lt a (p + n)) [
    | yes inside ↦ absurd (out (a - p) (omega arith) (omega arith))
    | no high ↦ inr (omega arith)
  ]
]

module _ (walkaddr : ℕ → ℕ) where
  -- The user's buffer of `len` bytes at `va` overlaps neither the `len` bytes at `src` nor itself.
  pub record IsApart (src va len : ℕ) : Type 0 where
    pub source : (k : ℕ) → k < len → IsBeside src len (address walkaddr (va + k))
    pub distinct :
        (j k : ℕ)
        → j < len
        → k < len
        → address walkaddr (va + j) ≡ address walkaddr (va + k)
        → j ≡ k

  -- An address that is none of the user's buffer.
  abbrev pub IsElsewhere : ℕ → ℕ → ℕ → Type 0
  IsElsewhere va len a = (k : ℕ) → k < len → address walkaddr (va + k) ≢ a

  -- The bytes come to the user's buffer, and no other byte changes; or some byte is not mapped.
  abbrev pub CopiesOut : ℕ → ℕ → ℕ → (ℕ → ℕ) → Bool × (ℕ → ℕ) → Type 0
  CopiesOut src va len mem (true, after) =
      IsMapped walkaddr va len
      × ((k : ℕ) → k < len → after (address walkaddr (va + k)) ≡ mem (src + k))
      × ((a : ℕ) → IsElsewhere va len a → after a ≡ mem a)
  CopiesOut src va len mem (false, after) =
      HasHole walkaddr va len × ((a : ℕ) → IsElsewhere va len a → after a ≡ mem a)

  module _ (va len n next : ℕ) (c : IsChunk walkaddr va len n next) (src : ℕ) (mem : ℕ → ℕ)
      (apart : IsApart src va len) (here : walkaddr (pgrounddown va) ≢ 0) where
    moved_mem : ℕ → ℕ
    moved_mem = memmove (address walkaddr va) src n mem

    later_address :
        (k : ℕ) → k < len - n → address walkaddr (next + k) ≡ address walkaddr (va + (k + n))
    later_address k lt = ap (address walkaddr) (
        ap (λ x. next + x) (omega arith)
        ∙ rest_address walkaddr va len n next c (k + n) (omega arith) (omega arith))

    first :
        (k : ℕ)
        → k < n
        → memmove (address walkaddr va) src n mem (address walkaddr (va + k)) ≡ mem (src + k)
    first k lt =
        ap (memmove (address walkaddr va) src n mem) (address-add walkaddr va len n next c k lt)
        ∙ (memmove_lem (address walkaddr va) src n mem).0 k lt

    elsewhere : (a : ℕ) → IsElsewhere va n a → memmove (address walkaddr va) src n mem a ≡ mem a
    elsewhere a out = (memmove_lem (address walkaddr va) src n mem).1 a (
        IsBeside-of_ne (address walkaddr va) n a
          (λ k lt e. out k lt (address-add walkaddr va len n next c k lt ∙ e)))

    fewer : (a : ℕ) → IsElsewhere va len a → IsElsewhere va n a
    fewer a out k lt = out k (omega (arith, c.within))

    in_rest : (a : ℕ) → IsElsewhere va len a → IsElsewhere next (len - n) a
    in_rest a out k lt e = out (k + n) (omega arith) (sym (later_address k lt) ∙ e)

    IsApart-later : IsApart (src + n) next (len - n)
    IsApart-later = record {
      source = λ k lt.
          subst (λ x. IsBeside (src + n) (len - n) x) (sym (later_address k lt))
            (inside k (apart.source (k + n) (omega arith)));
      distinct = λ j k lt lt' e. omega (
        arith,
        apart.distinct (j + n) (k + n) (omega arith) (omega arith)
            (sym (later_address j lt) ∙ e ∙ later_address k lt'),
      );
    }
      where
        inside :
            (k : ℕ)
            → IsBeside src len (address walkaddr (va + (k + n)))
            → IsBeside (src + n) (len - n) (address walkaddr (va + (k + n)))
        inside k (inl l) = inl (omega arith)
        inside k (inr l) = inr (omega (arith, c.within))

    step-CopiesOut :
        (r : Bool × (ℕ → ℕ))
        → CopiesOut (src + n) next (len - n) (memmove (address walkaddr va) src n mem) r
        → CopiesOut src va len mem r
    step-CopiesOut (false, after) (hole, same) = (
      hole_later walkaddr va len n next c hole,
      λ a out. same a (in_rest a out) ∙ elsewhere a (fewer a out),
    )
    step-CopiesOut (true, after) (mapped, moved, same) = (
      IsMapped-all walkaddr va len n next c here mapped,
      all,
      λ a out. same a (in_rest a out) ∙ elsewhere a (fewer a out),
    )
      where
        source_kept :
            (k : ℕ)
            → n ≤ k
            → k < len
            → memmove (address walkaddr va) src n mem (src + n + (k - n)) ≡ mem (src + k)
        source_kept k low lt =
            elsewhere (src + n + (k - n))
              (λ j l e. off j (apart.source j (omega (arith, c.within))) e)
            ∙ ap mem (omega arith)
          where
            off :
                (j : ℕ)
                → IsBeside src len (address walkaddr (va + j))
                → address walkaddr (va + j) ≢ src + n + (k - n)
            off j (inl l) e = omega arith
            off j (inr l) e = omega arith

        all : (k : ℕ) → k < len → after (address walkaddr (va + k)) ≡ mem (src + k)
        all k lt = elim (dec_lt k n) [
          | yes early ↦
              same (address walkaddr (va + k)) (λ j l e. absurd (
                clash j l early
                  (apart.distinct (j + n) k (omega arith) lt (sym (later_address j l) ∙ e))))
              ∙ first k early
          | no late ↦
              ap after (
                ap (λ x. address walkaddr (va + x)) (omega arith)
                ∙ sym (later_address (k - n) (omega (arith, c.positive))))
              ∙ moved (k - n) (omega (arith, c.positive))
              ∙ source_kept k (omega arith) lt
        ]
          where
            clash : (j : ℕ) → j < len - n → k < n → j + n ≡ k → ⊥
            clash j l early e = omega arith

  -- `copyout` of `len` bytes to a user's buffer that overlaps neither them nor itself returns 0 exactly
  -- if every byte is mapped, and then has copied them all; in both cases it changes no byte outside the
  -- buffer.
  pub copyout-CopiesOut :
      (fuel src va len : ℕ) (mem : ℕ → ℕ)
      → len ≤ fuel
      → IsApart src va len
      → CopiesOut src va len mem (copyout walkaddr fuel va src len mem)
  unfolding copyout
  copyout-CopiesOut zero src va len mem le apart =
      (λ k lt. absurd (omega arith), λ k lt. absurd (omega arith), λ a out. refl)
  copyout-CopiesOut (suc fuel) src va len mem le apart = elim (Bool-cases (ltb 0 len)) [
    | inr nothing ↦
        rw nothing (λ k lt. absurd (ground arith), λ k lt. absurd (ground arith), λ a out. refl)
    | inl some ↦ rw some (elim (Bool-cases (walkaddr (pgrounddown va) == 0)) [
      | inl hole ↦
          rw hole
            (hole_here walkaddr va len (ltb→lt 0 len some) ((==_iff _ _).0 hole), λ a out. refl)
      | inr here ↦ rw here (
          step-CopiesOut va len (chunk va len) (pgrounddown va + pgsize)
            (chunk-IsChunk walkaddr va len (ltb→lt 0 len some)) src mem apart (ne_of_test _ here) _
            (copyout-CopiesOut fuel (src + chunk va len) (pgrounddown va + pgsize)
              (len - chunk va len) (memmove (address walkaddr va) src (chunk va len) mem)
              (omega (arith, chunk_pos va len (ltb→lt 0 len some)))
              (IsApart-later va len (chunk va len) (pgrounddown va + pgsize)
                (chunk-IsChunk walkaddr va len (ltb→lt 0 len some)) src mem apart
                (ne_of_test _ here))))
    ])
  ]
