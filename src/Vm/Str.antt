-- ===== src/Vm/Str.antt =====
-- `copyinstr`, which goes by pages, against the copy that goes by bytes.
use modified_riscv.Base.{
  ℕ, zero, suc, ◌+◌, ◌-◌, ◌≤◌, ◌<◌, ◌≡◌, ◌≢◌, inl, inr, refl, sym, ◌∙◌, ap, ap₂, subst, Bool, true,
  false, ◌==◌, if◌then◌else◌, update, arith, Bool-cases, true_ne_false, lt→ltb,
}
use modified_riscv.Kalloc.{pgsize}
use modified_riscv.Vm.{pgrounddown, chunk, address, Progress, copy_until_null, copyinstr}
use modified_riscv.Vm.Copies.{ne_of_test, chunk-IsChunk, address-add, IsChunk}

not_null : (p : ℕ) → p ≢ 0 → (p == 0) ≡ false
not_null p ne = ground arith

-- The loop that has found no null byte has gone over all of its bytes.
copy_until_null-max :
    (n p : ℕ) (c : Progress)
    → (copy_until_null n p c).got_null ≡ false
    → (copy_until_null n p c).max ≡ c.max - n
unfolding copy_until_null
copy_until_null-max zero p c e = omega arith
copy_until_null-max (suc n) p c e = elim (Bool-cases (c.mem p == 0)) [
  | inl null ↦ absurd (true_ne_false (rw null at e))
  | inr more ↦ rw more (copy_until_null-max n (p + 1) _ (rw more at e) ∙ omega arith)
]

module _ (walkaddr : ℕ → ℕ) where
  -- Byte by byte: up to the null byte, which is the last one copied, or to an unmapped page, or `max`
  -- bytes.
  unfoldable pub copy_string : ℕ → ℕ → ℕ → (ℕ → ℕ) → Bool × (ℕ → ℕ)
  copy_string zero va dst mem = (false, mem)
  copy_string (suc max) va dst mem =
      let byte = mem (address walkaddr va) in
      let rest = copy_string max (va + 1) (dst + 1) (update mem dst byte) in
      if walkaddr (pgrounddown va) == 0
      then (false, mem)
      else if byte == 0
      then (true, update mem dst 0)
      else rest

  -- The rest of the copy, after a piece.
  abbrev resume : ℕ → Progress → Bool × (ℕ → ℕ)
  resume va c = if c.got_null then (true, c.mem) else copy_string c.max va c.dst c.mem

  -- The pages of a piece are mapped, and its bytes follow each other.
  abbrev IsPiece : ℕ → ℕ → ℕ → Type 0
  IsPiece n p va =
      (k : ℕ) → k < n → (walkaddr (pgrounddown (va + k)) ≢ 0) × (address walkaddr (va + k) ≡ p + k)

  IsPiece-suc : (n p va : ℕ) → IsPiece (suc n) p va → IsPiece n (p + 1) (va + 1)
  IsPiece-suc n p va piece k lt = (
    subst (λ x. walkaddr (pgrounddown x) ≢ 0) shift (piece (k + 1) (omega arith)).0,
    ap (address walkaddr) (sym shift) ∙ (piece (k + 1) (omega arith)).1 ∙ omega arith,
  )
    where
      shift : va + (k + 1) ≡ va + 1 + k
      shift = omega arith

  copy_string-piece :
      (n p va max dst : ℕ) (mem : ℕ → ℕ)
      → IsPiece (suc n) p va
      → copy_string (suc max) va dst mem ≡ (
          if mem p == 0
          then (true, update mem dst 0)
          else copy_string max (va + 1) (dst + 1) (update mem dst (mem p)))
  unfolding copy_string
  copy_string-piece n p va max dst mem piece = rw (mapped, at_p) refl
    where
      mapped : (walkaddr (pgrounddown va) == 0) ≡ false
      mapped =
          not_null (walkaddr (pgrounddown va))
            (subst (λ x. walkaddr (pgrounddown x) ≢ 0) (omega arith) (piece 0 (omega arith)).0)

      at_p : address walkaddr va ≡ p
      at_p = ap (address walkaddr) (omega arith) ∙ (piece 0 (omega arith)).1 ∙ omega arith

  copy_until_null-resume :
      (n p va max dst : ℕ) (mem : ℕ → ℕ)
      → n ≤ max
      → IsPiece n p va
      → resume
          (va + n)
          (copy_until_null n p (record { got_null = false; max = max; dst = dst; mem = mem }))
        ≡ copy_string max va dst mem
  unfolding copy_until_null
  copy_until_null-resume zero p va max dst mem le piece =
      ap (λ x. copy_string max x dst mem) (omega arith)
  copy_until_null-resume (suc n) p va zero dst mem le piece = absurd (omega arith)
  copy_until_null-resume (suc n) p va (suc max) dst mem le piece =
      by_null _ _ (mem p == 0) (
        ap₂
          (λ v m. resume v (
            copy_until_null n (p + 1)
              (record { got_null = false; max = m; dst = dst + 1; mem = update mem dst (mem p) })))
          (omega arith) (omega arith)
        ∙ copy_until_null-resume n (p + 1) (va + 1) max (dst + 1) (update mem dst (mem p))
            (omega arith) (IsPiece-suc n p va piece))
      ∙ sym (copy_string-piece n p va max dst mem piece)
    where
      by_null :
          (after : Progress) (result : Bool × (ℕ → ℕ)) (t : Bool)
          → resume (va + suc n) after ≡ result
          → resume (va + suc n) (
              if t
              then record { got_null = true; max = suc max; dst = dst; mem = update mem dst 0 }
              else after)
            ≡ (if t then (true, update mem dst 0) else result)
      by_null after result true e = refl
      by_null after result false e = e

  copy_string-zero : (va dst : ℕ) (mem : ℕ → ℕ) → copy_string 0 va dst mem ≡ (false, mem)
  unfolding copy_string
  copy_string-zero va dst mem = refl

  copy_string-hole :
      (max va dst : ℕ) (mem : ℕ → ℕ)
      → (walkaddr (pgrounddown va) == 0) ≡ true
      → copy_string (suc max) va dst mem ≡ (false, mem)
  unfolding copy_string
  copy_string-hole max va dst mem hole = rw hole refl

  -- Behind a piece, the copy goes on at the next page.
  resume-next :
      (va max n next : ℕ) (c : Progress)
      → IsChunk walkaddr va max n next
      → (c.got_null ≡ false → c.max ≡ max - n)
      → resume next c ≡ resume (va + n) c
  resume-next va max n next c piece left = by_null c.got_null left
    where
      by_max :
          (m : ℕ)
          → m ≡ max - n
          → copy_string m next c.dst c.mem ≡ copy_string m (va + n) c.dst c.mem
      by_max zero e =
          copy_string-zero next c.dst c.mem ∙ sym (copy_string-zero (va + n) c.dst c.mem)
      by_max (suc m) e = ap (λ x. copy_string (suc m) x c.dst c.mem) (piece.follows (omega arith))

      by_null :
          (t : Bool)
          → (t ≡ false → c.max ≡ max - n)
          → (if t then (true, c.mem) else copy_string c.max next c.dst c.mem)
            ≡ (if t then (true, c.mem) else copy_string c.max (va + n) c.dst c.mem)
      by_null true e = refl
      by_null false e = by_max c.max (e refl)

  copyinstr-resume :
      (fuel va : ℕ) (got : Bool) (max dst : ℕ) (mem : ℕ → ℕ)
      → (got ≡ false → max ≤ fuel)
      → copyinstr walkaddr fuel va (record { got_null = got; max = max; dst = dst; mem = mem })
        ≡ resume va (record { got_null = got; max = max; dst = dst; mem = mem })
  unfolding copyinstr
  copyinstr-resume zero va true max dst mem le = refl
  copyinstr-resume (suc fuel) va true max dst mem le = refl
  copyinstr-resume zero va false zero dst mem le = sym (copy_string-zero va dst mem)
  copyinstr-resume zero va false (suc max) dst mem le = absurd (omega (arith, le refl))
  copyinstr-resume (suc fuel) va false zero dst mem le = sym (copy_string-zero va dst mem)
  copyinstr-resume (suc fuel) va false (suc max) dst mem le =
      rw (lt→ltb 0 (suc max) (omega arith)) (elim (Bool-cases (walkaddr (pgrounddown va) == 0)) [
        | inl hole ↦ rw hole (sym (copy_string-hole max va dst mem hole))
        | inr here ↦ rw here (
            copyinstr-resume fuel (pgrounddown va + pgsize) c.got_null c.max c.dst c.mem
              (λ going. omega (arith, left going, le refl, piece.positive))
            ∙ resume-next va (suc max) (chunk va (suc max)) (pgrounddown va + pgsize) c piece left
            ∙ copy_until_null-resume (chunk va (suc max)) (address walkaddr va) va (suc max) dst mem
                piece.within (mapped here))
      ])
    where
      piece : IsChunk walkaddr va (suc max) (chunk va (suc max)) (pgrounddown va + pgsize)
      piece = chunk-IsChunk walkaddr va (suc max) (omega arith)

      c : Progress
      c =
          copy_until_null (chunk va (suc max)) (address walkaddr va)
            (record { got_null = false; max = suc max; dst = dst; mem = mem })

      left : c.got_null ≡ false → c.max ≡ suc max - chunk va (suc max)
      left going = copy_until_null-max (chunk va (suc max)) (address walkaddr va) _ going

      mapped :
          (walkaddr (pgrounddown va) == 0) ≡ false
          → IsPiece (chunk va (suc max)) (address walkaddr va) va
      mapped here k lt = (
        rw (piece.page k lt) (ne_of_test (walkaddr (pgrounddown va)) here),
        address-add walkaddr va (suc max) (chunk va (suc max)) (pgrounddown va + pgsize) piece k lt,
      )

  -- `copyinstr` goes by pages, and does the same as the copy byte by byte: it copies up to the first
  -- null byte, and fails at a page that is not mapped or after `max` bytes without one. A round copies
  -- a byte at least, so that `max` rounds are enough.
  pub copyinstr-copy_string :
      (fuel va max dst : ℕ) (mem : ℕ → ℕ)
      → max ≤ fuel
      → copyinstr walkaddr fuel va (record { got_null = false; max = max; dst = dst; mem = mem })
        ≡ copy_string max va dst mem
  copyinstr-copy_string fuel va max dst mem le =
      copyinstr-resume fuel va false max dst mem (λ going. le)
