-- ===== src/Fs/Blocks/Alloc.antt =====
-- What `balloc` finds.
use modified_riscv.Base.{
  ℕ, zero, suc, ◌+◌, ◌*◌, ◌/◌, ◌≤◌, ◌<◌, ◌≡◌, ◌⊎◌, inl, inr, refl, subst, Bool, true, false, Option,
  none, some, ltb, if◌then◌else◌, arith, Bool-cases, ltb→lt,
}
use native.Mathlib.Decide.{dec_lt}
use modified_riscv.Fs.Blocks.{bpb, Volume, find_bit, find_free, take_block, balloc}

-- Every block from `b` to before `n` is in use.
abbrev pub AllUsed : (ℕ → Bool) → ℕ → ℕ → Type 0
AllUsed used b n = (j : ℕ) → b ≤ j → j < n → used j ≡ true

-- A search of the blocks from `b` to before `n`.
abbrev pub Finds : ℕ → (ℕ → Bool) → ℕ → ℕ → Option ℕ → Type 0
Finds size used b n none = (j : ℕ) → b ≤ j → j < n → j < size → used j ≡ true
Finds size used b n (some bno) = (b ≤ bno) × (bno < size) × (used bno ≡ false)

module _ (size : ℕ) where
  find_bit-Finds :
      (used : ℕ → Bool) (b bi r : ℕ)
      → Finds size used (b + bi) (b + bi + r) (find_bit size used b bi r)
  unfolding find_bit
  find_bit-Finds used b bi zero = λ j low high inside. absurd (omega arith)
  find_bit-Finds used b bi (suc r) = elim (Bool-cases (ltb (b + bi) size)) [
    | inr out ↦ rw out (λ j low high inside. absurd (ground arith))
    | inl within ↦ rw within (elim (Bool-cases (used (b + bi))) [
      | inr free ↦ rw free (omega arith, ltb→lt (b + bi) size within, free)
      | inl busy ↦
          rw busy
            (one_more (find_bit size used b (bi + 1) r) busy (find_bit-Finds used b (bi + 1) r))
    ])
  ]
    where
      one_more :
          (o : Option ℕ)
          → used (b + bi) ≡ true
          → Finds size used (b + (bi + 1)) (b + (bi + 1) + r) o
          → Finds size used (b + bi) (b + bi + suc r) o
      one_more none busy f = λ j low high inside. elim (dec_lt (b + bi) j) [
        | yes later ↦ f j (omega arith) (omega arith) inside
        | no here ↦ subst (λ x. used x ≡ true) (omega arith) busy
      ]
      one_more (some bno) busy (low, inside, free) = (omega arith, inside, free)

  find_free-Finds :
      (used : ℕ → Bool) (b r : ℕ) → Finds size used b (b + r * bpb) (find_free size used b r)
  unfolding find_free
  find_free-Finds used b zero = λ j low high inside. absurd (omega arith)
  find_free-Finds used b (suc r) =
      by_size (ltb b size) (find_bit size used b 0 bpb) (find_free size used (b + bpb) r) refl
        (find_bit-Finds used b 0 bpb) (find_free-Finds used (b + bpb) r)
    where
      by_size :
          (t : Bool) (o rest : Option ℕ)
          → ltb b size ≡ t
          → Finds size used (b + 0) (b + 0 + bpb) o
          → Finds size used (b + bpb) (b + bpb + r * bpb) rest
          → Finds size used b
              (b + suc r * bpb)
              (if t then elim o [ none ↦ rest | some bno ↦ some bno ] else none)
      by_size false o rest out found after = λ j low high inside. absurd (ground arith)
      by_size true (some bno) rest within (low, inside, free) after = (omega arith, inside, free)
      by_size true none (some bno) within full (low, inside, free) = (omega arith, inside, free)
      by_size true none none within full after = λ j low high inside. elim (dec_lt j (b + bpb)) [
        | yes here ↦ full j (omega arith) (omega arith) inside
        | no later ↦ after j (omega arith) (omega arith) inside
      ]

  -- A free block, taken, or 0 with nothing changed where all blocks are in use.
  abbrev pub Allocates : Volume → ℕ × Volume → Type 0
  Allocates v (addr, after) =
      ((addr < size) × (v.used addr ≡ false) × (after ≡ take_block addr v))
      ⊎ ((addr ≡ 0) × (after ≡ v) × AllUsed v.used 0 size)

  pub balloc-Allocates : (v : Volume) → Allocates v (balloc size v)
  unfolding balloc
  balloc-Allocates v =
      by_search (find_free size v.used 0 (size / bpb + 1))
        (find_free-Finds v.used 0 (size / bpb + 1))
    where
      by_search :
          (o : Option ℕ)
          → Finds size v.used 0 (0 + (size / bpb + 1) * bpb) o
          → Allocates v (elim o [ none ↦ (0, v) | some b ↦ (b, take_block b v) ])
      by_search (some b) (low, inside, free) = inl (inside, free, refl)
      by_search none full = inr (refl, refl, λ j low high. full j low (omega arith) high)
