-- ===== src/Fs/Blocks/Free.antt =====
-- What the first loop of `itrunc` frees.
use modified_riscv.Base.{
  ℕ, zero, suc, ◌+◌, ◌≤◌, ◌<◌, ◌≡◌, ◌≢◌, ◌⊎◌, ◌↔◌, inl, inr, refl, sym, ◌∙◌, ap, subst, Bool, true,
  false, ◌==◌, update, update_self, update_ne, arith, Bool-cases, ==_iff, true_ne_false, Returns,
}
use native.Mathlib.Decide.{dec_lt, ℕ_discrete}
use modified_riscv.Fs.Blocks.{Volume, free_direct}
use modified_riscv.Fs.Blocks.Map.{pointer, pointers, IsMap}

-- The blocks in use, less those that the pointers `k` with `P k` name.
abbrev pub Freed : (ℕ → ℕ) → (ℕ → Type 0) → (ℕ → Bool) → (ℕ → Bool) → Type 0
Freed f P used after =
    (b : ℕ) → (after b ≡ true) ↔ ((used b ≡ true) × ((k : ℕ) → P k → f k ≢ 0 → f k ≢ b))

module _ (f : ℕ → ℕ) (used : ℕ → Bool) where
  pub Freed-iff :
      (P Q : ℕ → Type 0) (after : ℕ → Bool)
      → ((k : ℕ) → P k ↔ Q k)
      → Freed f P used after
      → Freed f Q used after
  Freed-iff P Q after same h b = (
    λ u. (((h b).0 u).0, λ k q. ((h b).0 u).1 k ((same k).1 q)),
    λ (u, out). (h b).1 (u, λ k p. out k ((same k).0 p)),
  )

  -- A null pointer frees nothing.
  pub Freed-null :
      (P : ℕ → Type 0) (after : ℕ → Bool) (k : ℕ)
      → f k ≡ 0
      → Freed f P used after
      → Freed f (λ j. P j ⊎ (j ≡ k)) used after
  Freed-null P after k null h b = (
    λ u. (
      ((h b).0 u).0,
      λ j p nonzero. elim p [
        | inl old ↦ ((h b).0 u).1 j old nonzero
        | inr e ↦ absurd (nonzero (ap f e ∙ null))
      ],
    ),
    λ (u, out). (h b).1 (u, λ j p. out j (inl p)),
  )

  -- A further pointer names a block that is still in use, and it is freed.
  pub Freed-one :
      (P : ℕ → Type 0) (after : ℕ → Bool) (k : ℕ)
      → IsMap f used
      → ((j : ℕ) → P j → (j < pointers) × (j ≢ k))
      → k < pointers
      → f k ≢ 0
      → Freed f P used after
      → (after (f k) ≡ true) × Freed f (λ j. P j ⊎ (j ≡ k)) used (update after (f k) false)
  Freed-one P after k m other lt set h = (
    (h (f k)).1 (
      m.in_use k lt set,
      λ j p nonzero e. (other j p).1 (m.distinct j k (other j p).0 lt nonzero e),
    ),
    λ b. elim (ℕ_discrete (f k) b) [
      | yes here ↦ (
        λ u. absurd (
            true_ne_false (
              sym u
              ∙ subst (λ x. update after (f k) false x ≡ false) here
                  (update_self after (f k) false))),
        λ (u, out). absurd (out k (inr refl) set here),
      )
      | no ne ↦ (
        λ u. (
          ((h b).0 (sym (kept b ne) ∙ u)).0,
          λ j p nonzero. elim p [
            | inl old ↦ ((h b).0 (sym (kept b ne) ∙ u)).1 j old nonzero
            | inr e ↦ λ x. ne (ap f (sym e) ∙ x)
          ],
        ),
        λ (u, out). kept b ne ∙ (h b).1 (u, λ j p. out j (inl p)),
      )
    ],
  )
    where
      kept : (b : ℕ) → f k ≢ b → update after (f k) false b ≡ after b
      kept b ne = update_ne after (f k) b false ne

-- The state in front of round `i` of the first loop, from the state `v0` on.
pub record Clearing (v0 : Volume) (i : ℕ) (v : Volume) : Type 0 where
  pub freed : Freed (pointer v0) (λ k. k < i) v0.used v.used
  pub gone : (k : ℕ) → k < i → v.addrs k ≡ 0
  pub left : (k : ℕ) → i ≤ k → v.addrs k ≡ v0.addrs k
  pub words : v.word ≡ v0.word

module _ (v0 : Volume) (m : IsMap (pointer v0) v0.used) where
  below : (i k : ℕ) → ((k < i) ⊎ (k ≡ i)) ↔ (k < i + 1)
  below i k =
      (λ s. elim s [ inl l ↦ omega arith | inr e ↦ omega arith ], λ lt. by_dec (dec_lt k i) lt)
    where
      by_dec : Dec (k < i) → k < i + 1 → (k < i) ⊎ (k ≡ i)
      by_dec (yes b) lt = inl b
      by_dec (no b) lt = inr (omega arith)

  direct : (i : ℕ) → i < 12 → pointer v0 i ≡ v0.addrs i
  direct i lt = ground arith

  Clearing-null :
      (i : ℕ) (v : Volume) → i < 12 → Clearing v0 i v → v.addrs i ≡ 0 → Clearing v0 (i + 1) v
  Clearing-null i v lt c null = record {
    freed =
        Freed-iff (pointer v0) v0.used _ (λ k. k < i + 1) v.used (below i)
          (Freed-null (pointer v0) v0.used (λ k. k < i) v.used i
            (direct i lt ∙ sym (c.left i (omega arith)) ∙ null) c.freed);
    gone = λ k l. elim ((below i k).1 l) [ inl b ↦ c.gone k b | inr e ↦ ap v.addrs e ∙ null ];
    left = λ k le. c.left k (omega arith);
    words = c.words;
  }

  Clearing-one :
      (i : ℕ) (v : Volume)
      → i < 12
      → Clearing v0 i v
      → v.addrs i ≢ 0
      → (v.used (v.addrs i) ≡ true)
        × Clearing v0
            (i + 1)
            (record v { used = update v.used (v.addrs i) false; addrs = update v.addrs i 0 })
  Clearing-one i v lt c set =
      subst
        (λ x.
          (v.used x ≡ true)
          × Clearing v0 (i + 1)
              (record v { used = update v.used x false; addrs = update v.addrs i 0 }))
        here
        (
          one.0,
          record {
            freed = Freed-iff (pointer v0) v0.used _ (λ k. k < i + 1) _ (below i) one.1;
            gone = λ k l. elim ((below i k).1 l) [
              | inl b ↦ update_ne v.addrs i k 0 (omega arith) ∙ c.gone k b
              | inr e ↦ ap (update v.addrs i 0) e ∙ update_self v.addrs i 0
            ];
            left = λ k le. update_ne v.addrs i k 0 (omega arith) ∙ c.left k (omega arith);
            words = c.words;
          },
        )
    where
      here : pointer v0 i ≡ v.addrs i
      here = direct i lt ∙ sym (c.left i (omega arith))

      one :
          (v.used (pointer v0 i) ≡ true)
          × Freed (pointer v0) (λ j. (j < i) ⊎ (j ≡ i)) v0.used (update v.used (pointer v0 i) false)
      one =
          Freed-one (pointer v0) v0.used (λ k. k < i) v.used i m (λ j l. (omega arith, omega arith))
            (omega arith) (λ z. set (sym here ∙ z)) c.freed

  pub free_direct-Clearing :
      (r i : ℕ) (v : Volume)
      → i + r ≡ 12
      → Clearing v0 i v
      → Returns (free_direct i r v) (Clearing v0 12)
  unfolding free_direct
  free_direct-Clearing zero i v end c = subst (λ k. Clearing v0 k v) (omega arith) c
  free_direct-Clearing (suc r) i v end c = elim (Bool-cases (v.addrs i == 0)) [
    | inl null ↦ rw null (
        free_direct-Clearing r (i + 1) v (omega arith)
          (Clearing-null i v (omega arith) c ((==_iff (v.addrs i) 0).0 null)))
    | inr set ↦ rw (set, (one set).0) (free_direct-Clearing r (i + 1) _ (omega arith) (one set).1)
  ]
    where
      one :
          (v.addrs i == 0) ≡ false
          → (v.used (v.addrs i) ≡ true)
            × Clearing v0
                (i + 1)
                (record v { used = update v.used (v.addrs i) false; addrs = update v.addrs i 0 })
      one set = Clearing-one i v (omega arith) c (ground arith)
