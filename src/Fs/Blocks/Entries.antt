-- ===== src/Fs/Blocks/Entries.antt =====
-- What the second loop of `itrunc` frees.
use modified_riscv.Base.{
  ℕ, zero, suc, ◌+◌, ◌≤◌, ◌<◌, ◌≡◌, ◌≢◌, ◌⊎◌, ◌↔◌, inl, inr, sym, ◌∙◌, ap, subst, true, false, ◌==◌,
  update, arith, Bool-cases, ==_iff, Returns,
}
use native.Mathlib.Decide.{dec_lt}
use modified_riscv.Fs.Blocks.{ndirect, nindirect, Volume, free_entries}
use modified_riscv.Fs.Blocks.Map.{pointer, pointers, IsMap}
use modified_riscv.Fs.Blocks.Free.{Freed, Freed-iff, Freed-null, Freed-one}

-- The pointers that are gone in front of round `j` of the second loop.
abbrev pub Past : ℕ → ℕ → Type 0
Past j k = (k < 12) ⊎ ((13 ≤ k) × (k < 13 + j))

Past-suc : (j k : ℕ) → (Past j k ⊎ (k ≡ 13 + j)) ↔ Past (j + 1) k
Past-suc j k = (to, from)
  where
    to : Past j k ⊎ (k ≡ 13 + j) → Past (j + 1) k
    to (inl (inl low)) = inl low
    to (inl (inr (low, high))) = inr (low, omega arith)
    to (inr e) = inr (omega arith, omega arith)

    from : Past (j + 1) k → Past j k ⊎ (k ≡ 13 + j)
    from (inl low) = inl (inl low)
    from (inr (low, high)) = elim (dec_lt k (13 + j)) [
      | yes l ↦ inl (inr (low, l))
      | no l ↦ inr (omega arith)
    ]

Past-small : (j k : ℕ) → j < nindirect → Past j k → (k < pointers) × (k ≢ 13 + j)
Past-small j k lt (inl low) = (omega arith, omega arith)
Past-small j k lt (inr (low, high)) = (omega arith, omega arith)

-- The state in front of that round, from the state `v1` in front of the loop.
pub record Emptying (v0 v1 : Volume) (j : ℕ) (v : Volume) : Type 0 where
  pub freed : Freed (pointer v0) (Past j) v0.used v.used
  pub addrs : v.addrs ≡ v1.addrs
  pub words : v.word ≡ v0.word

module _ (v0 v1 : Volume) (m : IsMap (pointer v0) v0.used) (set : v0.addrs ndirect ≢ 0) where
  entry : (j : ℕ) → pointer v0 (13 + j) ≡ v0.word (v0.addrs ndirect) j
  entry j = ground arith

  entry_of :
      (j : ℕ) (v : Volume) → v.word ≡ v0.word → pointer v0 (13 + j) ≡ v.word (v0.addrs ndirect) j
  entry_of j v same = entry j ∙ ap (λ f. f (v0.addrs ndirect) j) (sym same)

  Emptying-null :
      (j : ℕ) (v : Volume)
      → Emptying v0 v1 j v
      → v.word (v0.addrs ndirect) j ≡ 0
      → Emptying v0 v1 (j + 1) v
  Emptying-null j v e null = record {
    freed = Freed-iff (pointer v0) v0.used _ (Past (j + 1)) v.used (Past-suc j) (
        Freed-null (pointer v0) v0.used (Past j) v.used (13 + j) (entry_of j v e.words ∙ null)
          e.freed);
    addrs = e.addrs;
    words = e.words;
  }

  Emptying-one :
      (j : ℕ) (v : Volume)
      → j < nindirect
      → Emptying v0 v1 j v
      → v.word (v0.addrs ndirect) j ≢ 0
      → (v.used (v.word (v0.addrs ndirect) j) ≡ true)
        × Emptying v0 v1
            (j + 1)
            (record v { used = update v.used (v.word (v0.addrs ndirect) j) false })
  Emptying-one j v lt e nonzero =
      subst
        (λ x.
          (v.used x ≡ true) × Emptying v0 v1 (j + 1) (record v { used = update v.used x false }))
        here
        (
          one.0,
          record {
            freed = Freed-iff (pointer v0) v0.used _ (Past (j + 1)) _ (Past-suc j) one.1;
            addrs = e.addrs;
            words = e.words;
          },
        )
    where
      here : pointer v0 (13 + j) ≡ v.word (v0.addrs ndirect) j
      here = entry_of j v e.words

      one :
          (v.used (pointer v0 (13 + j)) ≡ true)
          × Freed
              (pointer v0)
              (λ k. Past j k ⊎ (k ≡ 13 + j))
              v0.used
              (update v.used (pointer v0 (13 + j)) false)
      one =
          Freed-one (pointer v0) v0.used (Past j) v.used (13 + j) m (λ k p. Past-small j k lt p)
            (omega arith) (λ z. nonzero (sym here ∙ z)) e.freed

  pub free_entries-Emptying :
      (r j : ℕ) (v : Volume)
      → j + r ≡ nindirect
      → Emptying v0 v1 j v
      → Returns (free_entries (v0.addrs ndirect) j r v) (Emptying v0 v1 nindirect)
  unfolding free_entries
  free_entries-Emptying zero j v end e = subst (λ k. Emptying v0 v1 k v) (omega arith) e
  free_entries-Emptying (suc r) j v end e = elim (Bool-cases (v.word (v0.addrs ndirect) j == 0)) [
    | inl null ↦ rw null (
        free_entries-Emptying r (j + 1) v (omega arith) (Emptying-null j v e ((==_iff _ 0).0 null)))
    | inr nonzero ↦
        rw (nonzero, (one nonzero).0)
          (free_entries-Emptying r (j + 1) _ (omega arith) (one nonzero).1)
  ]
    where
      one :
          (v.word (v0.addrs ndirect) j == 0) ≡ false
          → (v.used (v.word (v0.addrs ndirect) j) ≡ true)
            × Emptying v0 v1
                (j + 1)
                (record v { used = update v.used (v.word (v0.addrs ndirect) j) false })
      one nonzero = Emptying-one j v (omega arith) e (ground arith)
