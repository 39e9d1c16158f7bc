-- ===== src/Fs/Blocks/Itrunc.antt =====
-- What `itrunc` frees.
use modified_riscv.Base.{
  ℕ, ◌<◌, ◌≡◌, ◌≢◌, ◌⊎◌, ◌↔◌, inl, inr, refl, sym, ◌∙◌, ap, subst, Bool, true, false, Option, some,
  ◌==◌, if◌then◌else◌, update, update_self, update_ne, arith, ==_iff, true_ne_false, Returns,
  bind-Returns, ◌>>=◌,
}
use native.Mathlib.Decide.{dec_lt}
use modified_riscv.Fs.Blocks.{
  ndirect, nindirect, iupdate, Volume, bfree, free_direct, free_entries, free_indirect, itrunc,
}
use modified_riscv.Fs.Blocks.Map.{pointer, pointers, IsMap}
use modified_riscv.Fs.Blocks.Bitmap.{IsMeta, IsApart}
use modified_riscv.Fs.Blocks.Free.{Freed, Freed-iff, Freed-one, Clearing, free_direct-Clearing}
use modified_riscv.Fs.Blocks.Entries.{Past, Emptying, free_entries-Emptying}

-- The inode without blocks, and its blocks free.
pub record IsEmptied (v0 w : Volume) : Type 0 where
  pub freed : Freed (pointer v0) (λ k. k < pointers) v0.used w.used
  pub null : (k : ℕ) → k < pointers → pointer w k ≡ 0
  pub words : w.word ≡ v0.word

no_pointers :
    (w : Volume) → ((k : ℕ) → k < 13 → w.addrs k ≡ 0) → (k : ℕ) → k < pointers → pointer w k ≡ 0
no_pointers w null k lt = elim (dec_lt k 13) [
  | yes low ↦ by_low low (null k low)
  | no high ↦ by_high high (null 12 (omega arith))
]
  where
    by_low : k < 13 → w.addrs k ≡ 0 → pointer w k ≡ 0
    by_low low e = ground arith

    by_high : ¬ (k < 13) → w.addrs ndirect ≡ 0 → pointer w k ≡ 0
    by_high high e = ground arith

twelve : (k : ℕ) → k < 13 → ¬ (k < 12) → 12 ≡ k
twelve k lt high = omega arith

Past-all : (k : ℕ) → (Past nindirect k ⊎ (k ≡ 12)) ↔ (k < pointers)
Past-all k = (to, from)
  where
    to : Past nindirect k ⊎ (k ≡ 12) → k < pointers
    to (inl (inl low)) = omega arith
    to (inl (inr (low, high))) = omega arith
    to (inr e) = omega arith

    from : k < pointers → Past nindirect k ⊎ (k ≡ 12)
    from lt = elim (dec_lt k 12) [
      | yes low ↦ inl (inl low)
      | no up ↦ elim (dec_lt 12 k) [
        | yes high ↦ inl (inr (omega arith, omega arith))
        | no le ↦ inr (omega arith)
      ]
    ]

module _ (v0 v1 : Volume) (m : IsMap (pointer v0) v0.used) (c : Clearing v0 12 v1) where
  direct_only : v1.addrs ndirect ≡ 0 → IsEmptied v0 v1
  direct_only null = record {
    freed = λ b. (
      λ u. (
        ((c.freed b).0 u).0,
        λ k lt nonzero. elim (dec_lt k 12) [
          | yes low ↦ ((c.freed b).0 u).1 k low nonzero
          | no high ↦ absurd (nonzero (beyond k high (sym (c.left 12 (omega arith)) ∙ null)))
        ],
      ),
      λ (u, out). (c.freed b).1 (u, λ k low. out k (omega arith)),
    );
    null = no_pointers v1 (λ k lt. elim (dec_lt k 12) [
      | yes low ↦ c.gone k low
      | no high ↦ ap v1.addrs (omega arith) ∙ null
    ]);
    words = c.words;
  }
    where
      beyond : (k : ℕ) → ¬ (k < 12) → v0.addrs ndirect ≡ 0 → pointer v0 k ≡ 0
      beyond k high e = ground arith

  last :
      v0.addrs ndirect ≢ 0
      → (v2 : Volume) → Emptying v0 v1 nindirect v2
      → Returns
          (bfree (v2.addrs ndirect) v2 >>= λ v3.
            some (record v3 { addrs = update v3.addrs ndirect 0 }))
          (IsEmptied v0)
  unfolding bfree
  last set v2 e = rw (subst (λ x. v2.used x ≡ true) (sym here) one.0) (record {
    freed =
        Freed-iff (pointer v0) v0.used _ (λ k. k < pointers) _ Past-all
          (subst
            (λ x.
              Freed (pointer v0) (λ k. Past nindirect k ⊎ (k ≡ 12)) v0.used
                (update v2.used x false))
            (sym here) one.1);
    null =
        no_pointers
          (record v2 {
            used = update v2.used (v2.addrs ndirect) false;
            addrs = update v2.addrs ndirect 0;
          })
          (λ k lt. elim (dec_lt k 12) [
            | yes low ↦
                update_ne v2.addrs 12 k 0 (omega arith) ∙ ap (λ f. f k) e.addrs ∙ c.gone k low
            | no high ↦
                subst (λ x. update v2.addrs 12 0 x ≡ 0) (twelve k lt high)
                  (update_self v2.addrs 12 0)
          ]);
    words = e.words;
  })
    where
      here : v2.addrs ndirect ≡ v0.addrs ndirect
      here = ap (λ f. f ndirect) e.addrs ∙ c.left 12 (omega arith)

      one :
          (v2.used (v0.addrs ndirect) ≡ true)
          × Freed
              (pointer v0)
              (λ k. Past nindirect k ⊎ (k ≡ 12))
              v0.used
              (update v2.used (v0.addrs ndirect) false)
      one =
          Freed-one (pointer v0) v0.used (Past nindirect) v2.used 12 m small (omega arith) set
            e.freed
        where
          small : (j : ℕ) → Past nindirect j → (j < pointers) × (j ≢ 12)
          small j (inl low) = (omega arith, omega arith)
          small j (inr (low, high)) = (omega arith, omega arith)

  free_indirect-IsEmptied : Returns (free_indirect v1) (IsEmptied v0)
  unfolding free_indirect
  free_indirect-IsEmptied = by_test (v1.addrs ndirect == 0) refl _ (λ set.
      bind-Returns (free_entries (v1.addrs ndirect) 0 nindirect v1) _ (Emptying v0 v1 nindirect)
        (IsEmptied v0) (emptied set) (last (nonzero set)))
    where
      nonzero : (v1.addrs ndirect == 0) ≡ false → v0.addrs ndirect ≢ 0
      nonzero set z = true_ne_false (sym ((==_iff _ 0).1 (c.left 12 (omega arith) ∙ z)) ∙ set)

      by_test :
          (t : Bool)
          → (v1.addrs ndirect == 0) ≡ t
          → (rest : Option Volume) → (t ≡ false → Returns rest (IsEmptied v0))
          → Returns (if t then some v1 else rest) (IsEmptied v0)
      by_test true null rest after = direct_only ((==_iff _ 0).0 null)
      by_test false set rest after = after refl

      start : Emptying v0 v1 0 v1
      start = record {
        freed =
            Freed-iff (pointer v0) v0.used (λ k. k < 12) (Past 0) v1.used
              (λ k. (
                λ low. inl low,
                λ p. elim p [
                  | inl low ↦ low
                  | inr range ↦ absurd (omega (arith, range.0, range.1))
                ],
              ))
              c.freed;
        addrs = refl;
        words = c.words;
      }

      emptied :
          (v1.addrs ndirect == 0) ≡ false
          → Returns (free_entries (v1.addrs ndirect) 0 nindirect v1) (Emptying v0 v1 nindirect)
      emptied set =
          subst (λ b. Returns (free_entries b 0 nindirect v1) (Emptying v0 v1 nindirect))
            (sym (c.left 12 (omega arith)))
            (free_entries-Emptying v0 v1 m (nonzero set) nindirect 0 v1 (omega arith) start)

-- The bitmap stays in use, and the inode has no pointers left.
IsEmptied-IsApart :
    (IsOut : ℕ → Type 0) (v w : Volume) → IsApart IsOut v → IsEmptied v w → IsApart IsOut w
IsEmptied-IsApart IsOut v w a e = record {
  marked = λ b out.
      (e.freed b).1
        (a.marked b out, λ k lt set same. a.apart k lt set (subst IsOut (sym same) out));
  apart = λ k lt set out. set (e.null k lt);
}

-- For the block map of an inode whose pointers name neither a block of the bitmap nor the block
-- that holds the inode, these being in use, `itrunc` does not panic: the inode, in memory and in
-- its block, has the size 0 and no blocks afterwards; the blocks still in use are those that were
-- and that no pointer of the inode named, those of the bitmap and that of the inode among them;
-- and no block but these changes its contents.
pub itrunc-IsEmptied :
    (start size iblock : ℕ) (v : Volume)
    → IsMap (pointer v) v.used
    → IsApart (IsMeta start size iblock) v
    → Returns (itrunc v) (λ w.
      IsEmptied v w
      × IsApart (IsMeta start size iblock) w
      × (w.size ≡ 0)
      × (w.dinode_size ≡ 0)
      × (w.dinode_addrs ≡ w.addrs))
unfolding itrunc
itrunc-IsEmptied start size iblock v m a =
    bind-Returns (free_direct 0 ndirect v) _ (Clearing v 12) _
      (free_direct-Clearing v m 12 0 v (omega arith) first)
      (λ v1 c.
        bind-Returns (free_indirect v1) _ (IsEmptied v) _ (free_indirect-IsEmptied v v1 m c)
          (λ v2 e.
            ending (iupdate (record v2 { size = 0 }))
              (record { freed = e.freed; null = e.null; words = e.words }) refl refl refl))
  where
    ending :
        (w : Volume)
        → IsEmptied v w
        → w.size ≡ 0
        → w.dinode_size ≡ 0
        → w.dinode_addrs ≡ w.addrs
        → IsEmptied v w
          × IsApart (IsMeta start size iblock) w
          × (w.size ≡ 0)
          × (w.dinode_size ≡ 0)
          × (w.dinode_addrs ≡ w.addrs)
    ending w e s d p = (e, IsEmptied-IsApart (IsMeta start size iblock) v w a e, s, d, p)

    first : Clearing v 0 v
    first = record {
      freed = λ b. (λ u. (u, λ k lt. absurd (omega arith)), λ (u, out). u);
      gone = λ k lt. absurd (omega arith);
      left = λ k le. refl;
      words = refl;
    }
