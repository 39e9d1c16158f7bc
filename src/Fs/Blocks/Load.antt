-- ===== src/Fs/Blocks/Load.antt =====
-- `bmap` on the block map of an inode.
use modified_riscv.Base.{
  ℕ, ◌+◌, ◌<◌, ◌≡◌, ◌≢◌, ◌⊎◌, inl, inr, refl, sym, ◌∙◌, ap, Bool, true, false, ◌==◌, if◌then◌else◌,
  update, update_self, update_ne, arith, ==_iff, true_ne_false,
}
use native.Mathlib.Decide.{ℕ_discrete}
use modified_riscv.Fs.Blocks.{ndirect, nindirect, Volume, take_block, balloc, load_addr, load_entry}
use modified_riscv.Fs.Blocks.Alloc.{AllUsed, Allocates, balloc-Allocates}
use modified_riscv.Fs.Blocks.Map.{pointer, IsMap, Extends, Extends-same, Extends-fill}

-- The pointer k < 13 set to a fresh block.
abbrev with_addr : ℕ → ℕ → Volume → Volume
with_addr k a v = let v1 = take_block a v in record v1 { addrs = update v1.addrs k a }

pointer-with_addr :
    (v : Volume) (k a j : ℕ)
    → k < 13
    → v.addrs k ≡ 0
    → a ≢ 0
    → a ≢ v.addrs ndirect
    → pointer (with_addr k a v) j ≡ update (pointer v) k a j
pointer-with_addr v k a j lt null ne apart = ground arith

-- An entry of the indirect block `b` set to a fresh block.
abbrev with_entry : ℕ → ℕ → ℕ → Volume → Volume
with_entry b e a v =
    let v1 = take_block a v in record v1 { word = update v1.word b (update (v1.word b) e a) }

pointer-with_entry :
    (v : Volume) (e a j : ℕ)
    → v.addrs ndirect ≢ 0
    → a ≢ v.addrs ndirect
    → pointer (with_entry (v.addrs ndirect) e a v) j ≡ update (pointer v) (13 + e) a j
pointer-with_entry v e a j set apart = ground arith

-- The words of a block in use are not those of the fresh one.
other_words :
    (v : Volume) (a b : ℕ)
    → v.used a ≡ false
    → v.used b ≡ true
    → update v.word a (λ _. 0) b ≡ v.word b
other_words v a b free u =
    update_ne v.word a b (λ _. 0) (λ e. true_ne_false (sym u ∙ ap v.used (sym e) ∙ free))

pub not_zero : (a : ℕ) → a ≢ 0 → (a == 0) ≡ false
not_zero a ne = ground arith

-- The address that pointer k has afterwards, or 0 where every block is in use.
abbrev pub Loads : ℕ → Volume → ℕ → ℕ × Volume → Type 0
Loads size v k (addr, after) =
    Extends v after
    × (((addr ≢ 0) × (addr ≡ pointer after k)) ⊎ ((addr ≡ 0) × AllUsed after.used 0 size))

module _ (size : ℕ) (v : Volume) (m : IsMap (pointer v) v.used) where
  -- A free block is neither block 0 nor the indirect block.
  not_boot : (a : ℕ) → v.used a ≡ false → a ≢ 0
  not_boot a free e = true_ne_false (sym m.boot ∙ ap v.used (sym e) ∙ free)

  not_indirect : (a : ℕ) → v.used a ≡ false → a ≢ v.addrs ndirect
  not_indirect a free e = elim (ℕ_discrete (v.addrs ndirect) 0) [
    | yes null ↦ not_boot a free (e ∙ null)
    | no set ↦ true_ne_false (sym (m.in_use 12 (omega arith) set) ∙ ap v.used (sym e) ∙ free)
  ]

  with_addr-Loads :
      (k a : ℕ) → k < 13 → v.addrs k ≡ 0 → v.used a ≡ false → Loads size v k (a, with_addr k a v)
  with_addr-Loads k a lt null free = (
    Extends-fill v (with_addr k a v) k a m (low null) free
        (λ j within. pointer-with_addr v k a j lt null (not_boot a free) (not_indirect a free)) refl
        (λ b u ne. other_words v a b free u),
    inl (
      not_boot a free,
      sym (
          pointer-with_addr v k a k lt null (not_boot a free) (not_indirect a free)
          ∙ update_self (pointer v) k a),
    ),
  )
    where
      low : v.addrs k ≡ 0 → pointer v k ≡ 0
      low e = ground arith

  with_entry-Loads :
      (e a : ℕ)
      → e < nindirect
      → v.addrs ndirect ≢ 0
      → v.word (v.addrs ndirect) e ≡ 0
      → v.used a ≡ false
      → Loads size v (13 + e) (a, with_entry (v.addrs ndirect) e a v)
  with_entry-Loads e a lt set null free = (
    Extends-fill v (with_entry (v.addrs ndirect) e a v) (13 + e) a m (high null) free
        (λ j within. pointer-with_entry v e a j set (not_indirect a free)) refl
        (λ b u ne.
          update_ne (take_block a v).word (v.addrs ndirect) b _ (λ x. ne (sym x))
          ∙ other_words v a b free u),
    inl (
      not_boot a free,
      sym (
          pointer-with_entry v e a (13 + e) set (not_indirect a free)
          ∙ update_self (pointer v) (13 + e) a),
    ),
  )
    where
      high : v.word (v.addrs ndirect) e ≡ 0 → pointer v (13 + e) ≡ 0
      high z = ground arith

  pub load_addr-Loads : (k : ℕ) → k < 13 → Loads size v k (load_addr size k v)
  unfolding load_addr
  load_addr-Loads k lt = by_alloc (balloc size v) (balloc-Allocates size v) (v.addrs k == 0) refl
    where
      direct : pointer v k ≡ v.addrs k
      direct = ground arith

      by_alloc :
          (r : ℕ × Volume)
          → Allocates size v r
          → (t : Bool) → (v.addrs k == 0) ≡ t
          → Loads size v k (
              if t
              then (if r.0 == 0
                  then (0, r.1)
                  else (r.0, record r.1 { addrs = update r.1.addrs k r.0 }))
              else (v.addrs k, v))
      by_alloc r alloc false set = (Extends-same v m, inl (ground arith, sym direct))
      by_alloc (a, v1) (inr (full, same, all)) true null =
          rw (full, same) (Extends-same v m, inr (refl, all))
      by_alloc (a, v1) (inl (inside, free, taken)) true null =
          rw (taken, not_zero a (not_boot a free))
            (with_addr-Loads k a lt ((==_iff (v.addrs k) 0).0 null) free)

  pub load_entry-Loads :
      (e : ℕ)
      → e < nindirect
      → v.addrs ndirect ≢ 0
      → Loads size v (13 + e) (load_entry size (v.addrs ndirect) e v)
        × ((load_entry size (v.addrs ndirect) e v).1.addrs ≡ v.addrs)
  unfolding load_entry
  load_entry-Loads e lt set =
      by_alloc (balloc size v) (balloc-Allocates size v) (v.word (v.addrs ndirect) e == 0) refl
    where
      after_entry : ℕ × Volume → Bool → ℕ × Volume
      after_entry r t =
          if t
          then (if r.0 == 0 then (0, r.1) else (
            r.0,
            record r.1 {
              word = update r.1.word (v.addrs ndirect) (update (r.1.word (v.addrs ndirect)) e r.0);
            },
          ))
          else (v.word (v.addrs ndirect) e, v)

      entry : pointer v (13 + e) ≡ v.word (v.addrs ndirect) e
      entry = ground arith

      by_alloc :
          (r : ℕ × Volume)
          → Allocates size v r
          → (t : Bool) → (v.word (v.addrs ndirect) e == 0) ≡ t
          → Loads size v (13 + e) (after_entry r t) × ((after_entry r t).1.addrs ≡ v.addrs)
      by_alloc r alloc false set = ((Extends-same v m, inl (ground arith, sym entry)), refl)
      by_alloc (a, v1) (inr (full, same, all)) true null =
          rw (full, same) ((Extends-same v m, inr (refl, all)), refl)
      by_alloc (a, v1) (inl (inside, free, taken)) true null =
          rw (taken, not_zero a (not_boot a free))
            (
              with_entry-Loads e a lt set ((==_iff (v.word (v.addrs ndirect) e) 0).0 null) free,
              refl,
            )
