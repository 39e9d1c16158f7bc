-- ===== src/Fs/Blocks/Bmap.antt =====
-- `bmap` on the block map of an inode.
use modified_riscv.Base.{
  ℕ, ◌+◌, ◌-◌, ◌≤◌, ◌<◌, ◌≡◌, ◌≢◌, inl, inr, refl, sym, ◌∙◌, ap, subst, Bool, true, false, Option,
  none, some, ltb, ◌==◌, if◌then◌else◌, arith, Bool-cases, ltb→lt, true_ne_false, Allows,
}
use modified_riscv.Fs.Blocks.{ndirect, nindirect, Volume, load_addr, load_entry, bmap}
use modified_riscv.Fs.Blocks.Map.{pointer, IsMap, Extends, Extends-twice}
use modified_riscv.Fs.Blocks.Bitmap.{IsMeta, IsApart, Extends-IsApart}
use modified_riscv.Fs.Blocks.Load.{Loads, not_zero, load_addr-Loads, load_entry-Loads}

-- MAXFILE
abbrev pub maxfile : ℕ
maxfile = 268

-- The pointer to the file's block `bn`: number 12 is that of the indirect block.
abbrev pub pointer_to : ℕ → ℕ
pointer_to bn = if ltb bn ndirect then bn else 13 + (bn - ndirect)

abbrev pub Maps : ℕ → ℕ → Volume → Option (ℕ × Volume) → Type 0
Maps size bn v none = maxfile ≤ bn
Maps size bn v (some r) = (bn < maxfile) × Loads size v (pointer_to bn) r

bmap-Loads : (size bn : ℕ) (v : Volume) → IsMap (pointer v) v.used → Maps size bn v (bmap size bn v)
unfolding bmap
bmap-Loads size bn v m = elim (Bool-cases (ltb bn ndirect)) [
  | inl direct ↦ rw direct (
    omega (arith, ltb→lt bn ndirect direct),
    direct_index (load_addr size bn v) direct
        (load_addr-Loads size v m bn (omega (arith, ltb→lt bn ndirect direct))),
  )
  | inr beyond ↦ rw beyond (elim (Bool-cases (ltb (bn - ndirect) nindirect)) [
    | inr out ↦ rw out (ground arith)
    | inl within ↦ rw within (
        by_indirect (ltb→lt (bn - ndirect) nindirect within) beyond (load_addr size ndirect v)
          (load_addr-Loads size v m ndirect (omega arith)))
  ])
]
  where
    direct_index :
        (r : ℕ × Volume)
        → ltb bn ndirect ≡ true
        → Loads size v bn r
        → Loads size v (pointer_to bn) r
    direct_index r e l = subst (λ k. Loads size v k r) (by_test (ltb bn ndirect) e) l
      where
        by_test : (t : Bool) → t ≡ true → bn ≡ (if t then bn else 13 + (bn - ndirect))
        by_test true e = refl
        by_test false e = absurd (true_ne_false (sym e))

    entry_index :
        (r : ℕ × Volume)
        → ltb bn ndirect ≡ false
        → Loads size v (13 + (bn - ndirect)) r
        → Loads size v (pointer_to bn) r
    entry_index r e l = subst (λ k. Loads size v k r) (by_test (ltb bn ndirect) e) l
      where
        by_test :
            (t : Bool) → t ≡ false → 13 + (bn - ndirect) ≡ (if t then bn else 13 + (bn - ndirect))
        by_test false e = refl
        by_test true e = absurd (true_ne_false e)

    after :
        (v1 : Volume) (r : ℕ × Volume)
        → Extends v v1
        → Loads size v1 (13 + (bn - ndirect)) r
        → r.1.addrs ≡ v1.addrs
        → Loads size v (13 + (bn - ndirect)) r
    after v1 r e (f, found) same = (Extends-twice v v1 r.1 (ap (λ g. g ndirect) same) e f, found)

    by_indirect :
        bn - ndirect < nindirect
        → ltb bn ndirect ≡ false
        → (r : ℕ × Volume) → Loads size v ndirect r
        → Maps size bn v
            (if r.0 == 0 then some (0, r.1) else some (load_entry size r.0 (bn - ndirect) r.1))
    by_indirect lt beyond (a, v1) (e, inr (full, all)) = rw full (omega arith, (e, inr (refl, all)))
    by_indirect lt beyond (a, v1) (e, inl (set, same)) =
        subst
          (λ x.
            Maps size bn v
              (if x == 0 then some (0, v1) else some (load_entry size x (bn - ndirect) v1)))
          (sym same)
          (rw (not_zero (v1.addrs ndirect) nonzero) (
            omega arith,
            entry_index (load_entry size (v1.addrs ndirect) (bn - ndirect) v1) beyond (
                after v1 (load_entry size (v1.addrs ndirect) (bn - ndirect) v1) e loaded.0
                  loaded.1),
          ))
      where
        nonzero : v1.addrs ndirect ≢ 0
        nonzero z = set (same ∙ z)

        loaded :
            Loads size v1
              (13 + (bn - ndirect))
              (load_entry size (v1.addrs ndirect) (bn - ndirect) v1)
            × ((load_entry size (v1.addrs ndirect) (bn - ndirect) v1).1.addrs ≡ v1.addrs)
        loaded = load_entry-Loads size v1 e.sound (bn - ndirect) lt nonzero

-- For an inode whose pointers name neither a block of the bitmap nor the block that holds the
-- inode, these being in use: `bmap` panics exactly from block MAXFILE on; else it gives the
-- address that the block map of the inode then has for the block, or 0 where no block is free; it
-- may fill null pointers with free blocks: no two pointers name one block and none names a block
-- of the bitmap or that of the inode, no pointer that was set changes, no block in use is freed,
-- and of the blocks in use, those of the bitmap aside, none but the indirect block changes its
-- contents.
pub bmap-Maps :
    (start size iblock bn : ℕ) (v : Volume)
    → IsMap (pointer v) v.used
    → IsApart (IsMeta start size iblock) v
    → Maps size bn v (bmap size bn v)
      × Allows (bmap size bn v) (λ r. IsApart (IsMeta start size iblock) r.1)
bmap-Maps start size iblock bn v m apart = (maps, kept (bmap size bn v) maps)
  where
    maps : Maps size bn v (bmap size bn v)
    maps = bmap-Loads size bn v m

    kept :
        (o : Option (ℕ × Volume))
        → Maps size bn v o
        → Allows o (λ r. IsApart (IsMeta start size iblock) r.1)
    kept none h = tt
    kept (some r) h = Extends-IsApart (IsMeta start size iblock) v r.1 h.1.0 apart
