-- ===== src/Fs/Tests.antt =====
-- A tree of three inodes, an inode with three blocks, and the theorems at them.
use modified_riscv.Base.{
  sym, subst, ◌∙◌, inl, inr, ltb, ◌≢◌, Returns, ◌<◌, ℕ, ◌≡◌, refl, Bool, true, false, Option, none,
  some, List, [], ◌∷◌, ◌==◌, ◌&&◌, ◌/◌, ◌+◌, Allows, if◌then◌else◌, arith,
}
use modified_riscv.Fs.Blocks.{Volume, bmap, itrunc}
use modified_riscv.Fs.Blocks.Map.{pointer, IsMap}
use modified_riscv.Fs.Blocks.Bitmap.{IsMeta, IsApart}
use modified_riscv.Fs.Blocks.Bmap.{Maps, bmap-Maps}
use modified_riscv.Fs.Blocks.Itrunc.{IsEmptied, itrunc-IsEmptied}
use modified_riscv.Fs.Paths.{starts_at_root, skipelem, namex}
use modified_riscv.Fs.Paths.Split.{elements}
use modified_riscv.Fs.Paths.Resolve.{resolve, namex-resolve}

-- Inode 1 is the root, with the directory "a", which is inode 2; its file "b" is inode 3.
abbrev tree : ℕ → List ℕ → Option ℕ
tree ip [] = none
tree ip (c ∷ name) =
    if (ip == 1) && (c == 97) then some 2 else if (ip == 2) && (c == 98) then some 3 else none

abbrev is_tree_dir : ℕ → Bool
is_tree_dir ip = if ip == 3 then false else true

-- "//a/b/"
abbrev path : List ℕ
path = 47 ∷ 47 ∷ 97 ∷ 47 ∷ 98 ∷ 47 ∷ []

skipelem_runs : skipelem path ≡ some (97 ∷ [], 98 ∷ 47 ∷ [])
unfolding skipelem
skipelem_runs = refl

namex_runs : namex is_tree_dir tree 1 2 false [] path 7 ≡ some (3, 98 ∷ [])
unfolding namex
namex_runs = refl

nameiparent_runs : namex is_tree_dir tree 1 2 true [] path 7 ≡ some (2, 98 ∷ [])
unfolding namex
nameiparent_runs = refl

namex-resolve_example :
    namex is_tree_dir tree 1 2 true [] path 7
    ≡ resolve is_tree_dir tree true (if starts_at_root path then 1 else 2) [] (elements path)
namex-resolve_example = namex-resolve is_tree_dir tree 1 2 true [] path 7 (omega arith)

-- An inode with block 59, the indirect block 60, and block 58 as its entry 3, on a disk with 61 blocks
-- in use.
abbrev volume : Volume
volume = record {
  addrs = λ k. if k == 12 then 60 else if k == 0 then 59 else 0;
  size = 2000;
  dinode_addrs = λ k. 0;
  dinode_size = 0;
  used = λ b. ltb b 61;
  word = λ b j. if (b == 60) && (j == 3) then 58 else 0;
}

abbrev slots : ℕ → ℕ
slots k = if k == 0 then 59 else if k == 12 then 60 else if k == 16 then 58 else 0

pointer-slots : (k : ℕ) → pointer volume k ≡ slots k
pointer-slots k = ground arith

volume-IsMap : IsMap (pointer volume) volume.used
volume-IsMap = record {
  in_use = λ k lt set. small (pointer volume k) (pointer-small k);
  distinct = λ j k lt lt' set e. apart j k set e;
  boot = refl;
}
  where
    pointer-small : (k : ℕ) → pointer volume k < 61
    pointer-small k = rw (pointer-slots k) (ground arith)

    small : (b : ℕ) → b < 61 → ltb b 61 ≡ true
    small b lt = ground arith

    by_cases : (j k : ℕ) → slots j ≢ 0 → slots j ≡ slots k → j ≡ k
    by_cases j k set e = ground arith

    apart : (j k : ℕ) → pointer volume j ≢ 0 → pointer volume j ≡ pointer volume k → j ≡ k
    apart j k = rw (pointer-slots j, pointer-slots k) (by_cases j k)

bmap_runs : bmap 100 15 volume ≡ some (58, volume)
unfolding bmap
bmap_runs = refl

-- The bitmap is block 45, and the inode is in block 32.
volume-IsApart : IsApart (IsMeta 45 100 32) volume
volume-IsApart = record {
  marked = λ b out. elim out [
    | inl (x, lt, e) ↦ subst (λ y. ltb y 61 ≡ true) (sym e) (below x lt)
    | inr e ↦ subst (λ y. ltb y 61 ≡ true) (sym e) refl
  ];
  apart = λ k lt set out. elim out [
    | inl (x, lt', e) ↦ high k x lt' (sym (pointer-slots k) ∙ e)
    | inr e ↦ other k (sym (pointer-slots k) ∙ e)
  ];
}
  where
    below : (x : ℕ) → x < 100 → ltb (x / 8192 + 45) 61 ≡ true
    below x lt = ground arith

    high : (k x : ℕ) → x < 100 → slots k ≢ x / 8192 + 45
    high k x lt = ground arith

    other : (k : ℕ) → slots k ≢ 32
    other k = ground arith

bmap-Maps_example :
    Maps 100 20 volume (bmap 100 20 volume)
    × Allows (bmap 100 20 volume) (λ r. IsApart (IsMeta 45 100 32) r.1)
bmap-Maps_example = bmap-Maps 45 100 32 20 volume volume-IsMap volume-IsApart

itrunc-IsEmptied_example : Returns (itrunc volume) (λ w.
    IsEmptied volume w
    × IsApart (IsMeta 45 100 32) w
    × (w.size ≡ 0)
    × (w.dinode_size ≡ 0)
    × (w.dinode_addrs ≡ w.addrs))
itrunc-IsEmptied_example = itrunc-IsEmptied 45 100 32 volume volume-IsMap volume-IsApart
