-- ===== src/Fs/Blocks/Bitmap.antt =====
-- The blocks of the bitmap and the block of the inode are not among the blocks of the inode.
use modified_riscv.Base.{subst, ℕ, ◌<◌, ◌≡◌, ◌≢◌, ◌⊎◌, sym, ◌∙◌, true, true_ne_false}
use native.Mathlib.Decide.{ℕ_discrete}
use modified_riscv.Fs.Blocks.{Volume, bblock}
use modified_riscv.Fs.Blocks.Map.{pointer, pointers, Extends}

-- A block of the bitmap, or `iblock`, the block that holds the inode.
abbrev pub IsMeta : ℕ → ℕ → ℕ → ℕ → Type 0
IsMeta start size iblock b = ((x : ℕ) × (x < size) × (b ≡ bblock start x)) ⊎ (b ≡ iblock)

-- These blocks are in use, and no pointer names one.
pub record IsApart (IsOut : ℕ → Type 0) (v : Volume) : Type 0 where
  pub marked : (b : ℕ) → IsOut b → v.used b ≡ true
  pub apart : (k : ℕ) → k < pointers → pointer v k ≢ 0 → ¬ IsOut (pointer v k)

pub Extends-IsApart :
    (IsOut : ℕ → Type 0) (v w : Volume) → Extends v w → IsApart IsOut v → IsApart IsOut w
Extends-IsApart IsOut v w e a = record {
  marked = λ b out. e.still b (a.marked b out);
  apart = λ k lt set out. elim (ℕ_discrete (pointer v k) 0) [
    | yes null ↦ true_ne_false (sym (a.marked (pointer w k) out) ∙ e.fresh k lt null set)
    | no set' ↦ a.apart k lt set' (subst IsOut (e.kept k lt set') out)
  ];
}
