-- ===== src/Log.antt =====
-- kernel/log.c: the write-ahead log. Disk and cache are blocks by their numbers: `bread` of a block
-- gives its buffer in `cache`, and `bwrite` writes that buffer to the disk. A block is its 32-bit
-- words by their indices. `power` is the number of writes that the disk still makes before the power
-- fails; the disk does not change after that, whatever the program goes on to do.
pub mod Install
pub mod Header
pub mod Commit
pub mod Recovery
pub mod Space
mod Tests
use modified_riscv.Base.{
  ℕ, zero, suc, ◌+◌, ◌-◌, ◌*◌, Bool, true, false, ◌||◌, Option, none, some, leb, ltb, ◌==◌,
  if◌then◌else◌, update,
}

abbrev pub Block : Type 0
Block = ℕ → ℕ

-- The in-memory header `log.lh`, the buffers and the disk.
pub record Machine : Type 0 where
  pub n : ℕ
  pub block : ℕ → ℕ
  pub cache : ℕ → Block
  pub disk : ℕ → Block
  pub power : ℕ

-- bwrite
abbrev pub bwrite : ℕ → Machine → Machine
bwrite b m = record m {
  disk = if m.power == 0 then m.disk else update m.disk b (m.cache b);
  power = m.power - 1;
}

-- memmove between the buffers of two blocks
abbrev pub copy_block : ℕ → ℕ → Machine → Machine
copy_block dst src m = record m { cache = update m.cache dst (m.cache src) }

-- for(i = ...; i < log.lh.n; i++) hb->block[i] = log.lh.block[i], with the number of rounds left;
-- `block[i]` is word i + 1 of the header.
unfoldable pub put_names : ℕ → ℕ → (ℕ → ℕ) → Block → Block
put_names i zero names b = b
put_names i (suc r) names b = put_names (i + 1) r names (update b (i + 1) (names i))

-- log.lh.n = 0
abbrev pub clear : Machine → Machine
clear m = record m { n = 0 }

-- `log.start` is set once, by `initlog`.
module _ (start : ℕ) where
  -- The loop of `install_trans` from `tail` on, with the number of rounds left. `bunpin` changes
  -- reference counts only.
  unfoldable pub install_trans : ℕ → ℕ → Machine → Machine
  install_trans tail zero m = m
  install_trans tail (suc r) m =
      install_trans (tail + 1) r
        (bwrite (m.block tail) (copy_block (m.block tail) (start + tail + 1) m))

  abbrev pub read_head : Machine → Machine
  read_head m = record m {
    n = m.cache start 0;
    block = λ i. if ltb i (m.cache start 0) then m.cache start (i + 1) else m.block i;
  }

  unfoldable pub write_head : Machine → Machine
  unfolding put_names
  write_head m = bwrite start (record m {
    cache = update m.cache start (put_names 0 m.n m.block (update (m.cache start) 0 m.n));
  })

  unfoldable pub write_log : ℕ → ℕ → Machine → Machine
  write_log tail zero m = m
  write_log tail (suc r) m =
      write_log (tail + 1) r
        (bwrite (start + tail + 1) (copy_block (start + tail + 1) (m.block tail) m))

  unfoldable pub recover_from_log : Machine → Machine
  unfolding install_trans write_head
  recover_from_log m = let m1 = read_head m in write_head (clear (install_trans 0 m1.n m1))

  unfoldable pub commit : Machine → Machine
  unfolding install_trans write_head write_log
  commit m =
      if ltb 0 m.n
      then write_head (clear (install_trans 0 m.n (write_head (write_log 0 m.n m))))
      else m
