-- ===== src/Fs/Blocks.antt =====
-- kernel/fs.c: `balloc`, `bfree`, `bmap`, `itrunc` and what `iupdate` copies for them, on the contents
-- of the blocks in the buffers that `bread` gives and `log_write` keeps. The blocks of the bitmap are
-- kept as their bits, and the other blocks as their 32-bit words.
pub mod Alloc
pub mod Map
pub mod Load
pub mod Bmap
pub mod Free
pub mod Entries
pub mod Itrunc
pub mod Bitmap
use modified_riscv.Base.{
  ℕ, zero, suc, ◌+◌, ◌-◌, ◌/◌, Bool, true, false, Option, none, some, ltb, ◌==◌, if◌then◌else◌,
  update, ◌>>=◌,
}

-- BPB, NDIRECT and NINDIRECT of kernel/fs.h
abbrev pub bpb : ℕ
bpb = 8192

abbrev pub ndirect : ℕ
ndirect = 12

abbrev pub nindirect : ℕ
nindirect = 256

-- BBLOCK, where `start` is `sb.bmapstart`
abbrev pub bblock : ℕ → ℕ → ℕ
bblock start b = b / bpb + start

-- The inode whose lock the caller holds, `ip->addrs` and `ip->size`; the same fields of the inode in
-- its block; `used b`, the bit b % BPB of the bitmap's block BBLOCK(b); and the words of the other
-- blocks.
pub record Volume : Type 0 where
  pub addrs : ℕ → ℕ
  pub size : ℕ
  pub dinode_addrs : ℕ → ℕ
  pub dinode_size : ℕ
  pub used : ℕ → Bool
  pub word : ℕ → ℕ → ℕ

-- dip->size = ip->size; memmove(dip->addrs, ip->addrs, sizeof(ip->addrs)); the other fields are left
-- out, which no function here changes.
abbrev pub iupdate : Volume → Volume
iupdate v = record v { dinode_addrs = v.addrs; dinode_size = v.size }

-- The bit in the bitmap's block set, and the block zeroed by `bzero`.
abbrev pub take_block : ℕ → Volume → Volume
take_block b v = record v { used = update v.used b true; word = update v.word b (λ _. 0) }

-- The bit in the bitmap's block cleared; `none` is the panic.
unfoldable pub bfree : ℕ → Volume → Option Volume
bfree b v = if v.used b then some (record v { used = update v.used b false }) else none

-- The first loop of `itrunc`, from `i` on, with the number of rounds left.
unfoldable pub free_direct : ℕ → ℕ → Volume → Option Volume
unfolding bfree
free_direct i zero v = some v
free_direct i (suc r) v =
    if v.addrs i == 0
    then free_direct (i + 1) r v
    else bfree (v.addrs i) v >>= λ v1.
        free_direct (i + 1) r (record v1 { addrs = update v1.addrs i 0 })

-- The second loop, over the entries of block `b`.
unfoldable pub free_entries : ℕ → ℕ → ℕ → Volume → Option Volume
unfolding bfree
free_entries b j zero v = some v
free_entries b j (suc r) v =
    if v.word b j == 0
    then free_entries b (j + 1) r v
    else bfree (v.word b j) v >>= λ v1. free_entries b (j + 1) r v1

-- The indirect block and its entries.
unfoldable pub free_indirect : Volume → Option Volume
free_indirect v =
    if v.addrs ndirect == 0
    then some v
    else free_entries (v.addrs ndirect) 0 nindirect v >>= λ v1.
        bfree (v1.addrs ndirect) v1 >>= λ v2. some (record v2 { addrs = update v2.addrs ndirect 0 })

unfoldable pub itrunc : Volume → Option Volume
itrunc v = free_direct 0 ndirect v >>= λ v1.
    free_indirect v1 >>= λ v2. some (iupdate (record v2 { size = 0 }))

-- `size` is `sb.size`.
module _ (size : ℕ) where
  -- The inner loop of `balloc`, with the number of rounds left.
  unfoldable pub find_bit : (ℕ → Bool) → ℕ → ℕ → ℕ → Option ℕ
  find_bit used b bi zero = none
  find_bit used b bi (suc r) =
      let rest = find_bit used b (bi + 1) r in
      if ltb (b + bi) size then (if used (b + bi) then rest else some (b + bi)) else none

  -- The outer loop.
  unfoldable pub find_free : (ℕ → Bool) → ℕ → ℕ → Option ℕ
  unfolding find_bit
  find_free used b zero = none
  find_free used b (suc r) =
      let rest = find_free used (b + bpb) r in
      if ltb b size
      then elim (find_bit used b 0 bpb) [ none ↦ rest | some bno ↦ some bno ]
      else none

  unfoldable pub balloc : Volume → ℕ × Volume
  unfolding find_free
  balloc v = elim (find_free v.used 0 (size / bpb + 1)) [
    | none ↦ (0, v)
    | some b ↦ (b, take_block b v)
  ]

  -- if((addr = ip->addrs[k]) == 0){ ... } of `bmap`, which fills the pointer
  unfoldable pub load_addr : ℕ → Volume → ℕ × Volume
  unfolding balloc
  load_addr k v =
      let (addr, v1) = balloc v in
      if v.addrs k == 0
      then (if addr == 0 then (0, v1) else (addr, record v1 { addrs = update v1.addrs k addr }))
      else (v.addrs k, v)

  -- if((addr = a[bn]) == 0){ ... }, where `a` is the data of block `b`
  unfoldable pub load_entry : ℕ → ℕ → Volume → ℕ × Volume
  unfolding balloc
  load_entry b bn v =
      let (addr, v1) = balloc v in
      if v.word b bn == 0
      then (if addr == 0
          then (0, v1)
          else (addr, record v1 { word = update v1.word b (update (v1.word b) bn addr) }))
      else (v.word b bn, v)

  -- `none` is the panic.
  unfoldable pub bmap : ℕ → Volume → Option (ℕ × Volume)
  unfolding load_addr load_entry
  bmap bn v =
      let (addr, v1) = load_addr ndirect v in
      if ltb bn ndirect
      then some (load_addr bn v)
      else if ltb (bn - ndirect) nindirect
      then (if addr == 0 then some (0, v1) else some (load_entry addr (bn - ndirect) v1))
      else none
