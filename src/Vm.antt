-- ===== src/Vm.antt =====
-- kernel/vm.c: `copyin`, `copyout` and `copyinstr`, on the bytes of the physical memory. The page
-- table is what `walkaddr` makes of it: the physical address of the page at a virtual address, or 0.
pub mod Copies
pub mod Out
pub mod Str
pub mod Table
pub mod Space
mod Tests
use modified_riscv.Base.{
  ℕ, zero, suc, ◌+◌, ◌-◌, ◌*◌, ◌/◌, ◌%◌, Bool, true, false, ◌&&◌, not, ltb, ◌==◌, if◌then◌else◌,
  update,
}
use modified_riscv.Kalloc.{pgsize}
use modified_riscv.Strings.{memmove}

-- PGROUNDDOWN: the mask clears the low twelve bits.
abbrev pub pgrounddown : ℕ → ℕ
pgrounddown a = a / pgsize * pgsize

-- n = PGSIZE - (va - va0); if(n > len) n = len;
abbrev pub chunk : ℕ → ℕ → ℕ
chunk va len = let n = pgsize - (va - pgrounddown va) in if ltb len n then len else n

-- The variables of `copyinstr` that its inner loop changes.
pub record Progress : Type 0 where
  pub got_null : Bool
  pub max : ℕ
  pub dst : ℕ
  pub mem : ℕ → ℕ

-- while(n > 0) of `copyinstr`
unfoldable pub copy_until_null : ℕ → ℕ → Progress → Progress
copy_until_null zero p c = c
copy_until_null (suc n) p c =
    let rest =
      copy_until_null n (p + 1)
        (record c { max = c.max - 1; dst = c.dst + 1; mem = update c.mem c.dst (c.mem p) }) in
    if c.mem p == 0 then record c { got_null = true; mem = update c.mem c.dst 0 } else rest

module _ (walkaddr : ℕ → ℕ) where
  -- The physical address of a user's byte, pa0 + (va - va0).
  abbrev pub address : ℕ → ℕ
  address va = walkaddr (pgrounddown va) + (va - pgrounddown va)

  -- The loop of `copyout`, on fuel: a round copies a byte at least, so `len` rounds are enough. The
  -- result is whether it returns 0.
  unfoldable pub copyout : ℕ → ℕ → ℕ → ℕ → (ℕ → ℕ) → Bool × (ℕ → ℕ)
  copyout zero dstva src len mem = (true, mem)
  copyout (suc fuel) dstva src len mem =
      let n = chunk dstva len in
      let rest =
        copyout fuel (pgrounddown dstva + pgsize) (src + n) (len - n)
          (memmove (address dstva) src n mem) in
      if ltb 0 len
      then (if walkaddr (pgrounddown dstva) == 0 then (false, mem) else rest)
      else (true, mem)

  unfoldable pub copyin : ℕ → ℕ → ℕ → ℕ → (ℕ → ℕ) → Bool × (ℕ → ℕ)
  copyin zero dst srcva len mem = (true, mem)
  copyin (suc fuel) dst srcva len mem =
      let n = chunk srcva len in
      let rest =
        copyin fuel (dst + n) (pgrounddown srcva + pgsize) (len - n)
          (memmove dst (address srcva) n mem) in
      if ltb 0 len
      then (if walkaddr (pgrounddown srcva) == 0 then (false, mem) else rest)
      else (true, mem)

  -- The outer loop of `copyinstr`, on fuel as above.
  unfoldable pub copyinstr : ℕ → ℕ → Progress → Bool × (ℕ → ℕ)
  unfolding copy_until_null
  copyinstr zero srcva c = (c.got_null, c.mem)
  copyinstr (suc fuel) srcva c =
      let rest =
        copyinstr fuel (pgrounddown srcva + pgsize)
          (copy_until_null (chunk srcva c.max) (address srcva) c) in
      if not c.got_null && ltb 0 c.max
      then (if walkaddr (pgrounddown srcva) == 0 then (false, c.mem) else rest)
      else (c.got_null, c.mem)
