-- ===== src/Syscall.antt =====
-- kernel/syscall.c: how a system call fetches its arguments. A register and an address are 64-bit words.
pub mod Bounds
mod Tests
use modified_riscv.Base.{
  ℕ, ◌+◌, ◌-◌, ◌%◌, ◌^◌, Bool, true, false, ◌||◌, Option, none, some, ltb, leb, if◌then◌else◌,
  ◌>>=◌,
}
use modified_riscv.Vm.{copyin}

-- `argraw`, on the registers a0 to a5; `none` is the panic.
abbrev pub argraw : (ℕ → ℕ) → ℕ → Option ℕ
argraw a n = if leb n 5 then some (a n) else none

-- `argint`, the low 32 bits
abbrev pub argint : (ℕ → ℕ) → ℕ → Option ℕ
argint a n = argraw a n >>= λ x. some (x % 2 ^ 32)

-- `argaddr`
abbrev pub argaddr : (ℕ → ℕ) → ℕ → Option ℕ
argaddr a n = argraw a n

-- addr >= p->sz || addr+sizeof(uint64) > p->sz
abbrev pub is_outside : ℕ → ℕ → Bool
is_outside sz addr = leb sz addr || ltb sz ((addr + 8) % 2 ^ 64)

-- Whether `fetchaddr` returns 0, and the memory; `ip` is the address of the result.
unfoldable pub fetchaddr : (ℕ → ℕ) → ℕ → ℕ → ℕ → (ℕ → ℕ) → Bool × (ℕ → ℕ)
unfolding copyin
fetchaddr walkaddr sz addr ip mem =
    if is_outside sz addr then (false, mem) else copyin walkaddr 8 ip addr 8 mem
