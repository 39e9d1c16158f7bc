-- ===== src/Strings.antt =====
-- kernel/string.c: the routines that copy memory, on the bytes by their addresses. No range goes
-- past the last address.
pub mod Moves
pub mod Null
mod Tests
use modified_riscv.Base.{ℕ, zero, suc, ◌+◌, ◌%◌, Bool, ◌&&◌, ltb, ◌==◌, if◌then◌else◌, update}

-- memset: `cdst[i] = c` for the `n` indices from `i` on; the byte is the low eight bits.
unfoldable pub memset : ℕ → ℕ → ℕ → ℕ → (ℕ → ℕ) → ℕ → ℕ
memset dst c i zero mem = mem
memset dst c i (suc n) mem = memset dst c (i + 1) n (update mem (dst + i) (c % 256))

-- while(n-- > 0) *d++ = *s++;
unfoldable pub copy_up : ℕ → ℕ → ℕ → (ℕ → ℕ) → ℕ → ℕ
copy_up d s zero mem = mem
copy_up d s (suc n) mem = copy_up (d + 1) (s + 1) n (update mem d (mem s))

-- while(n-- > 0) *--d = *--s; from the ends of the ranges at `d` and `s`
unfoldable pub copy_down : ℕ → ℕ → ℕ → (ℕ → ℕ) → ℕ → ℕ
copy_down d s zero mem = mem
copy_down d s (suc n) mem = copy_down d s n (update mem (d + n) (mem (s + n)))

unfoldable pub memmove : ℕ → ℕ → ℕ → (ℕ → ℕ) → ℕ → ℕ
unfolding copy_up copy_down
memmove dst src n mem =
    if n == 0
    then mem
    else if ltb src dst && ltb dst (src + n)
    then copy_down dst src n mem
    else copy_up dst src n mem

-- memcpy is memmove.
unfoldable pub memcpy : ℕ → ℕ → ℕ → (ℕ → ℕ) → ℕ → ℕ
unfolding memmove
memcpy dst src n mem = memmove dst src n mem
