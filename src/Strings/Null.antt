-- ===== src/Strings/Null.antt =====
-- kernel/string.c: the comparisons, and the routines on strings that end with a null byte. An address
-- holds a byte.
pub mod Compare
pub mod Copy
use modified_riscv.Base.{
  ℕ, zero, suc, ◌+◌, Bool, ◌||◌, not, Option, none, some, ◌==◌, if◌then◌else◌, update,
}
use modified_riscv.Base.Int.{ℤ, pos, sub_ℕ}

unfoldable pub memcmp : ℕ → ℕ → ℕ → (ℕ → ℕ) → ℤ
memcmp s1 s2 zero mem = pos 0
memcmp s1 s2 (suc n) mem =
    let rest = memcmp (s1 + 1) (s2 + 1) n mem in
    if not (mem s1 == mem s2) then sub_ℕ (mem s1) (mem s2) else rest

unfoldable pub strncmp : ℕ → ℕ → ℕ → (ℕ → ℕ) → ℤ
strncmp p q zero mem = pos 0
strncmp p q (suc n) mem =
    let rest = strncmp (p + 1) (q + 1) n mem in
    if mem p == 0 || not (mem p == mem q) then sub_ℕ (mem p) (mem q) else rest

-- while(n-- > 0) *s++ = 0;
unfoldable pub zero_fill : ℕ → ℕ → (ℕ → ℕ) → ℕ → ℕ
zero_fill s zero mem = mem
zero_fill s (suc n) mem = zero_fill (s + 1) n (update mem s 0)

-- A negative `n` behaves as 0.
unfoldable pub strncpy : ℕ → ℕ → ℕ → (ℕ → ℕ) → ℕ → ℕ
unfolding zero_fill
strncpy s t zero mem = mem
strncpy s t (suc n) mem =
    let copied = update mem s (mem t) in
    let rest = strncpy (s + 1) (t + 1) n copied in
    if mem t == 0 then zero_fill (s + 1) n copied else rest

-- The loop of `safestrcpy` for the `n` that it has left, and *s = 0.
unfoldable pub copy_terminated : ℕ → ℕ → ℕ → (ℕ → ℕ) → ℕ → ℕ
copy_terminated s t zero mem = update mem s 0
copy_terminated s t (suc n) mem =
    let copied = update mem s (mem t) in
    let rest = copy_terminated (s + 1) (t + 1) n copied in
    if mem t == 0 then update copied (s + 1) 0 else rest

unfoldable pub safestrcpy : ℕ → ℕ → ℕ → (ℕ → ℕ) → ℕ → ℕ
unfolding copy_terminated
safestrcpy s t zero mem = mem
safestrcpy s t (suc n) mem = copy_terminated s t n mem

-- On fuel, from `n` on.
unfoldable pub strlen : ℕ → ℕ → ℕ → (ℕ → ℕ) → Option ℕ
strlen zero n s mem = none
strlen (suc fuel) n s mem =
    let rest = strlen fuel (n + 1) s mem in if mem (s + n) == 0 then some n else rest
