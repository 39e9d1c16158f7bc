-- ===== src/Syscall/Tests.antt =====
-- A fetch from a user's page, and the theorem at this input.
use modified_riscv.Base.{ℕ, ◌+◌, ◌-◌, ◌≡◌, ◌<◌, refl, false, true, ◌==◌, if◌then◌else◌, arith, inr}
use modified_riscv.Vm.{address}
use modified_riscv.Syscall.{is_outside, fetchaddr}
use modified_riscv.Syscall.Bounds.{Fetches, fetchaddr-Fetches}

-- The page at 0 is at 0x9000.
abbrev one_page : ℕ → ℕ
one_page va = if va == 0 then 0x9000 else 0

-- The last address before which eight bytes fit, and an address whose end wraps to 4.
accepts_the_last : is_outside 4096 4088 ≡ false
accepts_the_last = refl

refuses_a_wrap : is_outside 4096 0xfffffffffffffffc ≡ true
refuses_a_wrap = refl

in_page : (va : ℕ) → va < 4096 → 0x9000 - 1 < address one_page va
in_page va lt = ground arith

fetchaddr-Fetches_example :
    Fetches one_page 4096 4088 100 (λ a. a) (fetchaddr one_page 4096 4088 100 (λ a. a))
fetchaddr-Fetches_example =
    fetchaddr-Fetches one_page 4096 4088 100 (λ a. a) (omega arith) (omega arith)
      (λ k lt. inr (omega (arith, in_page (4088 + k) (omega arith))))
