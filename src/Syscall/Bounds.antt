-- ===== src/Syscall/Bounds.antt =====
-- The addresses that `fetchaddr` accepts.
use modified_riscv.Base.{ℕ, ◌+◌, ◌^◌, ◌≤◌, ◌<◌, ◌≡◌, ◌⊎◌, inl, inr, refl, Bool, true, false, arith}
use native.Mathlib.Decide.{dec_lt}
use modified_riscv.Vm.{address, copyin}
use modified_riscv.Vm.Copies.{HasHole, CopiesIn, copyin-CopiesIn}
use modified_riscv.Strings.Moves.{IsBeside}
use modified_riscv.Syscall.{is_outside, fetchaddr}

inside-accepted : (sz addr : ℕ) → sz ≤ 2 ^ 38 → addr + 8 ≤ sz → is_outside sz addr ≡ false
inside-accepted sz addr small le = ground arith

outside-refused :
    (sz addr : ℕ) → sz ≤ 2 ^ 38 → addr < 2 ^ 64 → sz < addr + 8 → is_outside sz addr ≡ true
outside-refused sz addr small word lt = ground arith

abbrev pub Fetches : (ℕ → ℕ) → ℕ → ℕ → ℕ → (ℕ → ℕ) → Bool × (ℕ → ℕ) → Type 0
Fetches walkaddr sz addr ip mem (true, after) =
    (addr + 8 ≤ sz) × CopiesIn walkaddr ip addr 8 mem (true, after)
Fetches walkaddr sz addr ip mem (false, after) =
    ((sz < addr + 8) ⊎ HasHole walkaddr addr 8) × ((a : ℕ) → IsBeside ip 8 a → after a ≡ mem a)

-- For a process of at most MAXVA bytes, every 64-bit address, also one whose end wraps, and user
-- bytes that do not overlap the destination: `fetchaddr` returns 0 only if the eight bytes at the
-- address lie below the process's size and are mapped, and then has copied them; else the end is
-- past the size or a byte is not mapped; in both cases it changes no byte beside the destination.
pub fetchaddr-Fetches :
    (walkaddr : ℕ → ℕ) (sz addr ip : ℕ) (mem : ℕ → ℕ)
    → sz ≤ 2 ^ 38
    → addr < 2 ^ 64
    → ((k : ℕ) → k < 8 → IsBeside ip 8 (address walkaddr (addr + k)))
    → Fetches walkaddr sz addr ip mem (fetchaddr walkaddr sz addr ip mem)
unfolding fetchaddr
fetchaddr-Fetches walkaddr sz addr ip mem small word apart = elim (dec_lt sz (addr + 8)) [
  | yes beyond ↦ rw (outside-refused sz addr small word beyond) (inl beyond, λ a out. refl)
  | no within ↦ rw (inside-accepted sz addr small (omega (arith, within))) (
      by_copy (omega (arith, within)) (copyin walkaddr 8 ip addr 8 mem)
        (copyin-CopiesIn walkaddr 8 ip addr 8 mem (omega arith) apart))
]
  where
    by_copy :
        addr + 8 ≤ sz
        → (r : Bool × (ℕ → ℕ)) → CopiesIn walkaddr ip addr 8 mem r
        → Fetches walkaddr sz addr ip mem r
    by_copy le (true, after) copied = (le, copied)
    by_copy le (false, after) (hole, same) = (inr hole, same)
