-- ===== src/Log/Tests.antt =====
-- A small log at work, and the theorems at these inputs.
use modified_riscv.Base.{
  ℕ, ◌+◌, ◌*◌, ◌<◌, ◌≡◌, ◌⊎◌, refl, [], ◌∷◌, ◌==◌, if◌then◌else◌, update, update_ne, sym, ◌∙◌,
  arith, inr,
}
use modified_riscv.Log.{Block, Machine, commit, recover_from_log}
use modified_riscv.Log.Install.{IsClean}
use modified_riscv.Log.Commit.{IsPending}
use modified_riscv.Log.Recovery.{boot, reboots, commit_crash_safe}
use modified_riscv.Log.Space.{Log, System, Step, new_log}
use modified_riscv.Log.Space

-- The log of five blocks starts at block 2; blocks 40 and 41 are being changed.
abbrev old : ℕ → Block
old b w = if b == 2 then 0 else b

abbrev new : ℕ → Block
new = update (update old 40 (λ w. 7)) 41 (λ w. 8)

abbrev pending : ℕ → Machine
pending power = record { n = 2; block = λ j. j + 40; cache = new; disk = old; power = power }

pending-IsPending : (power : ℕ) → IsPending 2 5 (pending power)
pending-IsPending power = record {
  transaction = record { fits = omega arith; homes = λ j lt. inr (omega arith) };
  empty = refl;
  clean = λ b h out. sym (
      update_ne (update old 40 (λ w. 7)) 41 b (λ w. 8) (λ e. out 1 (omega arith) e)
      ∙ update_ne old 40 b (λ w. 7) (λ e. out 0 (omega arith) e));
}

-- The power fails at the fourth write of `commit`, and at the first and second of two recoveries.
commit_crash_safe_example :
    let disk = reboots 2 (1 ∷ 2 ∷ []) (commit 2 (pending 4)).disk in
    let recovered = (recover_from_log 2 (boot disk 9)).disk in
    (IsClean 2 5 old recovered ⊎ IsClean 2 5 new recovered)
    × (2 * 2 + 1 < 4 → IsClean 2 5 new recovered)
commit_crash_safe_example =
    commit_crash_safe 2 5 (pending 4) (1 ∷ 2 ∷ []) 9 (pending-IsPending 4) (omega arith)
      (omega arith)

-- Three writes commit: two blocks and the header.
third_write : (recover_from_log 2 (boot (commit 2 (pending 3)).disk 9)).disk 41 0 ≡ 8
unfolding recover_from_log commit
third_write = refl

second_write : (recover_from_log 2 (boot (commit 2 (pending 2)).disk 9)).disk 41 0 ≡ 41
unfolding recover_from_log commit
second_write = refl

-- A log of LOGSIZE blocks, as mkfs makes it, with one operation under way.
abbrev begun : Log
begun = record (new_log 30) { outstanding = 1 }
