-- ===== src/Log/Recovery.antt =====
-- Recovery after a crash, and after crashes during recovery.
use modified_riscv.Base.{
  ℕ, zero, suc, ◌+◌, ◌*◌, ◌<◌, ◌≡◌, ◌≢◌, ◌⊎◌, inl, inr, sym, ◌∙◌, subst, List, [], ◌∷◌, Bool-cases,
  lt→ltb, ◌==◌, arith,
}
use modified_riscv.Log.{
  Block, Machine, read_head, install_trans, write_head, clear, recover_from_log, commit,
}
use modified_riscv.Log.Install.{
  IsTransaction, IsCommitted, IsClean, home-ne-log, IsInstalled, install_trans-IsInstalled,
}
use modified_riscv.Log.Header.{
  write_head-IsHeader, write_head-elsewhere, write_head-off, clear-IsClean,
}
use modified_riscv.Log.Commit.{IsPending, IsAtomic, commit-IsAtomic}

-- The kernel after a reboot, with this disk and power for so many writes.
abbrev pub boot : (ℕ → Block) → ℕ → Machine
boot disk power = record { n = 0; block = λ _. 0; cache = disk; disk = disk; power = power }

-- Reboots whose recoveries the power may interrupt, one after the other.
unfoldable pub reboots : ℕ → List ℕ → (ℕ → Block) → ℕ → Block
reboots start [] disk = disk
reboots start (k ∷ ks) disk = reboots start ks (recover_from_log start (boot disk k)).disk

module _ (start size : ℕ) (room : 0 < size) where
  -- The header's clearing keeps a clean disk clean.
  clear-kept :
      (old : ℕ → Block) (m : Machine)
      → IsClean start size old m.disk
      → IsClean start size old (write_head start (clear m)).disk
  clear-kept old m c = elim (Bool-cases (m.power == 0)) [
    | inl off ↦ subst (λ d. IsClean start size old d) (sym (write_head-off start (clear m) off)) c
    | inr on ↦ record {
      empty = (write_head-IsHeader start (clear m) on).counted;
      same = λ b h.
          (write_head-elsewhere start (clear m) b
            (home-ne-log start size b start h (omega arith) (omega arith))).0
          ∙ c.same b h;
    }
  ]

  -- With an empty header there is nothing to install.
  recover-IsClean :
      (old disk : ℕ → Block) (k : ℕ)
      → IsClean start size old disk
      → IsClean start size old (recover_from_log start (boot disk k)).disk
  unfolding recover_from_log install_trans
  recover-IsClean old disk k c = by_count (disk start 0) c.empty
    where
      by_count :
          (r : ℕ)
          → r ≡ 0
          → IsClean start size old
              (write_head start
                (clear (install_trans start 0 r (read_head start (boot disk k))))).disk
      by_count zero e = clear-kept old (read_head start (boot disk k)) c
      by_count (suc r) e = absurd (omega arith)

  module _ (n : ℕ) (block : ℕ → ℕ) (new : ℕ → Block) (t : IsTransaction start size n block) where
    -- A transaction in the log is installed; where the power fails it stays in the log.
    recover-IsCommitted :
        (disk : ℕ → Block) (k : ℕ)
        → IsCommitted start size n block new disk
        → (IsCommitted start size n block new (recover_from_log start (boot disk k)).disk
            ⊎ IsClean start size new (recover_from_log start (boot disk k)).disk)
          × (n < k → IsClean start size new (recover_from_log start (boot disk k)).disk)
    unfolding recover_from_log
    recover-IsCommitted disk k c =
        subst Ends (sym c.counted) (ends.0, λ lt. ends.1 (λ off. absurd (omega (arith, i.powered))))
      where
        headed : Machine
        headed = read_head start (boot disk k)

        Ends : ℕ → Type 0
        Ends r =
            (IsCommitted start size n block new
                (write_head start (clear (install_trans start 0 r headed))).disk
              ⊎ IsClean start size new
                  (write_head start (clear (install_trans start 0 r headed))).disk)
            × (n < k
                → IsClean start size new
                    (write_head start (clear (install_trans start 0 r headed))).disk)

        installed : Machine
        installed = install_trans start 0 n headed

        i : IsInstalled start size n block new t n 0 headed installed
        i =
            install_trans-IsInstalled start size n block new t n 0 headed (omega arith)
              (record {
                names = λ j lt. rw (c.counted, lt→ltb j n lt) (c.named j lt);
                loaded = λ j lt. c.logged j lt;
              })
              c

        ends :
            (IsCommitted start size n block new (write_head start (clear installed)).disk
              ⊎ IsClean start size new (write_head start (clear installed)).disk)
            × (installed.power ≢ 0
                → IsClean start size new (write_head start (clear installed)).disk)
        ends = clear-IsClean start size n block new t headed installed i

    -- So it is after any number of interrupted recoveries.
    reboots-IsCommitted :
        (ks : List ℕ) (disk : ℕ → Block)
        → IsCommitted start size n block new disk ⊎ IsClean start size new disk
        → IsCommitted start size n block new (reboots start ks disk)
          ⊎ IsClean start size new (reboots start ks disk)
    unfolding reboots
    reboots-IsCommitted [] disk h = h
    reboots-IsCommitted (k ∷ ks) disk h = reboots-IsCommitted ks _ (elim h [
      | inl c ↦ (recover-IsCommitted disk k c).0
      | inr c ↦ inr (recover-IsClean new disk k c)
    ])

    recovered_new :
        (disk : ℕ → Block) (k : ℕ)
        → n < k
        → IsCommitted start size n block new disk ⊎ IsClean start size new disk
        → IsClean start size new (recover_from_log start (boot disk k)).disk
    recovered_new disk k lt (inl c) = (recover-IsCommitted disk k c).1 lt
    recovered_new disk k lt (inr c) = recover-IsClean new disk k c

  reboots-IsClean :
      (old : ℕ → Block) (ks : List ℕ) (disk : ℕ → Block)
      → IsClean start size old disk
      → IsClean start size old (reboots start ks disk)
  unfolding reboots
  reboots-IsClean old [] disk c = c
  reboots-IsClean old (k ∷ ks) disk c = reboots-IsClean old ks _ (recover-IsClean old disk k c)

-- Crash safety: whenever the power fails during `commit`, and however often it fails again during the
-- recoveries, the recovery that has power for n + 1 writes leaves every block outside the log as it
-- was before the transaction, or every such block as the transaction left it. If `commit` has power
-- for 2 * n + 2 writes, it is the latter.
pub commit_crash_safe :
    (start size : ℕ) (m : Machine) (crashes : List ℕ) (k : ℕ)
    → IsPending start size m
    → 0 < m.n
    → m.n < k
    → let disk = reboots start crashes (commit start m).disk in
      let recovered = (recover_from_log start (boot disk k)).disk in
      (IsClean start size m.disk recovered ⊎ IsClean start size m.cache recovered)
      × (2 * m.n + 1 < m.power → IsClean start size m.cache recovered)
commit_crash_safe start size m crashes k p some lt =
    (by_case atomic.0, λ enough. new (inr (atomic.1 enough)))
  where
    room : 0 < size
    room = omega (arith, p.transaction.fits)

    atomic :
        IsAtomic start size m (commit start m).disk
        × (2 * m.n + 1 < m.power → IsClean start size m.cache (commit start m).disk)
    atomic = commit-IsAtomic start size m p some

    new :
        IsCommitted start size m.n m.block m.cache (commit start m).disk
          ⊎ IsClean start size m.cache (commit start m).disk
        → IsClean start size m.cache
            (recover_from_log start (boot (reboots start crashes (commit start m).disk) k)).disk
    new h =
        recovered_new start size room m.n m.block m.cache p.transaction _ k lt
          (reboots-IsCommitted start size room m.n m.block m.cache p.transaction crashes _ h)

    by_case :
        IsAtomic start size m (commit start m).disk
        → IsClean start size m.disk
            (recover_from_log start (boot (reboots start crashes (commit start m).disk) k)).disk
          ⊎ IsClean start size m.cache
              (recover_from_log start (boot (reboots start crashes (commit start m).disk) k)).disk
    by_case (inl old) = inl (
        recover-IsClean start size room m.disk _ k
          (reboots-IsClean start size room m.disk crashes _ old))
    by_case (inr h) = inr (new h)
