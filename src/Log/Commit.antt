-- ===== src/Log/Commit.antt =====
-- A crash at any write of `commit`.
use modified_riscv.Base.{
  ℕ, zero, suc, ◌+◌, ◌-◌, ◌≤◌, ◌<◌, ◌≡◌, ◌≢◌, ◌⊎◌, inl, inr, refl, sym, ◌∙◌, ap, subst, true, false,
  Bool-cases, lt→ltb, ◌*◌, ◌==◌, update_self, update_ne, arith, ℕ_discrete,
}
use modified_riscv.Log.{
  Block, Machine, bwrite, copy_block, install_trans, write_head, write_log, clear, commit,
}
use modified_riscv.Log.Install.{
  IsHome, IsTransaction, IsCommitted, IsClean, disk-bwrite, zero-test, home-ne-log, IsLoaded,
  IsInstalled, install_trans-IsInstalled,
}
use modified_riscv.Log.Header.{
  IsHeader, write_head-IsHeader, write_head-elsewhere, write_head-off, write_head-kept,
  install_trans-off, clear-IsClean,
}

module _ (start size : ℕ) where
  -- What the copies into the log's region leave, from `tail` on.
  record IsLogged (r tail : ℕ) (m after : Machine) : Type 0 where
    header : after.disk start ≡ m.disk start
    homes : (b : ℕ) → IsHome start size b → after.disk b ≡ m.disk b
    buffers : (b : ℕ) → IsHome start size b → after.cache b ≡ m.cache b
    count : after.n ≡ m.n
    names : after.block ≡ m.block
    powered : after.power ≡ m.power - r
    earlier :
        (j : ℕ)
        → j < tail
        → (after.cache (start + j + 1) ≡ m.cache (start + j + 1))
          × (after.disk (start + j + 1) ≡ m.disk (start + j + 1))
    loaded : (j : ℕ) → tail ≤ j → j < tail + r → after.cache (start + j + 1) ≡ m.cache (m.block j)
    written :
        after.power ≢ 0
        → (j : ℕ) → tail ≤ j
        → j < tail + r
        → after.disk (start + j + 1) ≡ m.cache (m.block j)

  write_log-IsLogged :
      (r tail : ℕ) (m : Machine)
      → tail + r < size
      → ((j : ℕ) → j < tail + r → IsHome start size (m.block j))
      → IsLogged r tail m (write_log start tail r m)
  unfolding write_log
  write_log-IsLogged zero tail m fits homes = record {
    header = refl;
    homes = λ b h. refl;
    buffers = λ b h. refl;
    count = refl;
    names = refl;
    powered = omega arith;
    earlier = λ j l. (refl, refl);
    loaded = λ j low high. absurd (omega arith);
    written = λ on j low high. absurd (omega arith);
  }
  write_log-IsLogged (suc r) tail m fits homes =
      by_rest (write_log-IsLogged r (tail + 1) stepped (omega arith) (λ j l. homes j (omega arith)))
    where
      place : ℕ
      place = start + tail + 1

      copied : Machine
      copied = copy_block place (m.block tail) m

      stepped : Machine
      stepped = bwrite place copied

      final : Machine
      final = write_log start (tail + 1) r stepped

      home_ne : (b : ℕ) → IsHome start size b → place ≢ b
      home_ne b h = home-ne-log start size b place h (omega arith) (omega arith)

      buffer : (b : ℕ) → place ≢ b → stepped.cache b ≡ m.cache b
      buffer b ne = update_ne m.cache place b (m.cache (m.block tail)) ne

      cell : (b : ℕ) → place ≢ b → stepped.disk b ≡ m.disk b
      cell b ne = disk-bwrite start size place b copied (λ e. ne (sym e))

      here : m.power ≢ 0 → stepped.disk place ≡ m.cache (m.block tail)
      here on = rw (zero-test start size m.power on) (
          update_self m.disk place (copied.cache place)
          ∙ update_self m.cache place (m.cache (m.block tail)))

      source : (j : ℕ) → j < tail + suc r → stepped.cache (stepped.block j) ≡ m.cache (m.block j)
      source j l = buffer (m.block j) (home_ne (m.block j) (homes j l))

      by_rest : IsLogged r (tail + 1) stepped final → IsLogged (suc r) tail m final
      by_rest i = record {
        header = i.header ∙ cell start (omega arith);
        homes = λ b h. i.homes b h ∙ cell b (home_ne b h);
        buffers = λ b h. i.buffers b h ∙ buffer b (home_ne b h);
        count = i.count;
        names = i.names;
        powered = omega (arith, i.powered);
        earlier = λ j l. (
          (i.earlier j (omega arith)).0 ∙ buffer (start + j + 1) (omega arith),
          (i.earlier j (omega arith)).1 ∙ cell (start + j + 1) (omega arith),
        );
        loaded = λ j low high. elim (ℕ_discrete tail j) [
          | yes e ↦
              subst (λ x. final.cache (start + x + 1) ≡ m.cache (m.block x)) e
                ((i.earlier tail (omega arith)).0
                  ∙ update_self m.cache place (m.cache (m.block tail)))
          | no ne ↦ i.loaded j (omega arith) (omega arith) ∙ source j high
        ];
        written = λ on j low high. elim (ℕ_discrete tail j) [
          | yes e ↦
              subst (λ x. final.disk (start + x + 1) ≡ m.cache (m.block x)) e
                ((i.earlier tail (omega arith)).1 ∙ here (λ off. on (omega (arith, i.powered))))
          | no ne ↦ i.written on j (omega arith) (omega arith) ∙ source j high
        ];
      }

  -- Before `commit`: a transaction whose new contents are in the buffers, and an empty header on the
  -- disk.
  pub record IsPending (m : Machine) : Type 0 where
    pub transaction : IsTransaction start size m.n m.block
    pub empty : m.disk start 0 ≡ 0
    pub clean :
        (b : ℕ) → IsHome start size b → ((j : ℕ) → j < m.n → m.block j ≢ b) → m.disk b ≡ m.cache b

  -- What the disk holds when the power fails: all the old contents, all the new ones in the log, or
  -- all the new ones at their homes.
  abbrev pub IsAtomic : Machine → (ℕ → Block) → Type 0
  IsAtomic m disk =
      IsClean start size m.disk disk
      ⊎ (IsCommitted start size m.n m.block m.cache disk ⊎ IsClean start size m.cache disk)

  -- A header on the disk commits the transaction.
  header-IsCommitted :
      (m after : Machine)
      → IsPending m
      → IsLogged m.n 0 m after
      → (after.power == 0) ≡ false
      → IsCommitted start size m.n m.block m.cache (write_head start after).disk
  header-IsCommitted m after p l on = record {
    counted = h.counted ∙ l.count;
    named =
        λ j lt. h.named j (subst (λ k. j < k) (sym l.count) lt) ∙ ap (λ (f : ℕ → ℕ). f j) l.names;
    logged = λ j lt.
        (elsewhere (start + j + 1) (omega arith)).0
        ∙ l.written (λ off. ground arith) j (omega arith) (omega arith);
    rest = λ b home out. (elsewhere b (start_ne b home)).0 ∙ l.homes b home ∙ p.clean b home out;
  }
    where
      h : IsHeader start after (write_head start after)
      h = write_head-IsHeader start after on

      elsewhere :
          (b : ℕ)
          → start ≢ b
          → ((write_head start after).disk b ≡ after.disk b)
            × ((write_head start after).cache b ≡ after.cache b)
      elsewhere b ne = write_head-elsewhere start after b ne

      start_ne : (b : ℕ) → IsHome start size b → start ≢ b
      start_ne b home =
          home-ne-log start size b start home (omega arith) (omega (arith, p.transaction.fits))

  header-IsLoaded :
      (m after : Machine) (p : IsPending m)
      → IsLogged m.n 0 m after
      → IsLoaded start size m.n m.block m.cache p.transaction (write_head start after)
  header-IsLoaded m after p l = record {
    names = λ j lt. ap (λ (f : ℕ → ℕ). f j) ((write_head-kept start after).1 ∙ l.names);
    loaded = λ j lt.
        (write_head-elsewhere start after (start + j + 1) (omega arith)).1
        ∙ l.loaded j (omega arith) (omega arith);
  }

  -- `commit` with no power left after the copies.
  commit_off :
      (m logged : Machine)
      → IsPending m
      → IsLogged m.n 0 m logged
      → (logged.power == 0) ≡ true
      → IsClean start size m.disk
          (write_head start (clear (install_trans start 0 m.n (write_head start logged)))).disk
  commit_off m logged p l off = record {
    empty = ap (λ (d : ℕ → Block). d start 0) frozen ∙ ap (λ (b : Block). b 0) l.header ∙ p.empty;
    same = λ b h. ap (λ (d : ℕ → Block). d b) frozen ∙ l.homes b h;
  }
    where
      headed : Machine
      headed = write_head start logged

      headed_off : headed.power ≡ 0
      headed_off = (write_head-kept start logged).2 ∙ ground arith

      installed :
          ((install_trans start 0 m.n headed).disk ≡ headed.disk)
          × ((install_trans start 0 m.n headed).power ≡ 0)
      installed = install_trans-off start m.n 0 headed headed_off

      frozen : (write_head start (clear (install_trans start 0 m.n headed))).disk ≡ logged.disk
      frozen =
          write_head-off start (clear (install_trans start 0 m.n headed)) (rw installed.1 refl)
          ∙ installed.0
          ∙ write_head-off start logged off

  -- Whenever the power fails during `commit`, the disk holds all the old contents, all the new ones in
  -- the log, or all the new ones at their homes. With power for 2 * n + 2 writes it holds the last.
  pub commit-IsAtomic :
      (m : Machine)
      → IsPending m
      → 0 < m.n
      → IsAtomic m (commit start m).disk
        × (2 * m.n + 1 < m.power → IsClean start size m.cache (commit start m).disk)
  unfolding commit
  commit-IsAtomic m p some = rw (lt→ltb 0 m.n some) (atomic, lasting)
    where
      logged : Machine
      logged = write_log start 0 m.n m

      l : IsLogged m.n 0 m logged
      l =
          write_log-IsLogged m.n 0 m (omega (arith, p.transaction.fits))
            (λ j lt. p.transaction.homes j (omega arith))

      headed : Machine
      headed = write_head start logged

      installed : Machine
      installed = install_trans start 0 m.n headed

      i :
          (logged.power == 0) ≡ false
          → IsInstalled start size m.n m.block m.cache p.transaction m.n 0 headed installed
      i on =
          install_trans-IsInstalled start size m.n m.block m.cache p.transaction m.n 0 headed
            (omega arith) (header-IsLoaded m logged p l) (header-IsCommitted m logged p l on)

      ends :
          (logged.power == 0) ≡ false
          → (IsCommitted start size m.n m.block m.cache (write_head start (clear installed)).disk
              ⊎ IsClean start size m.cache (write_head start (clear installed)).disk)
            × (installed.power ≢ 0
                → IsClean start size m.cache (write_head start (clear installed)).disk)
      ends on = clear-IsClean start size m.n m.block m.cache p.transaction headed installed (i on)

      atomic : IsAtomic m (write_head start (clear installed)).disk
      atomic = elim (Bool-cases (logged.power == 0)) [
        | inl off ↦ inl (commit_off m logged p l off)
        | inr on ↦ inr (ends on).0
      ]

      lasting :
          2 * m.n + 1 < m.power
          → IsClean start size m.cache (write_head start (clear installed)).disk
      lasting enough = (ends on).1 (λ off.
          absurd (omega (arith, (i on).powered, l.powered, (write_head-kept start logged).2)))
        where
          on : (logged.power == 0) ≡ false
          on = zero-test start size logged.power (λ off. absurd (omega (arith, l.powered)))
