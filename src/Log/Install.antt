-- ===== src/Log/Install.antt =====
-- What the disk holds once the header is written, and that `install_trans` keeps it.
use modified_riscv.Base.{
  ℕ, zero, suc, ◌+◌, ◌-◌, ◌≤◌, ◌<◌, ◌≡◌, ◌≢◌, ◌⊎◌, inl, inr, refl, sym, ◌∙◌, ap, subst, false,
  Bool-cases, ◌==◌, update, update_self, update_ne, arith, ℕ_discrete,
}
use modified_riscv.Log.{Block, Machine, bwrite, copy_block, install_trans}

module _ (start size : ℕ) where
  -- A block outside the log's region of the disk.
  abbrev pub IsHome : ℕ → Type 0
  IsHome b = (b < start) ⊎ (start + size ≤ b)

  pub zero-test : (p : ℕ) → p ≢ 0 → (p == 0) ≡ false
  zero-test p h = ground arith

  -- A transaction: its blocks fit into the log and lie outside it.
  pub record IsTransaction (n : ℕ) (block : ℕ → ℕ) : Type 0 where
    pub fits : n < size
    pub homes : (j : ℕ) → j < n → IsHome (block j)

  -- The header names the transaction, and the log has its blocks' new contents.
  pub record IsCommitted (n : ℕ) (block : ℕ → ℕ) (new : ℕ → Block) (disk : ℕ → Block) : Type 0 where
    pub counted : disk start 0 ≡ n
    pub named : (j : ℕ) → j < n → disk start (j + 1) ≡ block j
    pub logged : (j : ℕ) → j < n → disk (start + j + 1) ≡ new (block j)
    pub rest : (b : ℕ) → IsHome b → ((j : ℕ) → j < n → block j ≢ b) → disk b ≡ new b

  -- The header names nothing, and the other blocks are these.
  pub record IsClean (old disk : ℕ → Block) : Type 0 where
    pub empty : disk start 0 ≡ 0
    pub same : (b : ℕ) → IsHome b → disk b ≡ old b

  -- A write of the disk, if the power lasts.
  pub disk-bwrite : (b c : ℕ) (m : Machine) → c ≢ b → (bwrite b m).disk c ≡ m.disk c
  disk-bwrite b c m ne = elim (Bool-cases (m.power == 0)) [
    | inl off ↦ rw off refl
    | inr on ↦ rw on (update_ne m.disk b c (m.cache b) (λ e. ne (sym e)))
  ]

  -- A block of the log's region is no home.
  pub home-ne-log : (b c : ℕ) → IsHome b → start ≤ c → c < start + size → c ≢ b
  home-ne-log b c h low high = omega arith

  module _ (n : ℕ) (block : ℕ → ℕ) (new : ℕ → Block) (t : IsTransaction n block) where
    -- The buffers of the log hold the new contents, and the in-memory header names the blocks.
    pub record IsLoaded (m : Machine) : Type 0 where
      pub names : (j : ℕ) → j < n → m.block j ≡ block j
      pub loaded : (j : ℕ) → j < n → m.cache (start + j + 1) ≡ new (block j)

    pub record IsInstalled (r tail : ℕ) (m after : Machine) : Type 0 where
      pub committed : IsCommitted n block new after.disk
      pub powered : after.power ≡ m.power - r
      pub kept : (b : ℕ) → m.disk b ≡ new b → after.disk b ≡ new b
      pub done : after.power ≢ 0 → (j : ℕ) → tail ≤ j → j < n → after.disk (block j) ≡ new (block j)

    module _ (tail : ℕ) (m : Machine) (lt : tail < n)
        (now : m.cache (block tail) ≡ new (block tail)) where
      bwrite-kept : (b : ℕ) → m.disk b ≡ new b → (bwrite (block tail) m).disk b ≡ new b
      bwrite-kept b h = elim (Bool-cases (m.power == 0)) [
        | inl off ↦ rw off h
        | inr on ↦ rw on (elim (ℕ_discrete (block tail) b) [
          | yes e ↦
              subst (λ x. update m.disk (block tail) (m.cache (block tail)) x ≡ new x) e
                (update_self m.disk (block tail) (m.cache (block tail)) ∙ now)
          | no ne ↦ update_ne m.disk (block tail) b (m.cache (block tail)) ne ∙ h
        ])
      ]

      bwrite_now : m.power ≢ 0 → (bwrite (block tail) m).disk (block tail) ≡ new (block tail)
      bwrite_now on =
          rw (zero-test m.power on) (update_self m.disk (block tail) (m.cache (block tail)) ∙ now)

      bwrite-IsCommitted :
          IsCommitted n block new m.disk → IsCommitted n block new (bwrite (block tail) m).disk
      bwrite-IsCommitted h = record {
        counted =
            ap (λ (b : Block). b 0) (apart start (omega arith) (omega (arith, t.fits))) ∙ h.counted;
        named = λ j l.
            ap (λ (b : Block). b (j + 1)) (apart start (omega arith) (omega (arith, t.fits)))
            ∙ h.named j l;
        logged = λ j l. apart (start + j + 1) (omega arith) (omega (arith, t.fits)) ∙ h.logged j l;
        rest = λ b home other.
            disk-bwrite (block tail) b m (λ e. other tail lt (sym e)) ∙ h.rest b home other;
      }
        where
          apart : (c : ℕ) → start ≤ c → c < start + size → (bwrite (block tail) m).disk c ≡ m.disk c
          apart c low high =
              disk-bwrite (block tail) c m (home-ne-log (block tail) c (t.homes tail lt) low high)

    -- The buffers after the copy of a round.
    copy-IsLoaded :
        (tail : ℕ) (m : Machine)
        → tail < n
        → IsLoaded m
        → IsLoaded (copy_block (block tail) (start + tail + 1) m)
    copy-IsLoaded tail m lt h = record {
      names = h.names;
      loaded = λ j l.
          update_ne m.cache (block tail) (start + j + 1) (m.cache (start + tail + 1)) (λ e.
            home-ne-log (block tail) (start + j + 1) (t.homes tail lt) (omega arith)
              (omega (arith, t.fits)) (sym e))
          ∙ h.loaded j l;
    }

    pub install_trans-IsInstalled :
        (r tail : ℕ) (m : Machine)
        → tail + r ≡ n
        → IsLoaded m
        → IsCommitted n block new m.disk
        → IsInstalled r tail m (install_trans start tail r m)
    unfolding install_trans
    install_trans-IsInstalled zero tail m all h c = record {
      committed = c;
      powered = omega arith;
      kept = λ b e. e;
      done = λ on j low high. absurd (omega arith);
    }
    install_trans-IsInstalled (suc r) tail m all h c = rw (h.names tail (omega arith)) (
        by_rest (
          install_trans-IsInstalled r (tail + 1) (bwrite (block tail) copied) (omega arith)
            (record { names = loaded.names; loaded = loaded.loaded })
            (bwrite-IsCommitted tail copied (omega arith) now c)))
      where
        copied : Machine
        copied = copy_block (block tail) (start + tail + 1) m

        loaded : IsLoaded copied
        loaded = copy-IsLoaded tail m (omega arith) h

        now : copied.cache (block tail) ≡ new (block tail)
        now =
            update_self m.cache (block tail) (m.cache (start + tail + 1))
            ∙ h.loaded tail (omega arith)

        final : Machine
        final = install_trans start (tail + 1) r (bwrite (block tail) copied)

        by_rest :
            IsInstalled r
              (tail + 1)
              (bwrite (block tail) copied)
              (install_trans start (tail + 1) r (bwrite (block tail) copied))
            → IsInstalled
                (suc r)
                tail
                m
                (install_trans start (tail + 1) r (bwrite (block tail) copied))
        by_rest i = record {
          committed = i.committed;
          powered = omega (arith, i.powered);
          kept = λ b e. i.kept b (bwrite-kept tail copied (omega arith) now b e);
          done = λ on j low high. elim (ℕ_discrete tail j) [
            | yes e ↦
                subst (λ x. final.disk (block x) ≡ new (block x)) e
                  (i.kept (block tail) (
                    bwrite_now tail copied (omega arith) now
                      (λ off. on (omega (arith, i.powered)))))
            | no ne ↦ i.done on j (omega arith) high
          ];
        }
