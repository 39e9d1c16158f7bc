-- ===== src/Log/Header.antt =====
-- The header's write, and the end of an installation.
use modified_riscv.Base.{
  ℕ, zero, suc, ◌+◌, ◌-◌, ◌≤◌, ◌<◌, ◌≡◌, ◌≢◌, ◌⊎◌, inl, inr, refl, sym, ◌∙◌, ap, subst, true, false,
  Bool-cases, ◌==◌, update, update_self, update_ne, arith, ℕ_discrete,
}
use modified_riscv.Log.{Block, Machine, put_names, install_trans, write_head, clear}
use modified_riscv.Log.Install.{
  IsHome, IsTransaction, IsCommitted, IsClean, zero-test, home-ne-log, IsInstalled,
}

put_names_before : (r i j : ℕ) (names : ℕ → ℕ) (b : Block) → j ≤ i → put_names i r names b j ≡ b j
unfolding put_names
put_names_before zero i j names b h = refl
put_names_before (suc r) i j names b h =
    put_names_before r (i + 1) j names (update b (i + 1) (names i)) (omega arith)
    ∙ update_ne b (i + 1) j (names i) (omega arith)

put_names_lem :
    (r i j : ℕ) (names : ℕ → ℕ) (b : Block)
    → i ≤ j
    → j < i + r
    → put_names i r names b (j + 1) ≡ names j
unfolding put_names
put_names_lem zero i j names b low high = absurd (omega arith)
put_names_lem (suc r) i j names b low high = elim (ℕ_discrete i j) [
  | yes e ↦
      subst (λ x. put_names (i + 1) r names (update b (i + 1) (names i)) (x + 1) ≡ names x) e
        (put_names_before r (i + 1) (i + 1) names (update b (i + 1) (names i)) (omega arith)
          ∙ update_self b (i + 1) (names i))
  | no ne ↦ put_names_lem r (i + 1) j names (update b (i + 1) (names i)) (omega arith) (omega arith)
]

module _ (start : ℕ) where
  -- A header that reaches the disk has the count and the names.
  pub record IsHeader (m after : Machine) : Type 0 where
    pub counted : after.disk start 0 ≡ m.n
    pub named : (j : ℕ) → j < m.n → after.disk start (j + 1) ≡ m.block j

  pub write_head-IsHeader : (m : Machine) → (m.power == 0) ≡ false → IsHeader m (write_head start m)
  unfolding write_head
  write_head-IsHeader m on = rw on (record {
    counted =
        ap (λ (b : Block). b 0) now
        ∙ put_names_before m.n 0 0 m.block first (omega arith)
        ∙ update_self (m.cache start) 0 m.n;
    named = λ j l.
        ap (λ (b : Block). b (j + 1)) now
        ∙ put_names_lem m.n 0 j m.block first (omega arith) (omega arith);
  })
    where
      first : Block
      first = update (m.cache start) 0 m.n

      filled : ℕ → Block
      filled = update m.cache start (put_names 0 m.n m.block first)

      now : update m.disk start (filled start) start ≡ put_names 0 m.n m.block first
      now =
          update_self m.disk start (filled start)
          ∙ update_self m.cache start (put_names 0 m.n m.block first)

  -- The rest stays, in any case.
  pub write_head-elsewhere :
      (m : Machine) (b : ℕ)
      → start ≢ b
      → ((write_head start m).disk b ≡ m.disk b) × ((write_head start m).cache b ≡ m.cache b)
  unfolding write_head
  write_head-elsewhere m b ne = (
    elim (Bool-cases (m.power == 0)) [
      | inl off ↦ rw off refl
      | inr on ↦ rw on (update_ne m.disk start b _ ne)
    ],
    update_ne m.cache start b _ ne,
  )

  pub write_head-off : (m : Machine) → (m.power == 0) ≡ true → (write_head start m).disk ≡ m.disk
  unfolding write_head
  write_head-off m off = rw off refl

  pub write_head-kept :
      (m : Machine)
      → ((write_head start m).n ≡ m.n)
        × ((write_head start m).block ≡ m.block)
        × ((write_head start m).power ≡ m.power - 1)
  unfolding write_head
  write_head-kept m = (refl, refl, refl)

  -- Without power nothing reaches the disk.
  pub install_trans-off :
      (r tail : ℕ) (m : Machine)
      → m.power ≡ 0
      → ((install_trans start tail r m).disk ≡ m.disk) × ((install_trans start tail r m).power ≡ 0)
  unfolding install_trans
  install_trans-off zero tail m off = (refl, off)
  install_trans-off (suc r) tail m off =
      let (d, p) = install_trans-off r (tail + 1) _ (omega arith) in (d ∙ rw off refl, p)

module _ (start size n : ℕ) (block : ℕ → ℕ) (new : ℕ → Block)
    (t : IsTransaction start size n block) where
  -- Whether a block is one of the transaction's.
  find : (k b : ℕ) → ((j : ℕ) × (j < k) × (block j ≡ b)) ⊎ ((j : ℕ) → j < k → block j ≢ b)
  find zero b = inr (λ j l. absurd (omega arith))
  find (suc k) b = elim (ℕ_discrete (block k) b) [
    | yes e ↦ inl (k, omega arith, e)
    | no ne ↦ elim (find k b) [
      | inl (j, l, e) ↦ inl (j, omega arith, e)
      | inr out ↦ inr (λ j l. elim (ℕ_discrete j k) [
        | yes e ↦ subst (λ x. block x ≢ b) (sym e) ne
        | no apart ↦ out j (omega arith)
      ])
    ]
  ]

  start_ne : (b : ℕ) → IsHome start size b → start ≢ b
  start_ne b h = home-ne-log start size b start h (omega arith) (omega (arith, t.fits))

  -- After the installation the header is cleared: on the disk the transaction is still in the log, or
  -- its blocks are at their homes. They are, if the power lasts.
  pub clear-IsClean :
      (m after : Machine)
      → IsInstalled start size n block new t n 0 m after
      → (IsCommitted start size n block new (write_head start (clear after)).disk
          ⊎ IsClean start size new (write_head start (clear after)).disk)
        × (after.power ≢ 0 → IsClean start size new (write_head start (clear after)).disk)
  clear-IsClean m after i = (
    elim (Bool-cases (after.power == 0)) [
      | inl off ↦ inl (
          subst (λ d. IsCommitted start size n block new d)
            (sym (write_head-off start (clear after) off)) i.committed)
      | inr on ↦ inr (cleared (λ off. ground arith))
    ],
    cleared,
  )
    where
      home : after.power ≢ 0 → (b : ℕ) → IsHome start size b → after.disk b ≡ new b
      home on b h = elim (find n b) [
        | inl (j, l, e) ↦ subst (λ x. after.disk x ≡ new x) e (i.done on j (omega arith) l)
        | inr out ↦ i.committed.rest b h out
      ]

      cleared : after.power ≢ 0 → IsClean start size new (write_head start (clear after)).disk
      cleared on = record {
        empty =
            (write_head-IsHeader start (clear after) (zero-test start size after.power on)).counted;
        same = λ b h. (write_head-elsewhere start (clear after) b (start_ne b h)).0 ∙ home on b h;
      }
