-- ===== src/Fs/Blocks/Map.antt =====
-- The block map of an inode: a pointer for each block, and one for the block of indirect pointers.
use modified_riscv.Base.{
  ℕ, ◌-◌, ◌<◌, ◌≡◌, ◌≢◌, ◌⊎◌, inl, inr, refl, sym, ◌∙◌, ap, subst, Bool, true, false, ltb, ◌==◌,
  if◌then◌else◌, update, update_self, update_ne, true_ne_false, Bool-cases,
}
use native.Mathlib.Decide.{ℕ_discrete}
use modified_riscv.Fs.Blocks.{ndirect, Volume}

-- The pointers: the direct ones, that of the indirect block, and the entries of that block.
abbrev pub pointer : Volume → ℕ → ℕ
pointer v k =
    if ltb k 13
    then v.addrs k
    else if v.addrs ndirect == 0
    then 0
    else v.word (v.addrs ndirect) (k - 13)

abbrev pub pointers : ℕ
pointers = 269

-- The blocks that the pointers name are in use, no two pointers name one block, and block 0 is in
-- use: it is the boot block.
pub record IsMap (f : ℕ → ℕ) (used : ℕ → Bool) : Type 0 where
  pub in_use : (k : ℕ) → k < pointers → f k ≢ 0 → used (f k) ≡ true
  pub distinct : (j k : ℕ) → j < pointers → k < pointers → f j ≢ 0 → f j ≡ f k → j ≡ k
  pub boot : used 0 ≡ true

-- A null pointer may be set to a free block.
IsMap-update :
    (f g : ℕ → ℕ) (used : ℕ → Bool) (k a : ℕ)
    → IsMap f used
    → used a ≡ false
    → ((j : ℕ) → j < pointers → g j ≡ update f k a j)
    → IsMap g (update used a true)
IsMap-update f g used k a m free same = record {
  in_use = λ j lt nonzero. kept (g j) (elim (ℕ_discrete k j) [
    | yes e ↦ inr (same j lt ∙ subst (λ x. update f k a x ≡ a) e (update_self f k a))
    | no ne ↦ inl (
        subst (λ x. used x ≡ true) (sym (other j lt ne))
          (m.in_use j lt (λ z. nonzero (other j lt ne ∙ z))))
  ]);
  distinct = λ i j lt lt' nonzero e. elim (ℕ_discrete k i) [
    | yes p ↦ elim (ℕ_discrete k j) [
      | yes q ↦ sym p ∙ q
      | no q ↦ absurd (fresh j lt' q (sym e ∙ here i lt p) (λ z. nonzero (e ∙ z)))
    ]
    | no p ↦ elim (ℕ_discrete k j) [
      | yes q ↦ absurd (fresh i lt p (e ∙ here j lt' q) nonzero)
      | no q ↦
          m.distinct i j lt lt' (λ z. nonzero (other i lt p ∙ z))
            (sym (other i lt p) ∙ e ∙ other j lt' q)
    ]
  ];
  boot = kept 0 (inl m.boot);
}
  where
    kept : (x : ℕ) → (used x ≡ true) ⊎ (x ≡ a) → update used a true x ≡ true
    kept x (inl u) = elim (ℕ_discrete a x) [
      | yes e ↦ subst (λ y. update used a true y ≡ true) e (update_self used a true)
      | no ne ↦ update_ne used a x true ne ∙ u
    ]
    kept x (inr e) = subst (λ y. update used a true y ≡ true) (sym e) (update_self used a true)

    other : (j : ℕ) → j < pointers → k ≢ j → g j ≡ f j
    other j lt ne = same j lt ∙ update_ne f k j a ne

    here : (j : ℕ) → j < pointers → k ≡ j → g j ≡ a
    here j lt e = same j lt ∙ subst (λ x. update f k a x ≡ a) e (update_self f k a)

    fresh : (j : ℕ) → j < pointers → k ≢ j → g j ≡ a → g j ≢ 0 → ⊥
    fresh j lt ne e nonzero = true_ne_false (
        sym (m.in_use j lt (λ z. nonzero (other j lt ne ∙ z)))
        ∙ ap used (sym (other j lt ne) ∙ e)
        ∙ free)

-- What a change that only fills null pointers keeps: the other pointers, the blocks in use, and what
-- they hold, but for the indirect block.
pub record Extends (v w : Volume) : Type 0 where
  pub sound : IsMap (pointer w) w.used
  pub kept : (k : ℕ) → k < pointers → pointer v k ≢ 0 → pointer w k ≡ pointer v k
  pub fresh :
      (k : ℕ) → k < pointers → pointer v k ≡ 0 → pointer w k ≢ 0 → v.used (pointer w k) ≡ false
  pub still : (b : ℕ) → v.used b ≡ true → w.used b ≡ true
  pub contents : (b : ℕ) → v.used b ≡ true → b ≢ w.addrs ndirect → w.word b ≡ v.word b

pub Extends-same : (v : Volume) → IsMap (pointer v) v.used → Extends v v
Extends-same v m = record {
  sound = m;
  kept = λ k lt set. refl;
  fresh = λ k lt null set. absurd (set null);
  still = λ b u. u;
  contents = λ b u ne. refl;
}

pub Extends-twice :
    (u v w : Volume) → w.addrs ndirect ≡ v.addrs ndirect → Extends u v → Extends v w → Extends u w
Extends-twice u v w same e f = record {
  sound = f.sound;
  kept = λ k lt set. f.kept k lt (λ z. set (sym (e.kept k lt set) ∙ z)) ∙ e.kept k lt set;
  fresh = λ k lt null set. elim (ℕ_discrete (pointer v k) 0) [
    | yes empty ↦ before (pointer w k) (f.fresh k lt empty set)
    | no set' ↦ subst (λ b. u.used b ≡ false) (sym (f.kept k lt set')) (e.fresh k lt null set')
  ];
  still = λ b used. f.still b (e.still b used);
  contents =
      λ b used ne. f.contents b (e.still b used) ne ∙ e.contents b used (λ x. ne (x ∙ sym same));
}
  where
    before : (b : ℕ) → v.used b ≡ false → u.used b ≡ false
    before b free = elim (Bool-cases (u.used b)) [
      | inl taken ↦ absurd (true_ne_false (sym (e.still b taken) ∙ free))
      | inr left ↦ left
    ]

pub Extends-fill :
    (v w : Volume) (k a : ℕ)
    → IsMap (pointer v) v.used
    → pointer v k ≡ 0
    → v.used a ≡ false
    → ((j : ℕ) → j < pointers → pointer w j ≡ update (pointer v) k a j)
    → w.used ≡ update v.used a true
    → ((b : ℕ) → v.used b ≡ true → b ≢ w.addrs ndirect → w.word b ≡ v.word b)
    → Extends v w
Extends-fill v w k a m null free same taken contents = record {
  sound =
      subst (IsMap (pointer w)) (sym taken)
        (IsMap-update (pointer v) (pointer w) v.used k a m free same);
  kept = λ j lt set.
      same j lt ∙ update_ne (pointer v) k j a (λ e. set (subst (λ x. pointer v x ≡ 0) e null));
  fresh = λ j lt null' set. elim (ℕ_discrete k j) [
    | yes e ↦
        subst (λ x. v.used x ≡ false)
          (sym
            (same j lt ∙ subst (λ x. update (pointer v) k a x ≡ a) e (update_self (pointer v) k a)))
          free
    | no ne ↦ absurd (set (same j lt ∙ update_ne (pointer v) k j a ne ∙ null'))
  ];
  still = λ b u.
      ap (λ f. f b) taken
      ∙ update_ne v.used a b true (λ e. true_ne_false (sym u ∙ ap v.used (sym e) ∙ free))
      ∙ u;
  contents = contents;
}
