-- ===== src/Grep/Language.antt =====
-- The language of a pattern, and that the matcher decides it.
use modified_riscv.Base.{
  ℕ, ◌≡◌, ◌≢◌, ◌⊎◌, ◌↔◌, inl, inr, refl, sym, ◌∙◌, ap, subst, Bool, true, false, ◌&&◌, ◌||◌, List,
  [], ◌∷◌, ◌++◌, ◌==◌, if◌then◌else◌, Bool-cases, true_ne_false, ==_iff,
}
use modified_riscv.Grep.{accepts, at_end, match_one, matchstar, matchhere, match_from, match}

-- A character fits '.' or itself.
abbrev pub Fits : ℕ → ℕ → Type 0
Fits c t = (c ≡ 46) ⊎ (c ≡ t)

abbrev pub AllFit : ℕ → List ℕ → Type 0
AllFit c [] = Unit
AllFit c (t ∷ text) = Fits c t × AllFit c text

-- What the pattern matches at the beginning of a text: a character that fits and then the rest; for
-- "c*" any number of such characters; for '$' at the end of the pattern the end of the text.
abbrev pub Single : ℕ → (List ℕ → Type 0) → List ℕ → Type 0
Single c P text = (t : ℕ) × (rest : List ℕ) × (text ≡ t ∷ rest) × Fits c t × P rest

abbrev pub Starred : ℕ → (List ℕ → Type 0) → List ℕ → Type 0
Starred c P text = (xs ys : List ℕ) × (text ≡ xs ++ ys) × AllFit c xs × P ys

unfoldable pub Begins : List ℕ → List ℕ → Type 0
Begins [] text = Unit
Begins (c ∷ []) text = ((c ≡ 36) × (text ≡ [])) ⊎ ((c ≢ 36) × Single c (λ rest. Unit) text)
Begins (c ∷ d ∷ re) text =
    ((d ≡ 42) × Starred c (Begins re) text) ⊎ ((d ≢ 42) × Single c (Begins (d ∷ re)) text)

-- Somewhere in the text, or with '^' at its beginning.
abbrev pub Somewhere : List ℕ → List ℕ → Type 0
Somewhere re text = (xs ys : List ℕ) × (text ≡ xs ++ ys) × Begins re ys

abbrev pub Contains : List ℕ → List ℕ → Type 0
Contains [] text = Somewhere [] text
Contains (c ∷ re) text = ((c ≡ 94) × Begins re text) ⊎ ((c ≢ 94) × Somewhere (c ∷ re) text)

and_iff : (a b : Bool) → ((a && b) ≡ true) ↔ ((a ≡ true) × (b ≡ true))
and_iff true b = (λ e. (refl, e), λ (_, e). e)
and_iff false b = (λ e. absurd (true_ne_false (sym e)), λ (e, _). e)

or_iff : (a b : Bool) → ((a || b) ≡ true) ↔ ((a ≡ true) ⊎ (b ≡ true))
or_iff true b = (λ e. inl refl, λ e. refl)
or_iff false b = (λ e. inr e, λ s. elim s [ inl e ↦ absurd (true_ne_false (sym e)) | inr e ↦ e ])

-- A test and what it decides.
abbrev Decides : Bool → Type 0 → Type 0
Decides b A = (b ≡ true) ↔ A

accepts-Fits : (c t : ℕ) → Decides (accepts c t) (Fits c t)
accepts-Fits c t = (
  λ e. elim ((or_iff _ _).0 e) [
    | inl dot ↦ inl ((==_iff c 46).0 dot)
    | inr same ↦ inr ((==_iff c t).0 same)
  ],
  λ s. elim s [
    | inl dot ↦ (or_iff _ _).1 (inl ((==_iff c 46).1 dot))
    | inr same ↦ (or_iff _ _).1 (inr ((==_iff c t).1 same))
  ],
)

-- The parts of a list that is not empty.
abbrev first : List ℕ → ℕ
first [] = 0
first (t ∷ text) = t

abbrev later : List ℕ → List ℕ
later [] = []
later (t ∷ text) = text

cons_nil : (t : ℕ) (text : List ℕ) → t ∷ text ≢ []
cons_nil t text e = true_ne_false (sym (ap at_end e))

at_end-empty : (text : List ℕ) → Decides (at_end text) (text ≡ [])
at_end-empty [] = (λ e. refl, λ e. refl)
at_end-empty (t ∷ text) = (λ e. absurd (true_ne_false (sym e)), λ e. absurd (cons_nil t text e))

module _ (c : ℕ) (m : List ℕ → Bool) (P : List ℕ → Type 0)
    (h : (text : List ℕ) → Decides (m text) (P text)) where
  match_one-Single : (text : List ℕ) → Decides (match_one c m text) (Single c P text)
  match_one-Single [] =
      (λ e. absurd (true_ne_false (sym e)), λ (t, rest, e, _, _). absurd (cons_nil t rest (sym e)))
  match_one-Single (t ∷ text) = (
    λ e.
        let (fits, rest) = (and_iff (accepts c t) (m text)).0 e in
        (t, text, refl, (accepts-Fits c t).0 fits, (h text).0 rest),
    λ (u, rest, e, fits, p). (and_iff (accepts c t) (m text)).1 (
      (accepts-Fits c t).1 (subst (Fits c) (sym (ap first e)) fits),
      (h text).1 (subst P (sym (ap later e)) p),
    ),
  )

  matchstar-Starred : (text : List ℕ) → Decides (matchstar c m text) (Starred c P text)
  unfolding matchstar
  matchstar-Starred [] =
      (λ e. ([], [], refl, tt, (h []).0 e), λ (xs, ys, e, _, p). by_part xs ys e p)
    where
      by_part : (xs ys : List ℕ) → [] ≡ xs ++ ys → P ys → m [] ≡ true
      by_part [] ys e p = (h []).1 (subst P (sym e) p)
      by_part (x ∷ xs) ys e p = absurd (cons_nil x (xs ++ ys) (sym e))
  matchstar-Starred (t ∷ text) = (
    λ e. elim ((or_iff (m (t ∷ text)) (accepts c t && matchstar c m text)).0 e) [
      | inl here ↦ ([], t ∷ text, refl, tt, (h (t ∷ text)).0 here)
      | inr on ↦
          longer ((and_iff (accepts c t) (matchstar c m text)).0 on)
            ((matchstar-Starred text).0 ((and_iff (accepts c t) (matchstar c m text)).0 on).1)
    ],
    λ (xs, ys, e, fit, p). by_part (matchstar-Starred text).1 xs ys e fit p,
  )
    where
      longer :
          (accepts c t ≡ true) × (matchstar c m text ≡ true)
          → Starred c P text
          → Starred c P (t ∷ text)
      longer (fits, _) (xs, ys, e, fit, p) =
          (t ∷ xs, ys, ap (t ∷◌) e, ((accepts-Fits c t).0 fits, fit), p)

      by_part :
          (Starred c P text → matchstar c m text ≡ true)
          → (xs ys : List ℕ) → t ∷ text ≡ xs ++ ys
          → AllFit c xs
          → P ys
          → (m (t ∷ text) || (accepts c t && matchstar c m text)) ≡ true
      by_part again [] ys e fit p = (or_iff _ _).1 (inl ((h (t ∷ text)).1 (subst P (sym e) p)))
      by_part again (x ∷ xs) ys e (fits, fit) p = (or_iff (m (t ∷ text)) _).1 (
          inr (
            (and_iff (accepts c t) (matchstar c m text)).1 (
              (accepts-Fits c t).1 (subst (Fits c) (sym (ap first e)) fits),
              again (xs, ys, ap later e, fit, p),
            )))

-- The test of one character of the pattern, and the two ways on.
by_char :
    (c d : ℕ) (a b : Bool) (A B : Type 0)
    → Decides a A
    → Decides b B
    → Decides (if c == d then a else b) (((c ≡ d) × A) ⊎ ((c ≢ d) × B))
by_char c d a b A B f g = elim (Bool-cases (c == d)) [
  | inl same ↦ rw same (
    λ e. inl ((==_iff c d).0 same, f.0 e),
    λ s. elim s [ inl (_, x) ↦ f.1 x | inr (ne, _) ↦ absurd (ne ((==_iff c d).0 same)) ],
  )
  | inr other ↦ rw other (
    λ e. inr (λ same. true_ne_false (sym ((==_iff c d).1 same) ∙ other), g.0 e),
    λ s. elim s [
      | inl (same, _) ↦ absurd (true_ne_false (sym ((==_iff c d).1 same) ∙ other))
      | inr (_, y) ↦ g.1 y
    ],
  )
]

matchhere-Begins : (re text : List ℕ) → Decides (matchhere re text) (Begins re text)
unfolding matchhere Begins
matchhere-Begins [] text = (λ e. tt, λ e. refl)
matchhere-Begins (c ∷ []) text =
    by_char c 36 _ _ _ _ (at_end-empty text)
      (match_one-Single c (λ rest. true) (λ rest. Unit) (λ rest. (λ e. tt, λ e. refl)) text)
matchhere-Begins (c ∷ d ∷ re) text =
    by_char d 42 _ _ _ _ (matchstar-Starred c (matchhere re) (Begins re) (matchhere-Begins re) text)
      (match_one-Single c (matchhere (d ∷ re)) (Begins (d ∷ re)) (matchhere-Begins (d ∷ re)) text)

match_from-Somewhere : (re text : List ℕ) → Decides (match_from re text) (Somewhere re text)
unfolding match_from
match_from-Somewhere re [] =
    (λ e. ([], [], refl, (matchhere-Begins re []).0 e), λ (xs, ys, e, p). by_part xs ys e p)
  where
    by_part : (xs ys : List ℕ) → [] ≡ xs ++ ys → Begins re ys → matchhere re [] ≡ true
    by_part [] ys e p = (matchhere-Begins re []).1 (subst (Begins re) (sym e) p)
    by_part (x ∷ xs) ys e p = absurd (cons_nil x (xs ++ ys) (sym e))
match_from-Somewhere re (t ∷ text) = (
  λ e. elim ((or_iff (matchhere re (t ∷ text)) (match_from re text)).0 e) [
    | inl here ↦ ([], t ∷ text, refl, (matchhere-Begins re (t ∷ text)).0 here)
    | inr on ↦ longer ((match_from-Somewhere re text).0 on)
  ],
  λ (xs, ys, e, p). by_part (match_from-Somewhere re text).1 xs ys e p,
)
  where
    longer : Somewhere re text → Somewhere re (t ∷ text)
    longer (xs, ys, e, p) = (t ∷ xs, ys, ap (t ∷◌) e, p)

    by_part :
        (Somewhere re text → match_from re text ≡ true)
        → (xs ys : List ℕ) → t ∷ text ≡ xs ++ ys
        → Begins re ys
        → (matchhere re (t ∷ text) || match_from re text) ≡ true
    by_part again [] ys e p =
        (or_iff _ _).1 (inl ((matchhere-Begins re (t ∷ text)).1 (subst (Begins re) (sym e) p)))
    by_part again (x ∷ xs) ys e p =
        (or_iff (matchhere re (t ∷ text)) _).1 (inr (again (xs, ys, ap later e, p)))

-- `match` finds a pattern exactly where its language has a part of the text that starts anywhere, or
-- at the text's beginning for a pattern with '^' in front.
pub match-Contains : (re text : List ℕ) → (match re text ≡ true) ↔ Contains re text
unfolding match
match-Contains [] text = match_from-Somewhere [] text
match-Contains (c ∷ re) text =
    by_char c 94 _ _ _ _ (matchhere-Begins re text) (match_from-Somewhere (c ∷ re) text)
