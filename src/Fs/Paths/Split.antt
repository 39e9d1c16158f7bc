-- ===== src/Fs/Paths/Split.antt =====
-- `skipelem` peels off the elements of a path.
use modified_riscv.Base.{
  ℕ, ◌+◌, ◌≤◌, ◌<◌, ◌≡◌, inl, inr, refl, sym, ◌∙◌, ap, true, false, Option, none, some, List, [],
  ◌∷◌, if◌then◌else◌, take, length, arith, Bool-cases,
}
use modified_riscv.Fs.Paths.{dirsiz, is_slash, skip_slashes, cut_elem, is_end, skipelem}

abbrev pub put_first : ℕ → List (List ℕ) → List (List ℕ)
put_first c [] = (c ∷ []) ∷ []
put_first c (e ∷ es) = (c ∷ e) ∷ es

-- A path split at every slash.
unfoldable pub split : List ℕ → List (List ℕ)
split [] = [] ∷ []
split (c ∷ path) = if is_slash c then [] ∷ split path else put_first c (split path)

abbrev pub non_empty : List (List ℕ) → List (List ℕ)
non_empty [] = []
non_empty (e ∷ es) = if is_end e then non_empty es else e ∷ non_empty es

-- The names between the slashes.
abbrev pub elements : List ℕ → List (List ℕ)
elements path = non_empty (split path)

elements-skip_slashes : (path : List ℕ) → elements (skip_slashes path) ≡ elements path
unfolding skip_slashes split
elements-skip_slashes [] = refl
elements-skip_slashes (c ∷ path) = elim (Bool-cases (is_slash c)) [
  | inl slash ↦ rw slash (elements-skip_slashes path)
  | inr other ↦ ap elements (skip_none c path other)
]
  where
    skip_none : (d : ℕ) (p : List ℕ) → is_slash d ≡ false → skip_slashes (d ∷ p) ≡ d ∷ p
    skip_none d p other = rw other refl

-- A path that starts with no slash.
abbrev pub StartsPlain : List ℕ → Type 0
StartsPlain [] = Unit
StartsPlain (c ∷ path) = is_slash c ≡ false

pub skip_slashes-StartsPlain : (path : List ℕ) → StartsPlain (skip_slashes path)
unfolding skip_slashes
skip_slashes-StartsPlain [] = tt
skip_slashes-StartsPlain (c ∷ path) = elim (Bool-cases (is_slash c)) [
  | inl slash ↦ rw slash (skip_slashes-StartsPlain path)
  | inr other ↦ rw other other
]

-- What follows the first cell.
abbrev later_cells : List ℕ → List (List ℕ)
later_cells [] = []
later_cells (c ∷ path) = split path

split-cut_elem : (path : List ℕ) → split path ≡ (cut_elem path).0 ∷ later_cells (cut_elem path).1
unfolding split cut_elem
split-cut_elem [] = refl
split-cut_elem (c ∷ path) = elim (Bool-cases (is_slash c)) [
  | inl slash ↦ rw slash refl
  | inr other ↦ rw other (ap (put_first c) (split-cut_elem path))
]

-- The rest starts with a slash, if it is not empty.
cut_elem-rest :
    (path : List ℕ) → non_empty (later_cells (cut_elem path).1) ≡ elements (cut_elem path).1
unfolding split cut_elem
cut_elem-rest [] = refl
cut_elem-rest (c ∷ path) = elim (Bool-cases (is_slash c)) [
  | inl slash ↦ rw slash (at_slash c path slash)
  | inr other ↦ rw other (cut_elem-rest path)
]
  where
    at_slash : (d : ℕ) (p : List ℕ) → is_slash d ≡ true → non_empty (split p) ≡ elements (d ∷ p)
    at_slash d p slash = rw slash refl

cut_elem-StartsPlain :
    (c : ℕ) (path : List ℕ) → is_slash c ≡ false → is_end (cut_elem (c ∷ path)).0 ≡ false
unfolding cut_elem
cut_elem-StartsPlain c path other = rw other refl

-- The elements of a path that starts with no slash.
elements-StartsPlain :
    (c : ℕ) (path : List ℕ)
    → is_slash c ≡ false
    → elements (c ∷ path) ≡ (cut_elem (c ∷ path)).0 ∷ elements (cut_elem (c ∷ path)).1
elements-StartsPlain c path other =
    ap non_empty (split-cut_elem (c ∷ path))
    ∙ rw (cut_elem-StartsPlain c path other)
        (ap (λ es. (cut_elem (c ∷ path)).0 ∷ es) (cut_elem-rest (c ∷ path)))

-- `skipelem` by the elements of the path.
abbrev pub Peels : List (List ℕ) → ℕ → Option (List ℕ × List ℕ) → Type 0
Peels es n none = es ≡ []
Peels es n (some (name, rest)) =
    (e : List ℕ) × (es ≡ e ∷ elements rest)
    × (name ≡ take dirsiz e)
    × StartsPlain rest
    × (length rest < n)

length-skip_slashes : (path : List ℕ) → length (skip_slashes path) ≤ length path
unfolding skip_slashes
length-skip_slashes [] = omega arith
length-skip_slashes (c ∷ path) = elim (Bool-cases (is_slash c)) [
  | inl slash ↦ rw slash (omega (arith, length-skip_slashes path))
  | inr other ↦ rw other (omega arith)
]

length-cut_elem :
    (path : List ℕ) → length (cut_elem path).0 + length (cut_elem path).1 ≡ length path
unfolding cut_elem
length-cut_elem [] = refl
length-cut_elem (c ∷ path) = elim (Bool-cases (is_slash c)) [
  | inl slash ↦ rw slash (omega arith)
  | inr other ↦ rw other (omega (arith, length-cut_elem path))
]

-- A path that starts with no slash is empty where it has no elements.
pub elements-is_end : (path : List ℕ) → StartsPlain path → is_end path ≡ is_end (elements path)
unfolding split
elements-is_end [] plain = refl
elements-is_end (c ∷ path) plain = ap is_end (sym (elements-StartsPlain c path plain))

length-is_end : (es : List ℕ) → is_end es ≡ false → 0 < length es
length-is_end [] empty = cc
length-is_end (e ∷ es) full = omega arith

-- `skipelem` gives null exactly for a path without elements, and else the first element, cut to 14
-- characters, and a shorter path that has the other elements and no slash in front.
pub skipelem-Peels : (path : List ℕ) → Peels (elements path) (length path) (skipelem path)
unfolding skipelem split
skipelem-Peels path =
    by_start (skip_slashes path) (skip_slashes-StartsPlain path) (elements-skip_slashes path)
      (length-skip_slashes path)
  where
    by_start :
        (p : List ℕ)
        → StartsPlain p
        → elements p ≡ elements path
        → length p ≤ length path
        → Peels (elements path) (length path) (
            if is_end p
            then none
            else some (take dirsiz (cut_elem p).0, skip_slashes (cut_elem p).1))
    by_start [] plain same shorter = sym same ∙ refl
    by_start (c ∷ p) plain same shorter = (
      (cut_elem (c ∷ p)).0,
      sym same
          ∙ elements-StartsPlain c p plain
          ∙ ap ((cut_elem (c ∷ p)).0 ∷◌) (sym (elements-skip_slashes (cut_elem (c ∷ p)).1)),
      refl,
      skip_slashes-StartsPlain (cut_elem (c ∷ p)).1,
      omega (
        arith,
        length-cut_elem (c ∷ p),
        length-skip_slashes (cut_elem (c ∷ p)).1,
        length-is_end (cut_elem (c ∷ p)).0 (cut_elem-StartsPlain c p plain),
        shorter,
      ),
    )
