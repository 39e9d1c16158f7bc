-- ===== src/Files/Counts.antt =====
-- The reference count of each file is the number of descriptors that hold it.
use modified_riscv.Base.{
  ℕ, zero, suc, ◌+◌, ◌≤◌, ◌<◌, ◌≡◌, ◌≢◌, refl, sym, ◌∙◌, ap, ap₂, subst, Bool, true, false, Option,
  none, some, List, [], ◌∷◌, ◌==◌, if◌then◌else◌, update, update_self, update_ne, arith, ℕ_discrete,
}
use modified_riscv.Files.{File, Files, set_file, set_place}

-- `a` at the index `g`, and 0 elsewhere.
abbrev pub pick : ℕ → ℕ → ℕ → ℕ
pick a g f = if g == f then a else 0

abbrev pub one : ℕ → ℕ → ℕ
one = pick 1

-- How often the file is in a list.
abbrev pub occurrences : ℕ → List ℕ → ℕ
occurrences f [] = 0
occurrences f (g ∷ gs) = one g f + occurrences f gs

abbrev pub names : ℕ → Option ℕ → ℕ
names f none = 0
names f (some g) = one g f

-- How many of the first `n` places hold the file.
abbrev pub held : ℕ → ℕ → (ℕ → Option ℕ) → ℕ
held f zero ofile = 0
held f (suc n) ofile = names f (ofile n) + held f n ofile

held-above :
    (f n i : ℕ) (v : Option ℕ) (ofile : ℕ → Option ℕ)
    → n ≤ i
    → held f n (update ofile i v) ≡ held f n ofile
held-above f zero i v ofile le = refl
held-above f (suc n) i v ofile le =
    ap₂ (λ x y. names f x + y) (update_ne ofile i n v (omega arith))
      (held-above f n i v ofile (omega arith))

held-update :
    (f n i : ℕ) (v : Option ℕ) (ofile : ℕ → Option ℕ)
    → i < n
    → held f n (update ofile i v) + names f (ofile i) ≡ held f n ofile + names f v
held-update f zero i v ofile lt = absurd (omega arith)
held-update f (suc n) i v ofile lt = elim (ℕ_discrete i n) [
  | yes same ↦
      rw
        (
          ap (update ofile i v) (sym same) ∙ update_self ofile i v,
          held-above f n i v ofile (omega (arith, same)),
          sym same,
        )
        (omega arith)
  | no ne ↦ rw (update_ne ofile i n v ne) (omega (arith, held-update f n i v ofile (omega arith)))
]

-- The references counted and those owed are the places that hold the file and the pointers of the
-- running call that count.
abbrev pub IsCounted : ℕ → List ℕ → List ℕ → Files → Type 0
IsCounted n owed used s =
    (f : ℕ) → (s.file f).ref + occurrences f owed ≡ held f n s.ofile + occurrences f used

equal_test : (g : ℕ) → (g == g) ≡ true
equal_test g = ground arith

unequal_test : (g f : ℕ) → g ≢ f → (g == f) ≡ false
unequal_test g f ne = ground arith

-- A change of one count by `b` more and `a` less.
ref-update :
    (g f a b : ℕ) (new : File) (file : ℕ → File)
    → new.ref + a ≡ (file g).ref + b
    → (update file g new f).ref + pick a g f ≡ (file f).ref + pick b g f
ref-update g f a b new file e = elim (ℕ_discrete g f) [
  | yes same ↦
      subst (λ f. (update file g new f).ref + pick a g f ≡ (file f).ref + pick b g f) same
        (rw (equal_test g) e)
  | no ne ↦ rw (unequal_test g f ne) refl
]

pick-zero : (g f : ℕ) → pick 0 g f ≡ 0
pick-zero g f = by_test (g == f)
  where
    by_test : (b : Bool) → (if b then 0 else zero) ≡ 0
    by_test true = refl
    by_test false = refl

-- A reference more to a file, in the hand of the call.
pub raise-IsCounted :
    (n g : ℕ) (new : File) (owed used : List ℕ) (s : Files)
    → new.ref ≡ (s.file g).ref + 1
    → IsCounted n owed used s
    → IsCounted n owed (g ∷ used) (set_file g new s)
raise-IsCounted n g new owed used s e h f =
    omega (arith, h f, pick-zero g f, ref-update g f 0 1 new s.file (omega (arith, e)))

-- And one less.
pub lower-IsCounted :
    (n g : ℕ) (new : File) (owed used : List ℕ) (s : Files)
    → new.ref + 1 ≡ (s.file g).ref
    → IsCounted n owed (g ∷ used) s
    → IsCounted n owed used (set_file g new s)
lower-IsCounted n g new owed used s e h f =
    omega (arith, h f, pick-zero g f, ref-update g f 1 0 new s.file (omega (arith, e)))

-- A change of the other fields.
pub set_file-IsCounted :
    (n g : ℕ) (new : File) (owed used : List ℕ) (s : Files)
    → new.ref ≡ (s.file g).ref
    → IsCounted n owed used s
    → IsCounted n owed used (set_file g new s)
set_file-IsCounted n g new owed used s e h f =
    omega (arith, h f, pick-zero g f, ref-update g f 0 0 new s.file (omega (arith, e)))

-- A file in an empty place, before its reference is counted.
pub place-IsCounted :
    (n i g : ℕ) (owed used : List ℕ) (s : Files)
    → i < n
    → s.ofile i ≡ none
    → IsCounted n owed used s
    → IsCounted n (g ∷ owed) used (set_place i (some g) s)
place-IsCounted n i g owed used s lt e h f =
    omega (arith, h f, held-update f n i (some g) s.ofile lt, ap (names f) e)

-- A place that is cleared leaves its reference in the hand of the call.
pub clear-IsCounted :
    (n i g : ℕ) (owed used : List ℕ) (s : Files)
    → i < n
    → s.ofile i ≡ some g
    → IsCounted n owed used s
    → IsCounted n owed (g ∷ used) (set_place i none s)
clear-IsCounted n i g owed used s lt e h f =
    omega (arith, h f, held-update f n i none s.ofile lt, ap (names f) e)

-- A reference in the hand pays for one that is owed.
pub settle-IsCounted :
    (n g : ℕ) (owed used : List ℕ) (s : Files)
    → IsCounted n (g ∷ owed) (g ∷ used) s
    → IsCounted n owed used s
settle-IsCounted n g owed used s h f = omega (arith, h f)

-- A file in the hand, or in a place, has a reference.
pub used-ref :
    (n g : ℕ) (used : List ℕ) (s : Files) → IsCounted n [] (g ∷ used) s → 0 < (s.file g).ref
used-ref n g used s h = omega (arith, h g, self)
  where
    self : one g g ≡ 1
    self = rw (equal_test g) refl

pub held-ref :
    (n i g : ℕ) (used : List ℕ) (s : Files)
    → i < n
    → s.ofile i ≡ some g
    → IsCounted n [] used s
    → 0 < (s.file g).ref
held-ref n i g used s lt e h =
    used-ref n g used (set_place i none s) (clear-IsCounted n i g [] used s lt e h)
