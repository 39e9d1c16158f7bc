-- ===== src/Fs/Paths/Resolve.antt =====
-- `namex` against the walk over the list of a path's elements.
use modified_riscv.Base.{
  ℕ, zero, suc, ◌<◌, ◌≡◌, inl, inr, refl, ap, Bool, ◌&&◌, not, Option, none, some, List, [], ◌∷◌,
  if◌then◌else◌, take, length, arith, Option-cases,
}
use modified_riscv.Fs.Paths.{dirsiz, is_end, skipelem, walk_path, starts_at_root, namex}
use modified_riscv.Fs.Paths.Split.{elements, Peels, skipelem-Peels, elements-is_end}

module _ (is_dir : ℕ → Bool) (dirlookup : ℕ → List ℕ → Option ℕ) where
  -- From directory to directory, one element after the other. With `nameiparent` the walk stops in
  -- front of the last one, whose name it gives too.
  unfoldable pub resolve : Bool → ℕ → List ℕ → List (List ℕ) → Option (ℕ × List ℕ)
  resolve nameiparent ip name [] = if nameiparent then none else some (ip, name)
  resolve nameiparent ip name (e ∷ es) =
      if not (is_dir ip)
      then none
      else if nameiparent && is_end es
      then some (ip, take dirsiz e)
      else elim (dirlookup ip (take dirsiz e)) [
        | none ↦ none
        | some next ↦ resolve nameiparent next (take dirsiz e) es
      ]

  walk_path-resolve :
      (fuel : ℕ) (nameiparent : Bool) (ip : ℕ) (name path : List ℕ)
      → length path < fuel
      → walk_path is_dir dirlookup fuel nameiparent ip name path
        ≡ resolve nameiparent ip name (elements path)
  unfolding walk_path resolve
  walk_path-resolve zero nameiparent ip name path enough = absurd (omega (arith, enough))
  walk_path-resolve (suc fuel) nameiparent ip name path enough =
      by_elem (skipelem path) (skipelem-Peels path)
        (λ next e rest fewer. walk_path-resolve fuel nameiparent next e rest fewer)
    where
      by_elem :
          (o : Option (List ℕ × List ℕ))
          → Peels (elements path) (length path) o
          → ((next : ℕ) (e rest : List ℕ)
              → length rest < fuel
              → walk_path is_dir dirlookup fuel nameiparent next e rest
                ≡ resolve nameiparent next e (elements rest))
          → elim o [
            | none ↦ if nameiparent then none else some (ip, name)
            | some (elem, rest) ↦
                if not (is_dir ip)
                then none
                else if nameiparent && is_end rest
                then some (ip, elem)
                else elim (dirlookup ip elem) [
                  | none ↦ none
                  | some next ↦ walk_path is_dir dirlookup fuel nameiparent next elem rest
                ]
          ]
            ≡ resolve nameiparent ip name (elements path)
      by_elem none finished again = rw finished refl
      by_elem (some (elem, rest)) (e, same, cut, plain, shorter) again =
          rw (same, ← cut, elements-is_end rest plain)
            (elim (Option-cases (dirlookup ip elem)) [
              | inl missing ↦ rw missing refl
              | inr (next, found) ↦
                  rw (found, again next elem rest (omega (arith, enough, shorter)))
                    (ap
                      (λ x.
                        if not (is_dir ip)
                        then none
                        else if nameiparent && is_end (elements rest)
                        then some (ip, elem)
                        else resolve nameiparent next x (elements rest))
                      cut)
            ])

  -- `namex` walks over the elements of the path: with `nameiparent` up to the last one, whose name
  -- it gives too. An element is looked up by its first 14 characters, in directories only, from the
  -- root if the path starts with a slash. Enough fuel is one more than the path's length.
  pub namex-resolve :
      (root cwd : ℕ) (nameiparent : Bool) (name path : List ℕ) (fuel : ℕ)
      → length path < fuel
      → namex is_dir dirlookup root cwd nameiparent name path fuel
        ≡ resolve nameiparent (if starts_at_root path then root else cwd) name (elements path)
  unfolding namex
  namex-resolve root cwd nameiparent name path fuel enough =
      walk_path-resolve fuel nameiparent (if starts_at_root path then root else cwd) name path
        enough
