-- ===== src/Fs/Paths.antt =====
-- kernel/fs.c: `skipelem` and `namex`. A path is the list of its characters before the null byte, a
-- name those that the buffer of DIRSIZ characters holds, and an inode its number. What `dirlookup`
-- and the inodes' types give is a parameter, with the locks and reference counts left out.
pub mod Split
pub mod Resolve
use modified_riscv.Base.{
  ℕ, zero, suc, Bool, true, false, ◌&&◌, not, Option, none, some, List, [], ◌∷◌, ◌==◌,
  if◌then◌else◌, take,
}

abbrev pub dirsiz : ℕ
dirsiz = 14

abbrev pub is_slash : ℕ → Bool
is_slash c = c == 47

-- while(*path == '/') path++;
unfoldable pub skip_slashes : List ℕ → List ℕ
skip_slashes [] = []
skip_slashes (c ∷ path) = if is_slash c then skip_slashes path else c ∷ path

-- while(*path != '/' && *path != 0) path++; with what lies between `s` and `path`
unfoldable pub cut_elem : List ℕ → List ℕ × List ℕ
cut_elem [] = ([], [])
cut_elem (c ∷ path) =
    let (elem, rest) = cut_elem path in if is_slash c then ([], c ∷ path) else (c ∷ elem, rest)

abbrev pub is_end {ℓ} : {A : Type ℓ} → List A → Bool
is_end [] = true
is_end (c ∷ path) = false

-- The name and the rest of the path, or null where there is no name.
unfoldable pub skipelem : List ℕ → Option (List ℕ × List ℕ)
unfolding skip_slashes cut_elem
skipelem path =
    let (elem, rest) = cut_elem (skip_slashes path) in
    if is_end (skip_slashes path) then none else some (take dirsiz elem, skip_slashes rest)

abbrev pub starts_at_root : List ℕ → Bool
starts_at_root [] = false
starts_at_root (c ∷ path) = is_slash c

module _ (is_dir : ℕ → Bool) (dirlookup : ℕ → List ℕ → Option ℕ) where
  -- The loop of `namex`, on fuel: a round takes a character of the path at least. The result is the
  -- inode, or null, and the buffer `name`.
  unfoldable pub walk_path : ℕ → Bool → ℕ → List ℕ → List ℕ → Option (ℕ × List ℕ)
  unfolding skipelem
  walk_path zero nameiparent ip name path = none
  walk_path (suc fuel) nameiparent ip name path = elim (skipelem path) [
    | none ↦ if nameiparent then none else some (ip, name)
    | some (elem, rest) ↦
        if not (is_dir ip)
        then none
        else if nameiparent && is_end rest
        then some (ip, elem)
        else elim (dirlookup ip elem) [
          | none ↦ none
          | some next ↦ walk_path fuel nameiparent next elem rest
        ]
  ]

  -- From the root's inode or the caller's directory.
  unfoldable pub namex : ℕ → ℕ → Bool → List ℕ → List ℕ → ℕ → Option (ℕ × List ℕ)
  unfolding walk_path
  namex root cwd nameiparent name path fuel =
      walk_path fuel nameiparent (if starts_at_root path then root else cwd) name path
