-- ===== src/Files/Calls.antt =====
-- The calls of kernel/file.c, and `fdalloc`, on the counts.
use modified_riscv.Base.{
  ℕ, zero, suc, ◌+◌, ◌-◌, ◌*◌, ◌<◌, ◌≡◌, ◌≢◌, refl, sym, ◌∙◌, ap, subst, Bool, true, false, Option,
  none, some, List, [], ◌∷◌, ltb, ◌==◌, if◌then◌else◌, update_self, update_ne, arith, Returns,
  bind-Returns,
}
use modified_riscv.Files.{
  nfile, nofile, Files, place, first_from, set_file, set_place, filealloc, filedup, nothing,
  release_of, fileclose, is_unused, fdalloc, close_both, fd_none,
}
use modified_riscv.Files.Counts.{
  IsCounted, raise-IsCounted, lower-IsCounted, place-IsCounted, used-ref,
}

-- What a search finds passes the test.
abbrev pub Finds : (ℕ → Bool) → ℕ → Option ℕ → Type 0
Finds test n none = Unit
Finds test n (some j) = (test j ≡ true) × (j < n)

pub first_from-Finds : (test : ℕ → Bool) (i n : ℕ) → Finds test (i + n) (first_from test i n)
first_from-Finds test i zero = tt
first_from-Finds test i (suc n) = by_test (test i) refl (
    subst (λ m. Finds test m (first_from test (i + 1) n)) (omega arith)
      (first_from-Finds test (i + 1) n))
  where
    by_test :
        (b : Bool)
        → test i ≡ b
        → Finds test (i + suc n) (first_from test (i + 1) n)
        → Finds test (i + suc n) (if b then some i else first_from test (i + 1) n)
    by_test true e later = (e, omega arith)
    by_test false e later = later

-- A new file with one reference in the hand of the call, or none.
abbrev pub GotFile : ℕ → List ℕ → List ℕ → Option ℕ × Files → Type 0
GotFile n owed used (none, s') = IsCounted n owed used s'
GotFile n owed used (some f, s') = IsCounted n owed (f ∷ used) s'

pub filealloc-GotFile :
    (n : ℕ) (owed used : List ℕ) (s : Files)
    → IsCounted n owed used s
    → GotFile n owed used (filealloc s)
unfolding filealloc
filealloc-GotFile n owed used s h =
    by_found (first_from (λ i. (s.file i).ref == 0) 0 nfile)
      (first_from-Finds (λ i. (s.file i).ref == 0) 0 nfile)
  where
    by_found :
        (r : Option ℕ)
        → Finds (λ i. (s.file i).ref == 0) (0 + nfile) r
        → GotFile n owed used (elim r [
          | none ↦ (none, s)
          | some f ↦ (some f, set_file f (record (s.file f) { ref = 1 }) s)
        ])
    by_found none found = h
    by_found (some f) (free, lt) =
        raise-IsCounted n f (record (s.file f) { ref = 1 }) owed used s (is_one (s.file f).ref free)
          h
      where
        is_one : (m : ℕ) → (m == 0) ≡ true → 1 ≡ m + 1
        is_one m e = ground arith

pub filedup-Returns :
    (n f : ℕ) (owed used : List ℕ) (s : Files)
    → 0 < (s.file f).ref
    → IsCounted n owed used s
    → Returns
        (filedup f s)
        (λ s'. IsCounted n owed (f ∷ used) s' × ((i : ℕ) → s'.ofile i ≡ s.ofile i))
unfolding filedup
filedup-Returns n f owed used s lt h = rw (some_refs (s.file f).ref lt) (
  raise-IsCounted n f (record (s.file f) { ref = (s.file f).ref + 1 }) owed used s refl h,
  λ i. refl,
)
  where
    some_refs : (m : ℕ) → 0 < m → ltb m 1 ≡ false
    some_refs m lt = ground arith

pub fileclose-Returns :
    (n f : ℕ) (owed used : List ℕ) (s : Files)
    → 0 < (s.file f).ref
    → IsCounted n owed (f ∷ used) s
    → Returns
        (fileclose f s)
        (λ (release, s'). IsCounted n owed used s' × ((i : ℕ) → s'.ofile i ≡ s.ofile i))
unfolding fileclose
fileclose-Returns n f owed used s lt h =
    rw (some_refs (s.file f).ref lt) (by_last (ltb 0 ((s.file f).ref - 1)) refl)
  where
    some_refs : (m : ℕ) → 0 < m → ltb m 1 ≡ false
    some_refs m lt = ground arith

    was_last : (m : ℕ) → 0 < m → ltb 0 (m - 1) ≡ false → 0 + 1 ≡ m
    was_last m lt e = ground arith

    by_last :
        (more : Bool)
        → ltb 0 ((s.file f).ref - 1) ≡ more
        → Returns
            (if more
              then some (nothing, set_file f (record (s.file f) { ref = (s.file f).ref - 1 }) s)
              else some (
                release_of (s.file f),
                set_file f (record (s.file f) { ref = 0; kind = fd_none }) s,
              ))
            (λ (release, s'). IsCounted n owed used s' × ((i : ℕ) → s'.ofile i ≡ s.ofile i))
    by_last true e = (
      lower-IsCounted n f (record (s.file f) { ref = (s.file f).ref - 1 }) owed used s
          (omega (arith, lt)) h,
      λ i. refl,
    )
    by_last false e = (
      lower-IsCounted n f (record (s.file f) { ref = 0; kind = fd_none }) owed used s
          (was_last (s.file f).ref lt e) h,
      λ i. refl,
    )

pub close_both-Returns :
    (n a b : ℕ) (s : Files)
    → IsCounted n [] (a ∷ b ∷ []) s
    → Returns (close_both a b s) (IsCounted n [] [])
unfolding close_both
close_both-Returns n a b s h =
    bind-Returns (fileclose a s) _ _ _
      (fileclose-Returns n a [] (b ∷ []) s (used-ref n a (b ∷ []) s h) h)
      (λ (release, s1) (h1, same).
        bind-Returns (fileclose b s1) _ _ _
          (fileclose-Returns n b [] [] s1 (used-ref n b [] s1 h1) h1)
          (λ (release2, s2) (h2, same2). h2))

-- The descriptor of a file whose reference is not counted yet, or none.
abbrev pub GotFd : ℕ → ℕ → ℕ → List ℕ → List ℕ → Files → Option ℕ × Files → Type 0
GotFd n me f owed used s (none, s') =
    IsCounted n owed used s' × ((i v : ℕ) → s.ofile i ≡ some v → s'.ofile i ≡ some v)
GotFd n me f owed used s (some d, s') =
    IsCounted n (f ∷ owed) used s'
    × ((i v : ℕ) → s.ofile i ≡ some v → s'.ofile i ≡ some v)
    × (s'.ofile (place me d) ≡ some f)
    × (d < nofile)
    × ((s'.file f).ref ≡ (s.file f).ref)
    × (s.ofile (place me d) ≡ none)

pub fdalloc-GotFd :
    (nproc me f : ℕ) (owed used : List ℕ) (s : Files)
    → me < nproc
    → IsCounted (nproc * nofile) owed used s
    → GotFd (nproc * nofile) me f owed used s (fdalloc me f s)
unfolding fdalloc
fdalloc-GotFd nproc me f owed used s lt h =
    by_found (first_from (λ fd. is_unused (s.ofile (place me fd))) 0 nofile)
      (first_from-Finds (λ fd. is_unused (s.ofile (place me fd))) 0 nofile)
  where
    no_file : (v : Option ℕ) → is_unused v ≡ true → v ≡ none
    no_file none e = refl
    no_file (some g) e = absurd (false_true e)
      where
        false_true : false ≡ true → ⊥
        false_true e = cc

    by_found :
        (r : Option ℕ)
        → Finds (λ fd. is_unused (s.ofile (place me fd))) (0 + nofile) r
        → GotFd
            (nproc * nofile)
            me
            f
            owed
            used
            s
            (elim r [ none ↦ (none, s) | some fd ↦ (some fd, set_place (place me fd) (some f) s) ])
    by_found none found = (h, λ i v e. e)
    by_found (some d) (free, small) = (
      place-IsCounted (nproc * nofile) (place me d) f owed used s (omega arith)
          (no_file (s.ofile (place me d)) free) h,
      λ i v e. update_ne s.ofile (place me d) i (some f) (other i v e) ∙ e,
      update_self s.ofile (place me d) (some f),
      small,
      refl,
      no_file (s.ofile (place me d)) free,
    )
      where
        other : (i v : ℕ) → s.ofile i ≡ some v → place me d ≢ i
        other i v e same =
            none_some (sym (no_file (s.ofile (place me d)) free) ∙ ap s.ofile same ∙ e)
          where
            none_some : none ≡ some v → ⊥
            none_some e = cc
