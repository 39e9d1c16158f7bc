-- ===== src/Files/Safe.antt =====
-- The system calls on the table of open files: none of them panics, and the counts stay right.
use modified_riscv.Base.{
  ℕ, ◌*◌, ◌<◌, ◌≡◌, refl, sym, subst, Bool, true, false, Option, none, some, [], ◌∷◌, ltb,
  if◌then◌else◌, arith, ◌>>=◌, Returns, Returns-map, bind-Returns,
}
use modified_riscv.Files.{
  nofile, Files, place, set_place, filedup, fileclose, fdalloc, argfd, sys_dup, sys_close,
  open_file, sys_pipe, fork_files, exit_files,
}
use modified_riscv.Files.Counts.{IsCounted, clear-IsCounted, settle-IsCounted, used-ref, held-ref}
use modified_riscv.Files.Calls.{filedup-Returns, fileclose-Returns, GotFd, fdalloc-GotFd}
use modified_riscv.Files.Opens.{open_file-Returns}
use modified_riscv.Files.Pipes.{sys_pipe-Returns}
use modified_riscv.Files.Loops.{fork_files-Returns, Closed, exit_files-Closed}

-- The calls of a process, with what is decided outside the table of files.
pub data Call : Type 0 where
  dups : ℕ → ℕ → Call
  closes : ℕ → ℕ → Call
  opens : ℕ → Option ℕ → ℕ → Bool → Bool → Call
  pipes : ℕ → ℕ → Bool → Call
  forks : ℕ → ℕ → Call
  exits : ℕ → Call

-- What the call makes of the files; `none` is a panic.
unfoldable pub run_call : Call → Files → Option Files
unfolding sys_dup sys_close open_file sys_pipe fork_files exit_files
run_call (dups me fd) s = sys_dup me fd s >>= λ (r, after). some after
run_call (closes me fd) s = sys_close me fd s >>= λ (r, after). some after
run_call (opens me device ip readable writable) s =
    open_file me device ip readable writable s >>= λ (r, after). some after
run_call (pipes me pi copies) s = sys_pipe me pi copies s >>= λ (r, after). some after
run_call (forks me child) s = fork_files me child 0 nofile s
run_call (exits me) s = exit_files me 0 nofile s

module _ (nproc : ℕ) where
  abbrev places : ℕ
  places = nproc * nofile

  abbrev pub Counted : Files → Type 0
  Counted = IsCounted places [] []

  argfd-place :
      (me fd f : ℕ) (s : Files)
      → argfd me fd s ≡ some f
      → (fd < nofile) × (s.ofile (place me fd) ≡ some f)
  argfd-place me fd f s e = by_test (ltb fd nofile) refl e
    where
      below : ltb fd nofile ≡ true → fd < nofile
      below e = ground arith

      by_test :
          (b : Bool)
          → ltb fd nofile ≡ b
          → (if b then s.ofile (place me fd) else none) ≡ some f
          → (fd < nofile) × (s.ofile (place me fd) ≡ some f)
      by_test true t e = (below t, e)
      by_test false t e = absurd (none_some e)
        where
          none_some : none ≡ some f → ⊥
          none_some e = cc

  sys_dup-Returns :
      (me fd : ℕ) (s : Files)
      → me < nproc
      → Counted s
      → Returns (sys_dup me fd s) (λ (r, after). Counted after)
  unfolding sys_dup
  sys_dup-Returns me fd s lt h = by_fd (argfd me fd s) refl
    where
      by_new :
          (f : ℕ)
          → 0 < (s.file f).ref
          → (r : Option ℕ × Files) → GotFd places me f [] [] s r
          → Returns
              (elim r.0 [
                | none ↦ some (none, r.1)
                | some d ↦ filedup f r.1 >>= λ s2. some (some d, s2)
              ])
              (λ (r, after). Counted after)
      by_new f some_ref (none, s1) (h1, kept) = h1
      by_new f some_ref (some d, s1) (h1, kept, at_d, small, same, was_empty) =
          bind-Returns (filedup f s1) _ _ _
            (filedup-Returns places f (f ∷ []) [] s1 (subst (λ m. 0 < m) (sym same) some_ref) h1)
            (λ s2 (h2, same2). settle-IsCounted places f [] [] s2 h2)

      by_fd :
          (v : Option ℕ)
          → argfd me fd s ≡ v
          → Returns
              (elim v [
                | none ↦ some (none, s)
                | some f ↦
                    let (new, s1) = fdalloc me f s in
                    elim new [
                      | none ↦ some (none, s1)
                      | some d ↦ filedup f s1 >>= λ s2. some (some d, s2)
                    ]
              ])
              (λ (r, after). Counted after)
      by_fd none e = h
      by_fd (some f) e =
          let (small, at_fd) = argfd-place me fd f s e in
          by_new f (held-ref places (place me fd) f [] s (omega arith) at_fd h) (fdalloc me f s)
            (fdalloc-GotFd nproc me f [] [] s lt h)

  sys_close-Returns :
      (me fd : ℕ) (s : Files)
      → me < nproc
      → Counted s
      → Returns (sys_close me fd s) (λ (r, after). Counted after)
  unfolding sys_close
  sys_close-Returns me fd s lt h = by_fd (argfd me fd s) refl
    where
      by_fd :
          (v : Option ℕ)
          → argfd me fd s ≡ v
          → Returns
              (elim v [
                | none ↦ some (false, s)
                | some f ↦ fileclose f (set_place (place me fd) none s) >>= λ (release, s1).
                    some (true, s1)
              ])
              (λ (r, after). Counted after)
      by_fd none e = h
      by_fd (some f) e =
          let (small, at_fd) = argfd-place me fd f s e in
          let s0 = set_place (place me fd) none s in
          let h0 = clear-IsCounted places (place me fd) f [] [] s (omega arith) at_fd h in
          bind-Returns (fileclose f s0) _ _ _
            (fileclose-Returns places f [] [] s0 (used-ref places f [] s0 h0) h0)
            (λ (release, s1) (h1, same). h1)

  -- The processes of the call are entries of the table; a child has no open files yet.
  abbrev pub IsPossible : Call → Files → Type 0
  IsPossible (dups me fd) s = me < nproc
  IsPossible (closes me fd) s = me < nproc
  IsPossible (opens me device ip readable writable) s = me < nproc
  IsPossible (pipes me pi copies) s = me < nproc
  IsPossible (forks me child) s =
      (me < nproc) × (child < nproc) × ((j : ℕ) → j < nofile → s.ofile (place child j) ≡ none)
  IsPossible (exits me) s = me < nproc

  -- After `exit` a process has no open files.
  abbrev pub HasLeft : Call → Files → Type 0
  HasLeft (exits me) after = (j : ℕ) → j < nofile → after.ofile (place me j) ≡ none
  HasLeft call after = Unit

  -- After a call the counts are right again, and an exited process has no open files.
  abbrev pub Serves : Call → Files → Type 0
  Serves call after = Counted after × HasLeft call after

  -- If the reference count of every file is the number of descriptors of all processes that hold
  -- it, then `sys_dup`, `sys_close`, `sys_open` from `filealloc` on, `sys_pipe`, and the loops of
  -- `fork`, for a child without open files, and of `exit` over the descriptors do not panic, and
  -- bring the counts back to that number, also on every path on which they give up; after the
  -- loop of `exit` the process has no open files.
  pub run_call-Serves :
      (call : Call) (s : Files)
      → IsPossible call s
      → Counted s
      → Returns (run_call call s) (Serves call)
  unfolding run_call
  run_call-Serves (dups me fd) s lt h =
      bind-Returns (sys_dup me fd s) _ _ _ (sys_dup-Returns me fd s lt h)
        (λ (r, after) h1. (h1, tt))
  run_call-Serves (closes me fd) s lt h =
      bind-Returns (sys_close me fd s) _ _ _ (sys_close-Returns me fd s lt h)
        (λ (r, after) h1. (h1, tt))
  run_call-Serves (opens me device ip readable writable) s lt h =
      bind-Returns (open_file me device ip readable writable s) _ _ _
        (open_file-Returns nproc me device ip readable writable s lt h) (λ (r, after) h1. (h1, tt))
  run_call-Serves (pipes me pi copies) s lt h =
      bind-Returns (sys_pipe me pi copies s) _ _ _ (sys_pipe-Returns nproc me pi copies s lt h)
        (λ (r, after) h1. (h1, tt))
  run_call-Serves (forks me child) s (lt, lt', free) h =
      Returns-map (fork_files me child 0 nofile s) Counted (Serves (forks me child))
        (fork_files-Returns nofile nproc me child 0 s lt lt' (omega arith) h
          (λ j le small. free j small))
        (λ after h1. (h1, tt))
  run_call-Serves (exits me) s lt h =
      Returns-map (exit_files me 0 nofile s) (Closed nproc me 0 nofile s) (Serves (exits me))
        (exit_files-Closed nofile nproc me 0 s lt (omega arith) h)
        (λ after (h1, kept, closed). (h1, λ j small. closed j (omega arith) (omega arith)))
