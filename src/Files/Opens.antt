-- ===== src/Files/Opens.antt =====
-- `sys_open` on the counts, also where it gives up.
use modified_riscv.Base.{
  ℕ, ◌*◌, ◌<◌, ◌≡◌, refl, Bool, Option, none, some, [], ◌∷◌, ◌>>=◌, Returns, bind-Returns,
}
use modified_riscv.Files.{
  nofile, File, Files, set_file, filealloc, fileclose, fdalloc, opened, open_file,
}
use modified_riscv.Files.Counts.{IsCounted, set_file-IsCounted, settle-IsCounted, used-ref}
use modified_riscv.Files.Calls.{GotFile, filealloc-GotFile, fileclose-Returns, GotFd, fdalloc-GotFd}

module _ (nproc : ℕ) where
  abbrev places : ℕ
  places = nproc * nofile

  opened-ref :
      (device : Option ℕ) (ip : ℕ) (r w : Bool) (f : File) → (opened device ip r w f).ref ≡ f.ref
  opened-ref none ip r w f = refl
  opened-ref (some major) ip r w f = refl

  pub open_file-Returns :
      (me : ℕ) (device : Option ℕ) (ip : ℕ) (readable writable : Bool) (s : Files)
      → me < nproc
      → IsCounted places [] [] s
      → Returns
          (open_file me device ip readable writable s)
          (λ (r, after). IsCounted places [] [] after)
  unfolding open_file
  open_file-Returns me device ip readable writable s lt h =
      by_file (filealloc s) (filealloc-GotFile places [] [] s h)
    where
      by_fd :
          (f : ℕ) (s1 : Files) (r : Option ℕ × Files)
          → GotFd places me f [] (f ∷ []) s1 r
          → Returns {A = Option ℕ × Files}
              (elim r.0 [
                | none ↦ fileclose f r.1 >>= λ (release, s3). some (none, s3)
                | some d ↦
                    some (some d, set_file f (opened device ip readable writable (r.1.file f)) r.1)
              ])
              (λ (r, after). IsCounted places [] [] after)
      by_fd f s1 (none, s2) (h2, kept) =
          bind-Returns (fileclose f s2) _ _ _
            (fileclose-Returns places f [] [] s2 (used-ref places f [] s2 h2) h2)
            (λ (release, s3) (h3, same). h3)
      by_fd f s1 (some d, s2) (h2, kept, at_d, small, same, was_empty) =
          set_file-IsCounted places f (opened device ip readable writable (s2.file f)) [] [] s2
            (opened-ref device ip readable writable (s2.file f))
            (settle-IsCounted places f [] [] s2 h2)

      by_file :
          (r : Option ℕ × Files)
          → GotFile places [] [] r
          → Returns {A = Option ℕ × Files}
              (elim r.0 [
                | none ↦ some (none, r.1)
                | some f ↦
                    let (fd, s2) = fdalloc me f r.1 in
                    elim fd [
                      | none ↦ fileclose f s2 >>= λ (release, s3). some (none, s3)
                      | some d ↦
                          some
                            (some d, set_file f (opened device ip readable writable (s2.file f)) s2)
                    ]
              ])
              (λ (r, after). IsCounted places [] [] after)
      by_file (none, s1) h1 = h1
      by_file (some f, s1) h1 =
          by_fd f s1 (fdalloc me f s1) (fdalloc-GotFd nproc me f [] (f ∷ []) s1 lt h1)
