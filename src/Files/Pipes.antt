-- ===== src/Files/Pipes.antt =====
-- `pipealloc` and `sys_pipe` on the counts, on all the paths on which they give up.
use modified_riscv.Base.{
  ℕ, ◌*◌, ◌<◌, ◌≡◌, ◌≢◌, refl, sym, ◌∙◌, ap, subst, Bool, true, false, Option, none, some, [], ◌∷◌,
  ◌==◌, if◌then◌else◌, update, update_self, update_ne, arith, ◌>>=◌, Returns, bind-Returns,
  ℕ_discrete,
}
use modified_riscv.Files.{
  nofile, File, Files, place, set_file, set_place, filealloc, fileclose, fdalloc, pipe_end,
  close_both, pipealloc, sys_pipe,
}
use modified_riscv.Files.Counts.{
  IsCounted, set_file-IsCounted, clear-IsCounted, settle-IsCounted, used-ref,
}
use modified_riscv.Files.Calls.{
  GotFile, filealloc-GotFile, fileclose-Returns, close_both-Returns, GotFd, fdalloc-GotFd,
}

module _ (nproc : ℕ) where
  abbrev places : ℕ
  places = nproc * nofile

  ref-kept :
      (a b : ℕ) (new : File) (file : ℕ → File)
      → new.ref ≡ (file a).ref
      → (update file a new b).ref ≡ (file b).ref
  ref-kept a b new file e = elim (ℕ_discrete a b) [
    | yes same ↦
        subst (λ j. (update file a new j).ref ≡ (file j).ref) same
          (ap (λ x. x.ref) (update_self file a new) ∙ e)
    | no ne ↦ ap (λ x. x.ref) (update_ne file a b new ne)
  ]

  -- Both ends of a pipe in the hand of the call, or none.
  abbrev GotEnds : Option (ℕ × ℕ) × Files → Type 0
  GotEnds (none, after) = IsCounted places [] [] after
  GotEnds (some (a, b), after) = IsCounted places [] (a ∷ b ∷ []) after

  pipealloc-GotEnds :
      (pi : ℕ) (s : Files) → IsCounted places [] [] s → Returns (pipealloc pi s) GotEnds
  unfolding pipealloc
  pipealloc-GotEnds pi s h = by_first (filealloc s) (filealloc-GotFile places [] [] s h)
    where
      by_second :
          (a : ℕ) (r : Option ℕ × Files)
          → GotFile places [] (a ∷ []) r
          → Returns
              (elim r.0 [
                | none ↦ fileclose a r.1 >>= λ (release, s3). some (none, s3)
                | some b ↦
                    if pi == 0
                    then (close_both a b r.1 >>= λ s3. some (none, s3))
                    else some (
                      some (a, b),
                      set_file b
                          (pipe_end pi true (r.1.file b))
                          (set_file a (pipe_end pi false (r.1.file a)) r.1),
                    )
              ])
              GotEnds
      by_second a (none, s2) h2 =
          bind-Returns (fileclose a s2) _ _ _
            (fileclose-Returns places a [] [] s2 (used-ref places a [] s2 h2) h2)
            (λ (release, s3) (h3, same). h3)
      by_second a (some b, s2) h2 = by_page (pi == 0)
        where
          both : IsCounted places [] (a ∷ b ∷ []) s2
          both f = omega (arith, h2 f)

          by_page :
              (full : Bool)
              → Returns
                  (if full
                    then (close_both a b s2 >>= λ s3. some (none, s3))
                    else some (
                      some (a, b),
                      set_file b
                          (pipe_end pi true (s2.file b))
                          (set_file a (pipe_end pi false (s2.file a)) s2),
                    ))
                  GotEnds
          by_page true =
              bind-Returns (close_both a b s2) _ _ _ (close_both-Returns places a b s2 both)
                (λ s3 h3. h3)
          by_page false =
              set_file-IsCounted places b (pipe_end pi true (s2.file b)) [] (a ∷ b ∷ [])
                (set_file a (pipe_end pi false (s2.file a)) s2)
                (sym (ref-kept a b (pipe_end pi false (s2.file a)) s2.file refl))
                (set_file-IsCounted places a (pipe_end pi false (s2.file a)) [] (a ∷ b ∷ []) s2 refl
                  both)

      by_first :
          (r : Option ℕ × Files)
          → GotFile places [] [] r
          → Returns
              (elim r.0 [
                | none ↦ some (none, r.1)
                | some a ↦
                    let (f1, s2) = filealloc r.1 in
                    elim f1 [
                      | none ↦ fileclose a s2 >>= λ (release, s3). some (none, s3)
                      | some b ↦
                          if pi == 0
                          then (close_both a b s2 >>= λ s3. some (none, s3))
                          else some (
                            some (a, b),
                            set_file b
                                (pipe_end pi true (s2.file b))
                                (set_file a (pipe_end pi false (s2.file a)) s2),
                          )
                    ]
              ])
              GotEnds
      by_first (none, s1) h1 = h1
      by_first (some a, s1) h1 =
          by_second a (filealloc s1) (filealloc-GotFile places [] (a ∷ []) s1 h1)

  pub sys_pipe-Returns :
      (me pi : ℕ) (copies : Bool) (s : Files)
      → me < nproc
      → IsCounted places [] [] s
      → Returns (sys_pipe me pi copies s) (λ (r, after). IsCounted places [] [] after)
  unfolding sys_pipe
  sys_pipe-Returns me pi copies s lt h =
      bind-Returns (pipealloc pi s) _ GotEnds _ (pipealloc-GotEnds pi s h)
        (λ (ends, s1) got. by_ends ends s1 got)
    where
      gives_up :
          (a b : ℕ) (s : Files)
          → IsCounted places [] (a ∷ b ∷ []) s
          → Returns {A = Bool × Files}
              (close_both a b s >>= λ s4. some (false, s4))
              (λ (r, after). IsCounted places [] [] after)
      gives_up a b s h =
          bind-Returns (close_both a b s) _ _ _ (close_both-Returns places a b s h) (λ s4 h4. h4)

      by_second :
          (a b d : ℕ) (s2 : Files)
          → IsCounted places [] (b ∷ []) s2
          → s2.ofile (place me d) ≡ some a
          → d < nofile
          → (r : Option ℕ × Files) → GotFd places me b [] (b ∷ []) s2 r
          → Returns {A = Bool × Files}
              (elim r.0 [
                | none ↦ close_both a b (set_place (place me d) none r.1) >>= λ s4. some (false, s4)
                | some e ↦
                    if copies
                    then some (true, r.1)
                    else (close_both a b
                          (set_place (place me e) none (set_place (place me d) none r.1))
                        >>= λ s4. some (false, s4))
              ])
              (λ (r, after). IsCounted places [] [] after)
      by_second a b d s2 h2 at_d small (none, s3) (h3, kept) =
          gives_up a b (set_place (place me d) none s3) (
            clear-IsCounted places (place me d) a [] (b ∷ []) s3 (omega arith)
              (kept (place me d) a at_d) h3)
      by_second a b d s2 h2 at_d small (some e, s3) (h3, kept, at_e, small_e, same, was_empty) =
          by_copies copies
        where
          settled : IsCounted places [] [] s3
          settled = settle-IsCounted places b [] [] s3 h3

          none_some : {v : ℕ} → none ≡ some v → ⊥
          none_some e = cc

          apart : place me d ≢ place me e
          apart e = none_some (sym was_empty ∙ ap s2.ofile (sym e) ∙ at_d)

          one_clear : IsCounted places [] (a ∷ []) (set_place (place me d) none s3)
          one_clear =
              clear-IsCounted places (place me d) a [] [] s3 (omega arith)
                (kept (place me d) a at_d) settled

          both_clear :
              IsCounted places []
                (a ∷ b ∷ [])
                (set_place (place me e) none (set_place (place me d) none s3))
          both_clear f = omega (
            arith,
            clear-IsCounted places (place me e) b [] (a ∷ []) (set_place (place me d) none s3)
                (omega arith) (update_ne s3.ofile (place me d) (place me e) none apart ∙ at_e)
                one_clear f,
          )

          by_copies :
              (c : Bool)
              → Returns {A = Bool × Files}
                  (if c
                    then some (true, s3)
                    else (close_both a b
                          (set_place (place me e) none (set_place (place me d) none s3))
                        >>= λ s4. some (false, s4)))
                  (λ (r, after). IsCounted places [] [] after)
          by_copies true = settled
          by_copies false =
              gives_up a b (set_place (place me e) none (set_place (place me d) none s3)) both_clear

      by_first :
          (a b : ℕ) (s1 : Files) (r : Option ℕ × Files)
          → GotFd places me a [] (a ∷ b ∷ []) s1 r
          → Returns {A = Bool × Files}
              (elim r.0 [
                | none ↦ close_both a b r.1 >>= λ s3. some (false, s3)
                | some d ↦
                    let (fd1, s3) = fdalloc me b r.1 in
                    elim fd1 [
                      | none ↦
                          close_both a b (set_place (place me d) none s3) >>= λ s4. some (false, s4)
                      | some e ↦
                          if copies
                          then some (true, s3)
                          else (close_both a b
                                (set_place (place me e) none (set_place (place me d) none s3))
                              >>= λ s4. some (false, s4))
                    ]
              ])
              (λ (r, after). IsCounted places [] [] after)
      by_first a b s1 (none, s2) (h2, kept) = gives_up a b s2 h2
      by_first a b s1 (some d, s2) (h2, kept, at_d, small, same, was_empty) =
          by_second a b d s2 (settle-IsCounted places a [] (b ∷ []) s2 h2) at_d small
            (fdalloc me b s2)
            (fdalloc-GotFd nproc me b [] (b ∷ []) s2 lt
              (settle-IsCounted places a [] (b ∷ []) s2 h2))

      by_ends :
          (ends : Option (ℕ × ℕ)) (s1 : Files)
          → GotEnds (ends, s1)
          → Returns {A = Bool × Files}
              (elim ends [
                | none ↦ some (false, s1)
                | some (a, b) ↦
                    let (fd0, s2) = fdalloc me a s1 in
                    elim fd0 [
                      | none ↦ close_both a b s2 >>= λ s3. some (false, s3)
                      | some d ↦
                          let (fd1, s3) = fdalloc me b s2 in
                          elim fd1 [
                            | none ↦ close_both a b (set_place (place me d) none s3) >>= λ s4.
                                some (false, s4)
                            | some e ↦
                                if copies
                                then some (true, s3)
                                else (close_both a b
                                      (set_place (place me e) none (set_place (place me d) none s3))
                                    >>= λ s4. some (false, s4))
                          ]
                    ]
              ])
              (λ (r, after). IsCounted places [] [] after)
      by_ends none s1 got = got
      by_ends (some (a, b)) s1 got =
          by_first a b s1 (fdalloc me a s1) (fdalloc-GotFd nproc me a [] (a ∷ b ∷ []) s1 lt got)
