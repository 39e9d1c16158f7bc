-- ===== src/Files/Loops.antt =====
-- The loops of `fork` and of `exit` over the descriptors.
use modified_riscv.Base.{
  ℕ, zero, suc, ◌+◌, ◌*◌, ◌≤◌, ◌<◌, ◌≡◌, refl, ◌∙◌, subst, Option, none, some, List, [], ◌∷◌,
  update, update_self, update_ne, arith, ◌>>=◌, Returns, Returns-map, bind-Returns, ℕ_discrete,
}
use modified_riscv.Files.{
  nofile, Files, place, set_place, filedup, fileclose, fork_files, exit_files,
}
use modified_riscv.Files.Counts.{
  IsCounted, place-IsCounted, clear-IsCounted, settle-IsCounted, held-ref,
}
use modified_riscv.Files.Calls.{filedup-Returns, fileclose-Returns}

-- A reference in the hand of the call against one that is owed.
owe-IsCounted :
    (n g : ℕ) (owed used : List ℕ) (s : Files)
    → IsCounted n owed used s
    → IsCounted n (g ∷ owed) (g ∷ used) s
owe-IsCounted n g owed used s h f = omega (arith, h f)

pub fork_files-Returns :
    (n nproc me child i : ℕ) (s : Files)
    → me < nproc
    → child < nproc
    → i + n ≤ nofile
    → IsCounted (nproc * nofile) [] [] s
    → ((j : ℕ) → i ≤ j → j < nofile → s.ofile (place child j) ≡ none)
    → Returns (fork_files me child i n s) (IsCounted (nproc * nofile) [] [])
unfolding fork_files
fork_files-Returns zero nproc me child i s lt lt' le h free = h
fork_files-Returns (suc n) nproc me child i s lt lt' le h free =
    by_place (s.ofile (place me i)) refl
      (λ s2 h2 free2. fork_files-Returns n nproc me child (i + 1) s2 lt lt' (omega arith) h2 free2)
  where
    by_place :
        (v : Option ℕ)
        → s.ofile (place me i) ≡ v
        → ((s2 : Files)
            → IsCounted (nproc * nofile) [] [] s2
            → ((j : ℕ) → i + 1 ≤ j → j < nofile → s2.ofile (place child j) ≡ none)
            → Returns (fork_files me child (i + 1) n s2) (IsCounted (nproc * nofile) [] []))
        → Returns
            (elim v [
              | none ↦ fork_files me child (i + 1) n s
              | some f ↦ filedup f s >>= λ s1.
                  fork_files me child (i + 1) n (set_place (place child i) (some f) s1)
            ])
            (IsCounted (nproc * nofile) [] [])
    by_place none e again = again s h (λ j le' small. free j (omega arith) small)
    by_place (some f) e again =
        bind-Returns (filedup f s) _ _ _
          (filedup-Returns (nproc * nofile) f [] [] s
            (held-ref (nproc * nofile) (place me i) f [] s (omega arith) e h) h)
          (λ s1 (h1, same).
            again (set_place (place child i) (some f) s1)
              (settle-IsCounted (nproc * nofile) f [] [] (set_place (place child i) (some f) s1) (
                place-IsCounted (nproc * nofile) (place child i) f [] (f ∷ []) s1 (omega arith)
                  (same (place child i) ∙ free i (omega arith) (omega arith)) h1))
              (λ j le' small.
                update_ne s1.ofile (place child i) (place child j) (some f) (omega arith)
                ∙ same (place child j)
                ∙ free j (omega arith) small))

-- What `exit` leaves.
abbrev pub Closed : ℕ → ℕ → ℕ → ℕ → Files → Files → Type 0
Closed nproc me i n s s' =
    IsCounted (nproc * nofile) [] [] s'
    × ((k : ℕ) → s.ofile k ≡ none → s'.ofile k ≡ none)
    × ((j : ℕ) → i ≤ j → j < i + n → s'.ofile (place me j) ≡ none)

Closed-suc :
    (nproc me i n : ℕ) (s s2 s' : Files)
    → s2.ofile (place me i) ≡ none
    → ((k : ℕ) → s.ofile k ≡ none → s2.ofile k ≡ none)
    → Closed nproc me (i + 1) n s2 s'
    → Closed nproc me i (suc n) s s'
Closed-suc nproc me i n s s2 s' here more (h, kept, closed) = (
  h,
  λ k e. kept k (more k e),
  λ j le lt. elim (ℕ_discrete i j) [
    | yes same ↦ subst (λ j. s'.ofile (place me j) ≡ none) same (kept (place me i) here)
    | no ne ↦ closed j (omega arith) (omega arith)
  ],
)

pub exit_files-Closed :
    (n nproc me i : ℕ) (s : Files)
    → me < nproc
    → i + n ≤ nofile
    → IsCounted (nproc * nofile) [] [] s
    → Returns (exit_files me i n s) (Closed nproc me i n s)
unfolding exit_files
exit_files-Closed zero nproc me i s lt le h = (h, λ k e. e, λ j le' lt'. absurd (omega arith))
exit_files-Closed (suc n) nproc me i s lt le h =
    by_place (s.ofile (place me i)) refl
      (λ s2 h2. exit_files-Closed n nproc me (i + 1) s2 lt (omega arith) h2)
  where
    by_place :
        (v : Option ℕ)
        → s.ofile (place me i) ≡ v
        → ((s2 : Files)
            → IsCounted (nproc * nofile) [] [] s2
            → Returns (exit_files me (i + 1) n s2) (Closed nproc me (i + 1) n s2))
        → Returns
            (elim v [
              | none ↦ exit_files me (i + 1) n s
              | some f ↦ fileclose f s >>= λ (release, s1).
                  exit_files me (i + 1) n (set_place (place me i) none s1)
            ])
            (Closed nproc me i (suc n) s)
    by_place none e again =
        Returns-map (exit_files me (i + 1) n s) (Closed nproc me (i + 1) n s)
          (Closed nproc me i (suc n) s) (again s h)
          (λ s' closed. Closed-suc nproc me i n s s s' e (λ k e. e) closed)
    by_place (some f) e again =
        bind-Returns (fileclose f s) _ _ _
          (fileclose-Returns (nproc * nofile) f (f ∷ []) [] s
            (held-ref (nproc * nofile) (place me i) f [] s (omega arith) e h)
            (owe-IsCounted (nproc * nofile) f [] [] s h))
          (λ (release, s1) (h1, same).
            let s2 = set_place (place me i) none s1 in
            Returns-map (exit_files me (i + 1) n s2) (Closed nproc me (i + 1) n s2)
              (Closed nproc me i (suc n) s)
              (again s2 (
                settle-IsCounted (nproc * nofile) f [] [] s2 (
                  clear-IsCounted (nproc * nofile) (place me i) f (f ∷ []) [] s1 (omega arith)
                    (same (place me i) ∙ e) h1)))
              (λ s' closed.
                Closed-suc nproc me i n s s2 s' (update_self s1.ofile (place me i) none)
                  (still_none s1 same) closed))
      where
        still_none :
            (s1 : Files)
            → ((k : ℕ) → s1.ofile k ≡ s.ofile k)
            → (k : ℕ) → s.ofile k ≡ none
            → update s1.ofile (place me i) none k ≡ none
        still_none s1 same k e = elim (ℕ_discrete (place me i) k) [
          | yes here ↦
              subst (λ j. update s1.ofile (place me i) none j ≡ none) here
                (update_self s1.ofile (place me i) none)
          | no ne ↦ update_ne s1.ofile (place me i) k none ne ∙ same k ∙ e
        ]
