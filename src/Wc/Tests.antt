-- ===== src/Wc/Tests.antt =====
-- A file that is read in two pieces, with the cut inside a word.
use modified_riscv.Base.{ℕ, false, ◌≡◌, refl, some, List, [], ◌∷◌, length}
use modified_riscv.Wc.{Tally, strchr, count_buf, read_loop, wc}
use modified_riscv.Wc.Words.{newlines, words, reads_of, file_of, wc-words}

-- "to b" and "e\n"
abbrev two_pieces : List (ℕ × List ℕ)
two_pieces = (116, 111 ∷ 32 ∷ 98 ∷ []) ∷ (101, 10 ∷ []) ∷ []

counts_two_words : wc (reads_of two_pieces) ≡ some (record { l = 1; w = 2; c = 6; inword = false })
unfolding wc read_loop count_buf strchr
counts_two_words = refl

wc-words_example :
    (t : Tally) × (wc (reads_of two_pieces) ≡ some t)
    × (t.l ≡ newlines (file_of two_pieces))
    × (t.w ≡ length (words [] (file_of two_pieces)))
    × (t.c ≡ length (file_of two_pieces))
wc-words_example = wc-words two_pieces
