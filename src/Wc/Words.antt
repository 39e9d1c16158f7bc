-- ===== src/Wc/Words.antt =====
-- The counts are those of the file, however `read` cuts it into pieces.
use modified_riscv.Base.{
  ℕ, suc, ◌+◌, ◌≡◌, refl, sym, ◌∙◌, ap, Bool, true, false, not, Option, some, List, [], ◌∷◌, ◌++◌,
  length, ◌==◌, ◌||◌, if◌then◌else◌, arith,
}
use modified_riscv.Wc.{strchr, spaces, Tally, count_char, count_buf, read_loop, wc}

abbrev pub newlines : List ℕ → ℕ
newlines [] = 0
newlines (ch ∷ s) = if ch == 10 then suc (newlines s) else newlines s

-- A space, a tab, a vertical tab, or the end of a line.
abbrev pub is_space : ℕ → Bool
is_space ch = (ch == 32) || (ch == 9) || (ch == 11) || (ch == 10) || (ch == 13)

-- The words of a text, of which `word` has been read.
abbrev pub words : List ℕ → List ℕ → List (List ℕ)
words [] [] = []
words (x ∷ word) [] = (x ∷ word) ∷ []
words [] (ch ∷ s) = if is_space ch then words [] s else words (ch ∷ []) s
words (x ∷ word) (ch ∷ s) =
    if is_space ch then (x ∷ word) ∷ words [] s else words (x ∷ word ++ (ch ∷ [])) s

abbrev in_word : List ℕ → Bool
in_word [] = false
in_word (x ∷ word) = true

-- The words that begin in the text.
abbrev begun : List ℕ → ℕ
begun [] = 0
begun (x ∷ word) = 1

-- What a text adds to the counts.
abbrev Adds : Tally → List ℕ → ℕ → List (List ℕ) → Tally → Type 0
Adds t s left ws after =
    (after.w + left ≡ t.w + length ws) × (after.l ≡ t.l + newlines s) × (after.c ≡ t.c + length s)

Adds-char :
    (ch : ℕ) (s : List ℕ) (left left' : ℕ) (ws ws' : List (List ℕ)) (t t' after : Tally)
    → t'.w + length ws' + left ≡ t.w + length ws + left'
    → t'.l ≡ (if ch == 10 then t.l + 1 else t.l)
    → t'.c ≡ t.c + 1
    → Adds t' s left' ws' after
    → Adds t (ch ∷ s) left ws after
Adds-char ch s left left' ws ws' t t' after ew el ec (w, l, c) = (
  omega (arith, ew, w),
  l ∙ ap (λ n. n + newlines s) el ∙ more_lines (ch == 10) (newlines s),
  omega (arith, ec, c),
)
  where
    more_lines :
        (b : Bool) (n : ℕ) → (if b then t.l + 1 else t.l) + n ≡ t.l + (if b then suc n else n)
    more_lines true n = omega arith
    more_lines false n = refl

strchr-spaces : (ch : ℕ) → strchr spaces ch ≡ is_space ch
unfolding strchr
strchr-spaces ch = ground arith

count_buf-Adds :
    (s word : List ℕ) (t : Tally)
    → t.inword ≡ in_word word
    → Adds t s (begun word) (words word s) (count_buf s t)
unfolding count_buf
count_buf-Adds [] [] t e = (omega arith, omega arith, omega arith)
count_buf-Adds [] (x ∷ word) t e = (omega arith, omega arith, omega arith)
count_buf-Adds (ch ∷ s) [] t e =
    rw (← strchr-spaces ch) (by_space (strchr spaces ch) (count_buf-Adds s))
  where
    lines : ℕ
    lines = if ch == 10 then t.l + 1 else t.l

    outside : Tally
    outside = record { l = lines; w = t.w; c = t.c + 1; inword = false }

    begins : Tally
    begins = record { l = lines; w = t.w + 1; c = t.c + 1; inword = true }

    by_space :
        (b : Bool)
        → ((word : List ℕ) (t : Tally)
            → t.inword ≡ in_word word
            → Adds t s (begun word) (words word s) (count_buf s t))
        → Adds t (ch ∷ s) 0 (if b then words [] s else words (ch ∷ []) s) (
            count_buf s (
              if b
              then outside
              else if not t.inword
              then begins
              else record { l = lines; w = t.w; c = t.c + 1; inword = t.inword }))
    by_space true again =
        Adds-char ch s 0 0 (words [] s) (words [] s) t outside (count_buf s outside) refl refl refl
          (again [] outside refl)
    by_space false again = rw e (
        Adds-char ch s 0 1 (words (ch ∷ []) s) (words (ch ∷ []) s) t begins (count_buf s begins)
          (omega arith) refl refl (again (ch ∷ []) begins refl))
count_buf-Adds (ch ∷ s) (x ∷ word) t e =
    rw (← strchr-spaces ch) (by_space (strchr spaces ch) (count_buf-Adds s))
  where
    lines : ℕ
    lines = if ch == 10 then t.l + 1 else t.l

    outside : Tally
    outside = record { l = lines; w = t.w; c = t.c + 1; inword = false }

    inside : Tally
    inside = record { l = lines; w = t.w; c = t.c + 1; inword = true }

    longer : List ℕ
    longer = x ∷ word ++ (ch ∷ [])

    by_space :
        (b : Bool)
        → ((word : List ℕ) (t : Tally)
            → t.inword ≡ in_word word
            → Adds t s (begun word) (words word s) (count_buf s t))
        → Adds t (ch ∷ s) 1 (if b then (x ∷ word) ∷ words [] s else words longer s) (
            count_buf s (
              if b
              then outside
              else if not t.inword
              then record { l = lines; w = t.w + 1; c = t.c + 1; inword = true }
              else record { l = lines; w = t.w; c = t.c + 1; inword = t.inword }))
    by_space true again =
        Adds-char ch s 1 0 ((x ∷ word) ∷ words [] s) (words [] s) t outside (count_buf s outside)
          (omega arith) refl refl (again [] outside refl)
    by_space false again = rw e (
        Adds-char ch s 1 1 (words longer s) (words longer s) t inside (count_buf s inside) refl refl
          refl (again longer inside refl))

count_buf-append :
    (buf rest : List ℕ) (t : Tally) → count_buf (buf ++ rest) t ≡ count_buf rest (count_buf buf t)
unfolding count_buf
count_buf-append [] rest t = refl
count_buf-append (ch ∷ buf) rest t = count_buf-append buf rest (count_char ch t)

-- What `read` gives for a file in these pieces, at whose end it gives nothing.
abbrev pub reads_of : List (ℕ × List ℕ) → List (Option (List ℕ))
reads_of [] = some [] ∷ []
reads_of ((ch, buf) ∷ pieces) = some (ch ∷ buf) ∷ reads_of pieces

abbrev pub file_of : List (ℕ × List ℕ) → List ℕ
file_of [] = []
file_of ((ch, buf) ∷ pieces) = ch ∷ buf ++ file_of pieces

read_loop-file_of :
    (pieces : List (ℕ × List ℕ)) (t : Tally)
    → read_loop (reads_of pieces) t ≡ some (count_buf (file_of pieces) t)
unfolding read_loop count_buf
read_loop-file_of [] t = refl
read_loop-file_of ((ch, buf) ∷ pieces) t =
    read_loop-file_of pieces (count_buf (ch ∷ buf) t)
    ∙ ap some (sym (count_buf-append (ch ∷ buf) (file_of pieces) t))

-- For a file that `read` gives in pieces of at least one character, however they are cut, `wc`
-- counts its newlines, its words and its characters; the words are the longest runs of characters
-- other than the space, the tab, the vertical tab, the newline and the carriage return.
pub wc-words :
    (pieces : List (ℕ × List ℕ))
    → (t : Tally) × (wc (reads_of pieces) ≡ some t)
      × (t.l ≡ newlines (file_of pieces))
      × (t.w ≡ length (words [] (file_of pieces)))
      × (t.c ≡ length (file_of pieces))
unfolding wc
wc-words pieces =
    let start : Tally = record { l = 0; w = 0; c = 0; inword = false } in
    let (w, l, c) = count_buf-Adds (file_of pieces) [] start refl in
    (
      count_buf (file_of pieces) start,
      read_loop-file_of pieces start,
      l ∙ omega arith,
      omega (arith, w),
      c ∙ omega arith,
    )
