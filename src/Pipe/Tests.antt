-- ===== src/Pipe/Tests.antt =====
-- Pipes whose counters are about to wrap, and the theorems at these inputs.
use modified_riscv.Base.{
  ℕ, ◌+◌, ◌≡◌, refl, true, false, Option, none, some, [], ◌∷◌, update, ltb, if◌then◌else◌,
}
use modified_riscv.Pipe.{Pipe, pipe_init, pipewrite, piperead, returns}

-- Two bytes, 7 and 8, at the last position before the counter wraps and the first after it.
abbrev wrapping : Pipe
wrapping = record (pipe_init (update (update (λ _. 0) 511 7) 0 8)) {
  nread = 0xffffffff;
  nwrite = 1;
}

-- A user's buffer of three bytes before an unmapped page.
abbrev buffer : ℕ → Option ℕ
buffer i = if ltb i 3 then some (i + 65) else none

stops_at_the_unmapped_page : (pipewrite buffer (λ _. false) 0 5 wrapping).0 ≡ returns 3
unfolding pipewrite
stops_at_the_unmapped_page = refl

reads_both : (piperead (λ _. true) false 5 wrapping).0 ≡ (returns 2, 7 ∷ 8 ∷ [])
unfolding piperead
reads_both = refl
