-- ===== src/Pipe.antt =====
-- kernel/pipe.c: the loops of `pipewrite` and `piperead` up to where they sleep or return, and
-- `pipeclose`. `copyin` and `copyout` of kernel/vm.c are parameters.
pub mod Fifo
pub mod Transfer
mod Tests
use modified_riscv.Base.{
  ℕ, zero, suc, ◌+◌, ◌%◌, ◌^◌, Bool, true, false, ◌&&◌, ◌||◌, not, Option, none, some, List, [],
  ◌∷◌, ◌==◌, if◌then◌else◌, update,
}

abbrev pub pipesize : ℕ
pipesize = 512

-- struct pipe, without its lock: `bytes` is its array `data`, and the counters are `uint`s.
pub record Pipe : Type 0 where
  pub bytes : ℕ → ℕ
  pub nread : ℕ
  pub nwrite : ℕ
  pub readopen : Bool
  pub writeopen : Bool

-- pipealloc, the fields of the pipe
abbrev pub pipe_init : (ℕ → ℕ) → Pipe
pipe_init garbage = record {
  bytes = garbage;
  nread = 0;
  nwrite = 0;
  readopen = true;
  writeopen = true;
}

abbrev pub is_full : Pipe → Bool
is_full pi = pi.nwrite == (pi.nread + pipesize) % 2 ^ 32

abbrev pub is_empty : Pipe → Bool
is_empty pi = pi.nread == pi.nwrite

-- pi->data[pi->nwrite++ % PIPESIZE] = ch
abbrev pub push : ℕ → Pipe → Pipe
push ch pi = record pi {
  bytes = update pi.bytes (pi.nwrite % pipesize) ch;
  nwrite = (pi.nwrite + 1) % 2 ^ 32;
}

-- ch = pi->data[pi->nread++ % PIPESIZE]
abbrev pub front : Pipe → ℕ
front pi = pi.bytes (pi.nread % pipesize)

abbrev pub pop : Pipe → Pipe
pop pi = record pi { nread = (pi.nread + 1) % 2 ^ 32 }

-- How a call goes on after the part of it that runs with the lock held: it returns the number of
-- bytes, or -1, or sleeps and starts its loop again.
pub data Ends : Type 0 where
  returns : ℕ → Ends
  fails : Ends
  sleeps : ℕ → Ends

-- The loop of `pipewrite` from byte `i` on, with `n` bytes to go, until it returns or sleeps.
-- `copyin i` is byte `i` of the user's buffer, if its page is mapped, and `killed i` is whether the
-- caller is killed by then. A negative count behaves as 0.
unfoldable pub pipewrite : (ℕ → Option ℕ) → (ℕ → Bool) → ℕ → ℕ → Pipe → Ends × Pipe
pipewrite copyin killed i zero pi = (returns i, pi)
pipewrite copyin killed i (suc n) pi =
    if not pi.readopen || killed i
    then (fails, pi)
    else if is_full pi
    then (sleeps i, pi)
    else elim (copyin i) [
      | none ↦ (returns i, pi)
      | some ch ↦ pipewrite copyin killed (i + 1) n (push ch pi)
    ]

-- The copying loop of `piperead`: the bytes it hands to `copyout`, and its result. `copies i` is
-- whether byte `i` of the user's buffer can be written.
unfoldable pub read_loop : (ℕ → Bool) → ℕ → ℕ → Pipe → (List ℕ × ℕ) × Pipe
read_loop copies i zero pi = (([], i), pi)
read_loop copies i (suc n) pi =
    if is_empty pi
    then (([], i), pi)
    else if copies i
    then (let ((out, r), after) = read_loop copies (i + 1) n (pop pi) in
        ((front pi ∷ out, r), after))
    else (([], i), pop pi)

unfoldable pub piperead : (ℕ → Bool) → Bool → ℕ → Pipe → (Ends × List ℕ) × Pipe
unfolding read_loop
piperead copies killed n pi =
    if is_empty pi && pi.writeopen
    then (if killed then ((fails, []), pi) else ((sleeps 0, []), pi))
    else (let ((out, r), after) = read_loop copies 0 n pi in ((returns r, out), after))

-- `pipeclose`: the pipe, and whether its page is freed.
abbrev pub pipeclose : Bool → Pipe → Bool × Pipe
pipeclose writable pi =
    let closed =
      if writable then record pi { writeopen = false } else record pi { readopen = false } in
    (not closed.readopen && not closed.writeopen, closed)
