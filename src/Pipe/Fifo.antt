-- ===== src/Pipe/Fifo.antt =====
-- The buffer of a pipe refines a queue of at most 512 bytes, whichever values the counters have.
use modified_riscv.Base.{
  ℕ, suc, ◌+◌, ◌%◌, ◌^◌, ◌≤◌, ◌<◌, ◌≡◌, ◌≢◌, true, false, List, [], ◌∷◌, ◌++◌, length,
  length-append, arith,
}
use modified_riscv.Ring.{Window, Window-wrap, Window-push}
use modified_riscv.Pipe.{Pipe, pipesize, is_full, is_empty, push, front, pop}

pub record IsQueue (pi : Pipe) (q : List ℕ) : Type 0 where
  pub reads : pi.nread < 2 ^ 32
  pub writes : pi.nwrite ≡ (pi.nread + length q) % 2 ^ 32
  pub fits : length q ≤ pipesize
  pub window : Window pipesize pi.bytes pi.nread q

-- The laws of the places.
next_place : (r s : ℕ) → r % pipesize ≡ s % pipesize → (r + 1) % pipesize ≡ (s + 1) % pipesize
next_place r s same = omega arith

apart_places :
    (r w n : ℕ)
    → suc n < pipesize
    → w % pipesize ≡ (r + suc n) % pipesize
    → w % pipesize ≢ r % pipesize
apart_places r w n small at = omega arith

-- A counter that wraps names the same place, since 512 divides 2 ^ 32.
wrap_place : (a : ℕ) → a % pipesize ≡ a % 2 ^ 32 % pipesize
wrap_place a = omega arith

pub pop-IsQueue :
    (pi : Pipe) (x : ℕ) (q : List ℕ) → IsQueue pi (x ∷ q) → IsQueue (pop pi) q × (front pi ≡ x)
pop-IsQueue pi x q h = (
  record {
    reads = omega arith;
    writes = omega (arith, h.writes, h.reads);
    fits = omega (arith, h.fits);
    window =
        Window-wrap pipesize next_place apart_places pi.bytes (pi.nread + 1)
          ((pi.nread + 1) % 2 ^ 32) q (wrap_place (pi.nread + 1)) h.window.1;
  },
  h.window.0,
)

pub push-IsQueue :
    (pi : Pipe) (ch : ℕ) (q : List ℕ)
    → IsQueue pi q
    → is_full pi ≡ false
    → IsQueue (push ch pi) (q ++ (ch ∷ []))
push-IsQueue pi ch q h full = record {
  reads = h.reads;
  writes = omega (arith, h.writes, h.reads, length-append q (ch ∷ []));
  fits = omega (arith, length-append q (ch ∷ []), room);
  window =
      Window-push pipesize next_place apart_places pi.bytes pi.nread pi.nwrite ch q room place
        h.window;
}
  where
    room : length q < pipesize
    room = room_of (length q) h.writes h.fits
      where
        room_of : (n : ℕ) → pi.nwrite ≡ (pi.nread + n) % 2 ^ 32 → n ≤ pipesize → n < pipesize
        room_of n e le = grind arith

    place : pi.nwrite % pipesize ≡ (pi.nread + length q) % pipesize
    place = omega (arith, h.writes)

pub empty-is_empty : (pi : Pipe) → IsQueue pi [] → is_empty pi ≡ true
empty-is_empty pi h = empty h.reads h.writes
  where
    empty : pi.nread < 2 ^ 32 → pi.nwrite ≡ (pi.nread + 0) % 2 ^ 32 → is_empty pi ≡ true
    empty lt e = ground arith

pub cons-is_empty : (pi : Pipe) (x : ℕ) (q : List ℕ) → IsQueue pi (x ∷ q) → is_empty pi ≡ false
cons-is_empty pi x q h = apart (length q) h.reads h.writes h.fits
  where
    apart :
        (n : ℕ)
        → pi.nread < 2 ^ 32
        → pi.nwrite ≡ (pi.nread + suc n) % 2 ^ 32
        → suc n ≤ pipesize
        → is_empty pi ≡ false
    apart n lt e le = ground arith

pub full-length : (pi : Pipe) (q : List ℕ) → IsQueue pi q → is_full pi ≡ true → length q ≡ pipesize
full-length pi q h full = exact (length q) h.reads h.writes h.fits
  where
    exact :
        (n : ℕ)
        → pi.nread < 2 ^ 32
        → pi.nwrite ≡ (pi.nread + n) % 2 ^ 32
        → n ≤ pipesize
        → n ≡ pipesize
    exact n lt e le = ground arith
