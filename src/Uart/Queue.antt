-- ===== src/Uart/Queue.antt =====
-- The output buffer refines a queue of at most 32 characters.
use modified_riscv.Base.{
  ℕ, zero, suc, ◌+◌, ◌%◌, ◌^◌, ◌≤◌, ◌<◌, ◌≡◌, ◌≢◌, ◌⊎◌, inl, inr, refl, sym, ap₂, subst, Bool, true,
  false, List, [], ◌∷◌, ◌++◌, length, length-append, arith, Bool-cases, ◌==◌,
}
use modified_riscv.Ring.{Window, Window-wrap, Window-push}
use modified_riscv.Uart.{
  Uart, uart_tx_buf_size, next_char, drop_char, has_no_room, put_char, send_loop,
}

pub record Holds (u : Uart) (q : List ℕ) : Type 0 where
  pub reads : u.r < 2 ^ 64
  pub writes : u.w ≡ (u.r + length q) % 2 ^ 64
  pub fits : length q ≤ uart_tx_buf_size
  pub window : Window uart_tx_buf_size u.buf u.r q

-- The laws of the places.
next_place :
    (r s : ℕ)
    → r % uart_tx_buf_size ≡ s % uart_tx_buf_size
    → (r + 1) % uart_tx_buf_size ≡ (s + 1) % uart_tx_buf_size
next_place r s same = omega arith

apart_places :
    (r w n : ℕ)
    → suc n < uart_tx_buf_size
    → w % uart_tx_buf_size ≡ (r + suc n) % uart_tx_buf_size
    → w % uart_tx_buf_size ≢ r % uart_tx_buf_size
apart_places r w n small at = omega arith

-- A counter that wraps names the same place, since 32 divides 2 ^ 64.
wrap_place : (a : ℕ) → a % uart_tx_buf_size ≡ a % 2 ^ 64 % uart_tx_buf_size
wrap_place a = omega arith

pub drop_char-Holds :
    (u : Uart) (x : ℕ) (q : List ℕ) → Holds u (x ∷ q) → Holds (drop_char u) q × (next_char u ≡ x)
drop_char-Holds u x q h = (
  record {
    reads = omega arith;
    writes = omega (arith, h.writes, h.reads);
    fits = omega (arith, h.fits);
    window =
        Window-wrap uart_tx_buf_size next_place apart_places u.buf (u.r + 1) ((u.r + 1) % 2 ^ 64) q
          (wrap_place (u.r + 1)) h.window.1;
  },
  h.window.0,
)

pub put_char-Holds :
    (u : Uart) (c : ℕ) (q : List ℕ)
    → Holds u q
    → has_no_room u ≡ false
    → Holds (put_char c u) (q ++ (c ∷ []))
put_char-Holds u c q h room = record {
  reads = h.reads;
  writes = omega (arith, h.writes, length-append q (c ∷ []));
  fits = omega (arith, length-append q (c ∷ []), less);
  window =
      Window-push uart_tx_buf_size next_place apart_places u.buf u.r u.w c q less
        (omega (arith, h.writes)) h.window;
}
  where
    less : length q < uart_tx_buf_size
    less = room_of (length q) h.writes h.fits
      where
        room_of : (n : ℕ) → u.w ≡ (u.r + n) % 2 ^ 64 → n ≤ uart_tx_buf_size → n < uart_tx_buf_size
        room_of n e le = grind arith

nothing_left : (u : Uart) → Holds u [] → (u.w == u.r) ≡ true
nothing_left u h = by_counters h.reads h.writes
  where
    by_counters : u.r < 2 ^ 64 → u.w ≡ (u.r + 0) % 2 ^ 64 → (u.w == u.r) ≡ true
    by_counters lt e = ground arith

something_left : (u : Uart) (x : ℕ) (q : List ℕ) → Holds u (x ∷ q) → (u.w == u.r) ≡ false
something_left u x q h = by_counters (length q) h.reads h.writes h.fits
  where
    by_counters :
        (n : ℕ)
        → u.r < 2 ^ 64
        → u.w ≡ (u.r + suc n) % 2 ^ 64
        → suc n ≤ uart_tx_buf_size
        → (u.w == u.r) ≡ false
    by_counters n lt e le = ground arith

-- The characters sent are the first ones of the queue, and the buffer holds the rest; the loop stops at
-- a look that finds the device busy, if characters are left.
abbrev pub Sends : (ℕ → Bool) → ℕ → List ℕ → List ℕ × Uart → Type 0
Sends idle i q (sent, after) =
    (rest : List ℕ) × (q ≡ sent ++ rest)
    × Holds after rest
    × ((rest ≡ []) ⊎ (idle (i + length sent) ≡ false))

pub send_loop-Sends :
    (idle : ℕ → Bool) (n i : ℕ) (q : List ℕ) (u : Uart)
    → length q ≤ n
    → Holds u q
    → Sends idle i q (send_loop idle i n u)
unfolding send_loop
send_loop-Sends idle zero i [] u le h = ([], refl, h, inl refl)
send_loop-Sends idle zero i (x ∷ q) u le h = absurd (omega arith)
send_loop-Sends idle (suc n) i [] u le h = rw (nothing_left u h) ([], refl, h, inl refl)
send_loop-Sends idle (suc n) i (x ∷ q) u le h =
    rw (something_left u x q h) (elim (Bool-cases (idle i)) [
      | inr busy ↦ rw busy (x ∷ q, refl, h, inr (subst (λ j. idle j ≡ false) (omega arith) busy))
      | inl ready ↦ rw ready (
          let (h1, first) = drop_char-Holds u x q h in
          let (rest, parts, h2, why) =
            send_loop-Sends idle n (i + 1) q (drop_char u) (omega arith) h1 in
          (
            rest,
            ap₂ (λ y ys. y ∷ ys) (sym first) parts,
            h2,
            one_later (length (send_loop idle (i + 1) n (drop_char u)).0) rest why,
          ))
    ])
  where
    one_later :
        (m : ℕ) (rest : List ℕ)
        → ((rest ≡ []) ⊎ (idle (i + 1 + m) ≡ false))
        → (rest ≡ []) ⊎ (idle (i + suc m) ≡ false)
    one_later m rest (inl none_left) = inl none_left
    one_later m rest (inr busy) = inr (subst (λ j. idle j ≡ false) (omega arith) busy)
