-- ===== src/Uart/Order.antt =====
-- The characters that the driver has sent, against those that were put into it.
use modified_riscv.Base.{
  ℕ, ◌+◌, ◌<◌, ◌≡◌, inl, inr, refl, sym, ◌∙◌, ap, subst, Bool, true, false, true_ne_false, Option,
  none, some, List, [], ◌∷◌, ◌++◌, length, length-append, arith, if◌then◌else◌,
}
use mathlib.Core.List.{append-nil, append_assoc}
use modified_riscv.Console.{Cons, consoleintr}
use modified_riscv.Console.Counters.{IsBuffered, consoleintr-Keeps}
use modified_riscv.Uart.{
  Uart, uart_tx_buf_size, has_no_room, put_char, uartstart, uartputc, receive, uartintr, Runs,
  starts, puts, interrupts,
}
use modified_riscv.Uart.Queue.{Holds, Sends, send_loop-Sends, put_char-Holds}

pub uartstart-Sends :
    (idle : ℕ → Bool) (q : List ℕ) (u : Uart) → Holds u q → Sends idle 0 q (uartstart idle u)
unfolding uartstart
uartstart-Sends idle q u h = send_loop-Sends idle uart_tx_buf_size 0 q u h.fits h

-- Where the device is idle at as many looks as there are characters held, `uartstart` sends all
-- of them in their order and leaves the buffer empty.
pub uartstart-drains :
    (idle : ℕ → Bool) (q : List ℕ) (u : Uart)
    → Holds u q
    → ((i : ℕ) → i < length q → idle i ≡ true)
    → ((uartstart idle u).0 ≡ q) × Holds (uartstart idle u).1 []
uartstart-drains idle q u h ready = all_sent (uartstart idle u) (uartstart-Sends idle q u h)
  where
    all_sent : (r : List ℕ × Uart) → Sends idle 0 q r → (r.0 ≡ q) × Holds r.1 []
    all_sent (sent, after) ([], parts, h1, why) = (sym (parts ∙ append-nil sent), h1)
    all_sent (sent, after) (x ∷ xs, parts, h1, inl e) = absurd (not_empty e)
      where
        not_empty : ◌≡◌ {A = List ℕ} (x ∷ xs) [] → ⊥
        not_empty e = cc
    all_sent (sent, after) (x ∷ xs, parts, h1, inr busy) = absurd (
        true_ne_false (
          sym
            (ready (0 + length sent) (omega (arith, ap length parts, length-append sent (x ∷ xs))))
          ∙ busy))

-- The characters held at first and those put in are, in their order, those sent and those still held;
-- the console's counters are in order.
abbrev pub InOrder : List ℕ → List ℕ → List ℕ → Uart × Cons → Type 0
InOrder held put sent (u, cons) =
    (q : List ℕ) × (held ++ put ≡ sent ++ q)
    × Holds u q
    × (ready : ℕ) × (edited : ℕ) × IsBuffered ready edited cons

receive-IsBuffered :
    (input : List ℕ) (ready edited : ℕ) (cons : Cons)
    → IsBuffered ready edited cons
    → (ready' : ℕ) × (edited' : ℕ) × IsBuffered ready' edited' (receive input cons)
unfolding receive
receive-IsBuffered [] ready edited cons b = (ready, edited, b)
receive-IsBuffered (c ∷ cs) ready edited cons b =
    let (ready1, edited1, b1, more, same, old) = consoleintr-Keeps ready edited c cons b in
    receive-IsBuffered cs ready1 edited1 (consoleintr c cons) b1

-- More characters put in behind the queue, and then some sent from its front.
order-step :
    (held put sent q extra out rest : List ℕ)
    → held ++ put ≡ sent ++ q
    → q ++ extra ≡ out ++ rest
    → held ++ (put ++ extra) ≡ sent ++ out ++ rest
order-step held put sent q extra out rest before parts =
    sym (append_assoc held put extra)
    ∙ ap (λ l. l ++ extra) before
    ∙ append_assoc sent q extra
    ∙ ap (λ l. sent ++ l) parts
    ∙ sym (append_assoc sent out rest)

pub uartputc-Sends :
    (idle : ℕ → Bool) (c : ℕ) (q out : List ℕ) (u after : Uart)
    → Holds u q
    → uartputc idle c u ≡ some (out, after)
    → Sends idle 0 (q ++ (c ∷ [])) (out, after)
unfolding uartputc
uartputc-Sends idle c q out u after h done = by_room (has_no_room u) refl done
  where
    sent_of : List ℕ × Uart → Option (List ℕ × Uart) → List ℕ × Uart
    sent_of r none = r
    sent_of r (some x) = x

    by_room :
        (full : Bool)
        → has_no_room u ≡ full
        → (if full then none else some (uartstart idle (put_char c u))) ≡ some (out, after)
        → Sends idle 0 (q ++ (c ∷ [])) (out, after)
    by_room true e done = absurd (not_none (out, after) done)
      where
        not_none : (r : List ℕ × Uart) → none ≡ some r → ⊥
        not_none r e = cc
    by_room false e done =
        subst (Sends idle 0 (q ++ (c ∷ []))) (ap (sent_of (out, after)) done)
          (uartstart-Sends idle (q ++ (c ∷ [])) (put_char c u) (put_char-Holds u c q h e))

-- For every sequence of calls of `uartputc` and interrupts that starts with a buffer that holds a
-- queue of at most 32 characters, whichever values the counters have and whenever the device is
-- busy: the characters held at first and then those put in are, in this order, those sent and
-- then those still held, none lost or sent twice; and the counters of the console, which the
-- interrupts feed, stay in order.
pub Runs-InOrder :
    (s s' : Uart × Cons) (held put sent : List ℕ) (ready edited : ℕ)
    → Holds s.0 held
    → IsBuffered ready edited s.1
    → Runs s put sent s'
    → InOrder held put sent s'
unfolding uartintr
Runs-InOrder s _ held _ _ ready edited h b (starts _) = (held, append-nil held, h, ready, edited, b)
Runs-InOrder s _ held _ _ ready edited h b (puts _ put0 sent0 u cons run idle c out after done) =
    let (q, before, hq, ready1, edited1, b1) =
      Runs-InOrder s (u, cons) held put0 sent0 ready edited h b run in
    let (rest, parts, h2, why) = uartputc-Sends idle c q out u after hq done in
    (rest, order-step held put0 sent0 q (c ∷ []) out rest before parts, h2, ready1, edited1, b1)
Runs-InOrder s _ held _ _ ready edited h b (interrupts _ put0 sent0 u cons run idle input) =
    let (q, before, hq, ready1, edited1, b1) =
      Runs-InOrder s (u, cons) held put0 sent0 ready edited h b run in
    let (rest, parts, h2, why) = uartstart-Sends idle q u hq in
    let (ready2, edited2, b2) = receive-IsBuffered input ready1 edited1 cons b1 in
    (
      rest,
      before ∙ ap (λ l. sent0 ++ l) parts ∙ sym (append_assoc sent0 (uartstart idle u).0 rest),
      h2,
      ready2,
      edited2,
      b2,
    )
