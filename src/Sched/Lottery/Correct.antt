-- ===== src/Sched/Lottery/Correct.antt =====
-- What the lottery draws: the number is 0 for every seed, so the winner does not depend on it.
use modified_riscv.Base.{
  ℕ, zero, suc, ◌+◌, ◌*◌, ◌/◌, ◌%◌, ◌<◌, ◌≤◌, ◌≡◌, ℕ_discrete, refl, ◌∙◌, ap, Bool, true, false,
  Option, none, some, List, [], ◌∷◌, if◌then◌else◌, arith, All, update, Bool-cases, inl, inr,
  update_self, Returns, bind-Returns,
}
use modified_riscv.Base.Int.{ℤ, pos, ◌≤ℤ◌}
use modified_riscv.Proc.{Proc, is_runnable, modify}
use modified_riscv.Sched.Scan.{acquire, release, is_best}
use modified_riscv.Sched.Lottery.{
  getrand, total_tickets, wins, draw, Dispatch, set_running, dispatch, pick,
}

-- The quotients by 99 of the last two digits of the squares below `k` squared, added up.
quotient_sum : ℕ → ℕ
quotient_sum zero = 0
quotient_sum (suc k) = k * k % 100 / 99 + quotient_sum k

quotient-le : (x k : ℕ) → x < k → x * x % 100 / 99 ≤ quotient_sum k
unfolding quotient_sum
quotient-le x zero h = absurd (omega arith)
quotient-le x (suc k) h = elim (ℕ_discrete x k) [
  | yes e ↦ rw e (omega arith)
  | no ne ↦ omega (arith, quotient-le x k (omega arith))
]

-- A square never ends in 99: the sum over all last two digits is 0.
quotient_sum-zero : quotient_sum 100 ≡ 0
unfolding quotient_sum
quotient_sum-zero = refl

square_split : (q r : ℕ) → (q * 100 + r) * (q * 100 + r) % 100 ≡ r * r % 100
square_split q r = omega arith

square_mod : (n : ℕ) → n * n % 100 ≡ (n % 100) * (n % 100) % 100
square_mod n =
    let parts : n ≡ n / 100 * 100 + n % 100 = omega arith in
    ap (λ t. t * t % 100) parts ∙ square_split (n / 100) (n % 100)

square-div-zero : (n : ℕ) → n * n % 100 / 99 ≡ 0
square-div-zero n =
    rw square_mod (omega (arith, quotient-le (n % 100) 100 (omega arith), quotient_sum-zero))

-- `getrand` returns 0, whatever the seed and the number of tickets.
pub getrand-zero : (seed : ℕ) (tot : ℤ) → (getrand seed tot).1 ≡ pos 0
unfolding getrand
getrand-zero seed tot = rw square-div-zero (ground arith)

-- The first runnable process of the table, with its index.
unfoldable pub first_runnable : List Proc → ℕ → Option (ℕ × Proc)
first_runnable [] i = none
first_runnable (p ∷ ps) i = if is_runnable p then some (i, p) else first_runnable ps (i + 1)

abbrev pub IsHolder : Proc → Type 0
IsHolder p = pos 1 ≤ℤ p.tickets

release-acquire :
    (i : ℕ) (held : ℕ → Bool)
    → ((j : ℕ) → held j ≡ false)
    → Returns (release i (update held i true)) (λ h. (j : ℕ) → h j ≡ false)
unfolding release
release-acquire i held free = rw update_self (λ j. ground (arith, free j))

-- With no tickets passed yet, a draw of 0 stops at the first runnable process.
draw_zero :
    (ps : List Proc) (i : ℕ) (held : ℕ → Bool)
    → All IsHolder ps
    → ((j : ℕ) → held j ≡ false)
    → Returns
        (draw (pos 0) ps i (pos 0) held)
        (λ r. (r.0 ≡ first_runnable ps i) × ((j : ℕ) → r.1 j ≡ is_best r.0 j))
unfolding draw first_runnable acquire
draw_zero [] i held a free = (refl, free)
draw_zero (p ∷ ps) i held a free = elim (Bool-cases (is_runnable p)) [
  | inl e ↦
      let wins_here : wins (pos 0) p (pos 0) ≡ true = ground (arith, a.0) in
      rw (free i, draw, wins_here, e) (refl, λ j. ground (arith, free j))
  | inr e ↦
      let loses : wins (pos 0) p (pos 0) ≡ false = ground arith in
      rw (free i, loses, e)
        (bind-Returns (release i (update held i true)) _ _ _ (release-acquire i held free)
          (λ h free'. draw_zero ps (i + 1) h a.1 free'))
]

-- The machine at the switch, for the winner `c` of the lottery.
abbrev pub IsDispatchOf : List Proc → Option (ℕ × Proc) → Dispatch → Type 0
IsDispatchOf ps none d = (d.table ≡ ps) × (d.running_proc ≡ none)
IsDispatchOf ps (some (b, q)) d = (d.table ≡ modify b set_running ps) × (d.running_proc ≡ some b)

dispatch_lem :
    (ps : List Proc) (seed : ℕ) (c : Option (ℕ × Proc)) (held : ℕ → Bool)
    → IsDispatchOf ps c (dispatch ps seed c held) × ((dispatch ps seed c held).held ≡ held)
unfolding dispatch
dispatch_lem ps seed none held = ((refl, refl), refl)
dispatch_lem ps seed (some c) held = ((refl, refl), refl)

-- Where every process has a ticket at least, LBS runs the first runnable process of the table, for
-- every seed and however the tickets are spread; it never panics and holds that process's lock alone.
pub pick-first_runnable :
    (seed : ℕ) (ps : List Proc)
    → All IsHolder ps
    → Returns (pick seed ps) (λ d.
      IsDispatchOf ps (first_runnable ps 0) d
      × ((j : ℕ) → d.held j ≡ is_best (first_runnable ps 0) j))
unfolding pick
pick-first_runnable seed ps a = rw getrand-zero (
    bind-Returns (draw (pos 0) ps 0 (pos 0) (λ _. false)) _ _ _
      (draw_zero ps 0 (λ _. false) a (λ j. refl))
      (λ r h.
        let (is_of, held) = dispatch_lem ps (getrand seed (total_tickets (pos 0) ps)).0 r.0 r.1 in
        rw (← h.0) (is_of, λ j. rw held (h.1 j))))
