-- ===== src/Sched/Mlfq/Ageing/Fuel.antt =====
-- The fuel of the ageing loop: no round makes its queue longer, so that the loop's length at the start
-- bounds its rounds.
use modified_riscv.Base.{
  ℕ, zero, suc, ◌+◌, ◌-◌, ◌≤◌, ◌≡◌, refl, false, ◌&&◌, Option, some, List, ltb, ◌==◌, update,
  get_elem?, set, arith, Bool-cases, inl, inr, update_self, Allows, bind-Allows, anything,
  bind-eq_of,
}
use modified_riscv.Proc.{Proc, is_runnable}
use modified_riscv.Sched.Mlfq.{Queue, pid_of, remove_loop, remove_from_queue}
use modified_riscv.Sched.Mlfq.Ageing.{Mlfq, has_waited, push, promote, move_up, age_body, age_loop}

remove_loop-len :
    (table : List Proc) (pid n i : ℕ) (q : Queue)
    → Allows (remove_loop table pid i n q) (λ q'. q'.len ≤ q.len)
unfolding remove_loop
remove_loop-len table pid zero i q = omega arith
remove_loop-len table pid (suc n) i q =
    bind-Allows (pid_of table (q.slot i)) _ (λ _. Unit {0}) _ (anything (pid_of table (q.slot i)))
      (λ pid' u. elim (Bool-cases (pid' == pid)) [
        | inl e ↦ rw e (omega arith)
        | inr e ↦ rw e (remove_loop-len table pid n (i + 1) q)
      ])

abbrev Shrinks : ℕ → (ℕ → Queue) → (ℕ → Queue) → Type 0
Shrinks level queue queue' = (queue' level).len ≤ (queue level).len

move_up-len :
    (table : List Proc) (pid : ℕ) (ptr : Option ℕ) (level : ℕ) (queue : ℕ → Queue)
    → Allows (move_up table pid ptr level queue) (Shrinks level queue)
unfolding move_up remove_from_queue
move_up-len table pid ptr level queue =
    bind-Allows (push ptr (queue (level - 1))) _ (λ _. Unit {0}) _
      (anything (push ptr (queue (level - 1))))
      (λ upper u.
        bind-Allows (remove_from_queue table pid shorter) _ _ _
          (remove_loop-len table pid shorter.len 0 shorter)
          (λ lower h. rw (update_self (update queue (level - 1) upper) level lower) (omega arith)))
  where
    shorter : Queue
    shorter = record (queue level) { len = (queue level).len - 1 }

age_body-len :
    (ticks level i : ℕ) (m : Mlfq)
    → Allows (age_body ticks level i m) (λ m'. Shrinks level m.queue m'.queue)
unfolding age_body
age_body-len ticks level i m =
    bind-Allows ((m.queue level).slot i) _ (λ _. Unit {0}) _ (anything ((m.queue level).slot i))
      (λ b u.
        bind-Allows (get_elem? m.table b) _ (λ _. Unit {0}) _ (anything (get_elem? m.table b))
          (λ p v. elim (Bool-cases (is_runnable p && has_waited ticks p)) [
            | inl e ↦ rw e (
                bind-Allows (promote ticks p) _ (λ _. Unit {0}) _ (anything (promote ticks p))
                  (λ p' w.
                    bind-Allows
                      (move_up (set m.table b p') p.pid ((m.queue level).slot i) level m.queue) _ _
                      _
                      (move_up-len (set m.table b p') p.pid ((m.queue level).slot i) level m.queue)
                      (λ queue' h. h)))
            | inr e ↦ rw e (omega arith)
          ]))

age_loop-done :
    (n ticks level i : ℕ) (m : Mlfq) → (m.queue level).len ≤ i → age_loop ticks level n i m ≡ some m
unfolding age_loop
age_loop-done zero ticks level i m h = refl
age_loop-done (suc n) ticks level i m h =
    let ended : ltb i (m.queue level).len ≡ false = ground arith in rw ended

-- The ageing loop ends by its test: with fuel for the entries from index `i` on, any more fuel gives
-- the same result.
pub age_loop-fuel :
    (n k ticks level i : ℕ) (m : Mlfq)
    → (m.queue level).len ≤ i + n
    → age_loop ticks level (n + k) i m ≡ age_loop ticks level n i m
unfolding age_loop
age_loop-fuel zero k ticks level i m h = age_loop-done (0 + k) ticks level i m (omega arith)
age_loop-fuel (suc n) k ticks level i m h =
    let count : suc n + k ≡ suc (n + k) = omega arith in
    rw count (elim (Bool-cases (ltb i (m.queue level).len)) [
      | inl e ↦ rw e (
          bind-eq_of (age_body ticks level i m) _ _ _ (age_body-len ticks level i m)
            (λ m' s. age_loop-fuel n k ticks level (i + 1) m' (omega arith)))
      | inr e ↦ rw e
    ])
