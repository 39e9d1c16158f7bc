-- ===== src/Sched/Mlfq/Serve/Release.antt =====
-- Which lock the serving of a queue gives back.
use modified_riscv.Base.{
  ℕ, ◌+◌, ◌-◌, ◌<◌, ◌≡◌, refl, ◌∙◌, Bool, true, false, Option, none, some, inl, inr, update,
  get_elem?, arith, Bool-cases, update_self, update_ne, Allows, bind-Allows, anything, bind-eq-none,
}
use modified_riscv.Proc.{Proc, is_runnable}
use modified_riscv.Sched.Scan.{acquire, release}
use modified_riscv.Sched.Mlfq.{Queue}
use modified_riscv.Sched.Mlfq.Remove.{shift_lem}
use modified_riscv.Sched.Mlfq.Ageing.{Mlfq, push}
use modified_riscv.Sched.Mlfq.Serve.{
  demotes, requeue, drop_entry, Served, switched, run_entry, run_if_ready, release_slot, serve_body,
}

requeue-same :
    (level b : ℕ) (p : Proc) (queue : ℕ → Queue)
    → Allows (requeue level b p queue) (λ queue'. queue' level ≡ queue level)
unfolding requeue
requeue-same level b p queue = elim (Bool-cases (demotes level p)) [
  | inl e ↦ rw e (
      bind-Allows (push (some b) (queue (level + 1))) _ (λ _. Unit {0}) _
        (anything (push (some b) (queue (level + 1))))
        (λ lower u. update_ne queue (level + 1) level lower (omega arith)))
  | inr e ↦ rw e refl
]

-- After the turn the next entry stands at index `i`, and the locks are as they were.
abbrev NextEntry : ℕ → ℕ → (ℕ → Bool) → Mlfq → Served → Type 0
NextEntry level i held m s' =
    ((s'.mlfq.queue level).slot i ≡ (m.queue level).slot (i + 1)) × (s'.held ≡ held)

run_entry-NextEntry :
    (swtch : ℕ → Mlfq → Mlfq) (ticks level i b : ℕ) (p : Proc) (held : ℕ → Bool) (m : Mlfq)
    → i < ((switched swtch ticks b p m).queue level).len
    → Allows
        (run_entry swtch ticks level i b p held m)
        (NextEntry level i held (switched swtch ticks b p m))
unfolding run_entry
run_entry-NextEntry swtch ticks level i b p held m lt =
    bind-Allows (get_elem? after.table b) _ (λ _. Unit {0}) _ (anything (get_elem? after.table b))
      (λ p' u.
        bind-Allows (requeue level b p' after.queue) _ _ _ (requeue-same level b p' after.queue)
          (λ queue same. (
            rw (update_self queue level (drop_entry i (queue level)), same)
                (shift_lem ((after.queue level).len - i) i (after.queue level).slot i
                  ∙ ground arith),
            refl,
          )))
  where
    after : Mlfq
    after = switched swtch ticks b p m

-- The lock at a pointer is not held: the pointer is null, or that process's lock is free.
abbrev pub IsUnlocked : (ℕ → Bool) → Option ℕ → Type 0
IsUnlocked held none = Unit {0}
IsUnlocked held (some c) = held c ≡ false

release_slot-none :
    (level i : ℕ) (s : Served) (ptr : Option ℕ)
    → (s.mlfq.queue level).slot i ≡ ptr
    → IsUnlocked s.held ptr
    → release_slot level i s ≡ none
unfolding release_slot release
release_slot-none level i s none e h = rw e
release_slot-none level i s (some c) e h = rw (e, h)

-- Serving a runnable process of the queues 0 to 3 ends in a fault, if its queue still reaches
-- past its index when the process has given the CPU back, and the next entry of the queue is then
-- null or another process whose lock the CPU does not hold: the queue has been shifted when the
-- lock of the entry is released, so that the lock is that of the next one.
pub serve_body-none :
    (swtch : ℕ → Mlfq → Mlfq) (ticks level i b : ℕ) (p : Proc) (s : Served)
    → (s.mlfq.queue level).slot i ≡ some b
    → s.held b ≡ false
    → get_elem? s.mlfq.table b ≡ some p
    → is_runnable p ≡ true
    → i < ((switched swtch ticks b p s.mlfq).queue level).len
    → IsUnlocked
        (update s.held b true)
        (((switched swtch ticks b p s.mlfq).queue level).slot (i + 1))
    → serve_body swtch ticks level i s ≡ none
unfolding serve_body acquire run_if_ready
serve_body-none swtch ticks level i b p s at_i free there ready lt next =
    rw (at_i, free, there, ready)
      (bind-eq-none (run_entry swtch ticks level i b p (update s.held b true) s.mlfq) _ _
        (run_entry-NextEntry swtch ticks level i b p (update s.held b true) s.mlfq lt)
        (λ s' h.
          release_slot-none level i s'
            (((switched swtch ticks b p s.mlfq).queue level).slot (i + 1)) h.0 (rw h.1 next)))
