-- ===== src/Sched/Mlfq/Ageing/Loses.antt =====
-- What one round of the ageing does to the two queues.
use modified_riscv.Base.{
  ℕ, zero, suc, ◌+◌, ◌-◌, ◌<◌, ◌≤◌, ◌≡◌, refl, ◌∙◌, ap, Bool, true, Option, none, some, List, [],
  ◌∷◌, ◌++◌, ◌==◌, update, get_elem?, set, get_elem?-set_there, subst, get_elem?-set_ne, arith,
  update_self, update_ne, lt→ltb, ℕ_discrete, Returns, bind-Returns,
}
use native.Mathlib.Nat.{zero-add}
use native.Mathlib.Numerals.{add-one}
use modified_riscv.Base.Int.{pos, ◌-ℤ◌}
use modified_riscv.Proc.{Proc, is_runnable, nproc}
use modified_riscv.Sched.Mlfq.{Queue, entries, contents, pid_of, remove_from_queue}
use modified_riscv.Sched.Mlfq.Remove.{erase_first, IsLive, remove_from_queue_lem}
use modified_riscv.Sched.Mlfq.Ageing.{
  Mlfq, has_waited, clear_ticks, push, promote, move_up, age_body,
}

entries-suc :
    (slot : ℕ → Option ℕ) (n i : ℕ)
    → entries slot i (suc n) ≡ entries slot i n ++ (slot (i + n) ∷ [])
entries-suc slot zero i = ground arith
entries-suc slot (suc n) i =
    ap (λ r. slot i ∷ r)
      (entries-suc slot n (i + 1) ∙ ap (λ j. entries slot (i + 1) n ++ (slot j ∷ [])) i_shift)
  where
    i_shift : i + 1 + n ≡ i + suc n
    i_shift = omega arith

entries-update :
    (slot : ℕ → Option ℕ) (n i j : ℕ) (ptr : Option ℕ)
    → i + n ≤ j
    → entries (update slot j ptr) i n ≡ entries slot i n
entries-update slot zero i j ptr h = refl
entries-update slot (suc n) i j ptr h =
    rw (entries-update slot n (i + 1) j ptr (omega arith)) (ground arith)

-- `push` appends the entry.
pub push_lem :
    (ptr : Option ℕ) (q : Queue)
    → q.len < nproc
    → Returns (push ptr q) (λ q'. contents q' ≡ contents q ++ (ptr ∷ []))
unfolding push
push_lem ptr q h = rw (
  lt→ltb _ _ h,
  add-one,
  entries-suc (update q.slot q.len ptr) q.len 0,
  zero-add,
  entries-update q.slot q.len 0 q.len ptr (omega arith),
  update_self q.slot q.len ptr,
)

-- A change of a process that keeps its pid keeps every pid.
pid_of-set :
    (table : List Proc) (b : ℕ) (p p' : Proc) (ptr : Option ℕ)
    → get_elem? table b ≡ some p
    → p'.pid ≡ p.pid
    → pid_of (set table b p') ptr ≡ pid_of table ptr
unfolding pid_of
pid_of-set table b p p' none h e = refl
pid_of-set table b p p' (some i) h e = elim (ℕ_discrete b i) [
  | yes here ↦
      subst (λ j. pid_of (set table b p') (some j) ≡ pid_of table (some j)) here
        (rw (get_elem?-set_there table b p p' h, h, e))
  | no other ↦ rw (get_elem?-set_ne table b i p' other)
]

-- The other effect on the process: it is one queue up, with fresh ticks.
promote_lem :
    (ticks : ℕ) (p : Proc) (c : ℕ)
    → p.curr_queue ≡ pos (suc c)
    → c < 5
    → Returns (promote ticks p) (λ p'. (p'.pid ≡ p.pid) × (p'.curr_queue ≡ pos c))
unfolding promote
promote_lem ticks p c e h =
    let down : p.curr_queue -ℤ pos 1 ≡ pos c = ground arith in
    rw (down, clear_ticks, lt→ltb _ _ h) (refl, refl)

-- What the round does to the two queues: the entry is appended to the upper one, and from the lower
-- one both its last entry and the first one with the pid are gone.
abbrev IsMoved : ℕ → Option ℕ → (ℕ → Queue) → (Option ℕ → Bool) → (ℕ → Queue) → Type 0
IsMoved level ptr queue has_pid queue' =
    (contents (queue' (level - 1)) ≡ contents (queue (level - 1)) ++ (ptr ∷ []))
    × (contents (queue' level)
        ≡ erase_first has_pid (entries (queue level).slot 0 ((queue level).len - 1)))

move_up_lem :
    (table : List Proc) (pids : Option ℕ → ℕ) (pid : ℕ) (ptr : Option ℕ) (level : ℕ)
    (queue : ℕ → Queue)
    → 0 < level
    → (queue (level - 1)).len < nproc
    → IsLive table pids (queue level).slot 0 ((queue level).len - 1)
    → Returns (move_up table pid ptr level queue) (IsMoved level ptr queue (λ x. pids x == pid))
unfolding move_up
move_up_lem table pids pid ptr level queue low room live =
    bind-Returns (push ptr (queue (level - 1))) _ _ _ (push_lem ptr (queue (level - 1)) room)
      (λ upper hu.
        bind-Returns (remove_from_queue table pid shorter) _ _ _
          (remove_from_queue_lem table pids pid shorter live)
          (λ lower hl. (at_upper upper lower hu, at_lower upper lower hl)))
  where
    shorter : Queue
    shorter = record (queue level) { len = (queue level).len - 1 }

    at_upper :
        (upper lower : Queue)
        → contents upper ≡ contents (queue (level - 1)) ++ (ptr ∷ [])
        → contents (update (update queue (level - 1) upper) level lower (level - 1))
          ≡ contents (queue (level - 1)) ++ (ptr ∷ [])
    at_upper upper lower hu =
        rw
          (
            update_ne (update queue (level - 1) upper) level (level - 1) lower (omega arith),
            update_self queue (level - 1) upper,
          )
          hu

    at_lower :
        (upper lower : Queue) {l : List (Option ℕ)}
        → contents lower ≡ l
        → contents (update (update queue (level - 1) upper) level lower level) ≡ l
    at_lower upper lower hl = rw (update_self (update queue (level - 1) upper) level lower) hl

-- When the process at index `i` of a queue has waited long enough, one round of the ageing appends it
-- to the next upper queue, if there is room. The lower queue loses that entry, and its last entry too
-- where that is another one: what is left is the entries but the last, without the first one that
-- has the pid.
pub age_body_lem :
    (ticks level i b c : ℕ) (p : Proc) (m : Mlfq) (pids : Option ℕ → ℕ)
    → 0 < level
    → (m.queue level).slot i ≡ some b
    → get_elem? m.table b ≡ some p
    → is_runnable p ≡ true
    → has_waited ticks p ≡ true
    → p.curr_queue ≡ pos (suc c)
    → c < 5
    → (m.queue (level - 1)).len < nproc
    → IsLive m.table pids (m.queue level).slot 0 ((m.queue level).len - 1)
    → Returns
        (age_body ticks level i m)
        (λ m'. IsMoved level (some b) m.queue (λ x. pids x == p.pid) m'.queue)
unfolding age_body
age_body_lem ticks level i b c p m pids low at_i there ready waited cq small room live =
    rw (at_i, there, ready, waited)
      (bind-Returns (promote ticks p) _ _ _ (promote_lem ticks p c cq small) (λ p' h.
        bind-Returns (move_up (set m.table b p') p.pid (some b) level m.queue) _ _ _
          (move_up_lem (set m.table b p') pids p.pid (some b) level m.queue low room (λ k lt.
            pid_of-set m.table b p p' ((m.queue level).slot (0 + k)) there h.0 ∙ live k lt))
          (λ queue' moved. moved)))
