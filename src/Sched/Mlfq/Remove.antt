-- ===== src/Sched/Mlfq/Remove.antt =====
-- `remove_from_queue` takes the first entry with the pid out of the list of entries.
use modified_riscv.Base.{
  ℕ, zero, suc, ◌+◌, ◌-◌, ◌<◌, ◌≤◌, ◌≡◌, refl, ◌∙◌, ap₂, Bool, true, false, Option, some, List, [],
  ◌∷◌, ◌==◌, if◌then◌else◌, update, arith, Bool-cases, inl, inr, ltb, leb, ◌&&◌, Returns,
  Returns-map,
}
use native.Mathlib.Nat.{sub-zero}
use modified_riscv.Proc.{Proc}
use modified_riscv.Sched.Mlfq.{
  Queue, entries, contents, pid_of, shift, remove_loop, remove_from_queue,
}

-- Without the first entry that passes the test.
abbrev pub erase_first : (Option ℕ → Bool) → List (Option ℕ) → List (Option ℕ)
erase_first f [] = []
erase_first f (x ∷ xs) = if f x then xs else x ∷ erase_first f xs

pub shift_lem :
    (k j : ℕ) (slot : ℕ → Option ℕ) (x : ℕ)
    → shift j k slot x ≡ (if leb j x && ltb x (j + k) then slot (x + 1) else slot x)
unfolding shift
shift_lem zero j slot x = ground arith
shift_lem (suc k) j slot x = shift_lem k (j + 1) (update slot j (slot (j + 1))) x ∙ ground arith

entries_ext :
    (n i j : ℕ) (f g : ℕ → Option ℕ)
    → ((k : ℕ) → k < n → f (i + k) ≡ g (j + k))
    → entries f i n ≡ entries g j n
entries_ext zero i j f g h = refl
entries_ext (suc n) i j f g h =
    ap₂ ◌∷◌ (ground (arith, h 0))
      (entries_ext n (i + 1) (j + 1) f g (λ k lt. ground (arith, h (suc k) (omega arith))))

-- The `n` entries from `i` on point to processes, whose pids `pids` gives.
abbrev pub IsLive : List Proc → (Option ℕ → ℕ) → (ℕ → Option ℕ) → ℕ → ℕ → Type 0
IsLive table pids slot i n =
    (k : ℕ) → k < n → pid_of table (slot (i + k)) ≡ some (pids (slot (i + k)))

module _ (table : List Proc) (pids : Option ℕ → ℕ) (pid : ℕ) where
  abbrev has_pid : Option ℕ → Bool
  has_pid ptr = pids ptr == pid

  -- What the loop leaves, started at index `i` with `n` entries to go.
  record Removed (i n : ℕ) (q q' : Queue) : Type 0 where
    rest : entries q'.slot i (q'.len - i) ≡ erase_first has_pid (entries q.slot i n)
    before : (x : ℕ) → x < i → q'.slot x ≡ q.slot x
    room : i ≤ q'.len

  shifted :
      (n i : ℕ) (q : Queue)
      → i + suc n ≡ q.len
      → has_pid (q.slot i) ≡ true
      → Removed i (suc n) q (record { slot = shift i (q.len - 1 - i) q.slot; len = q.len - 1 })
  shifted n i q e here = record {
    rest = rw (here, left) (entries_ext n i (i + 1) (shift i n q.slot) q.slot moved);
    before = λ x lt. shift_lem (q.len - 1 - i) i q.slot x ∙ ground arith;
    room = omega arith;
  }
    where
      left : q.len - 1 - i ≡ n
      left = omega arith

      moved : (k : ℕ) → k < n → shift i n q.slot (i + k) ≡ q.slot (i + 1 + k)
      moved k lt =
          let step : i + k + 1 ≡ i + 1 + k = omega arith in
          shift_lem n i q.slot (i + k) ∙ ground arith

  kept :
      (n i : ℕ) (q q' : Queue)
      → has_pid (q.slot i) ≡ false
      → Removed (i + 1) n q q'
      → Removed i (suc n) q q'
  kept n i q q' other r = record {
    rest = rw (count, other) (ap₂ ◌∷◌ (r.before i (omega arith)) r.rest);
    before = λ x lt. r.before x (omega arith);
    room = omega (arith, r.room);
  }
    where
      count : q'.len - i ≡ suc (q'.len - (i + 1))
      count = omega (arith, r.room)

  weaken :
      (n i : ℕ) (q : Queue) (o : Option Queue)
      → has_pid (q.slot i) ≡ false
      → Returns o (Removed (i + 1) n q)
      → Returns o (Removed i (suc n) q)
  weaken n i q o other h = Returns-map o _ _ h (λ q' r. kept n i q q' other r)

  remove_loop_lem :
      (n i : ℕ) (q : Queue)
      → i + n ≡ q.len
      → IsLive table pids q.slot i n
      → Returns (remove_loop table pid i n q) (Removed i n q)
  unfolding remove_loop
  remove_loop_lem zero i q e live =
      let none_left : q.len - i ≡ 0 = omega arith in
      record { rest = rw none_left; before = λ x lt. refl; room = omega arith }
  remove_loop_lem (suc n) i q e live = elim (Bool-cases (has_pid (q.slot i))) [
    | inl here ↦ rw (live_here, here) (shifted n i q e here)
    | inr other ↦
        rw (live_here, other)
          (weaken n i q (remove_loop table pid (i + 1) n q) other
            (remove_loop_lem n (i + 1) q (omega arith) (λ k lt. later k lt)))
  ]
    where
      live_here : pid_of table (q.slot i) ≡ some (pids (q.slot i))
      live_here = ground (arith, live 0)

      later : (k : ℕ) → k < n → pid_of table (q.slot (i + 1 + k)) ≡ some (pids (q.slot (i + 1 + k)))
      later k lt = ground (arith, live (suc k) (omega arith))

-- `remove_from_queue` takes the first entry with the pid out of the list of entries, and keeps the
-- others in order, where every entry points to a process.
pub remove_from_queue_lem :
    (table : List Proc) (pids : Option ℕ → ℕ) (pid : ℕ) (q : Queue)
    → IsLive table pids q.slot 0 q.len
    → Returns
        (remove_from_queue table pid q)
        (λ q'. contents q' ≡ erase_first (λ ptr. pids ptr == pid) (contents q))
unfolding remove_from_queue
remove_from_queue_lem table pids pid q live =
    Returns-map (remove_loop table pid 0 q.len q) _ _
      (remove_loop_lem table pids pid q.len 0 q (omega arith) live)
      (λ q' r. rw (← sub-zero q'.len) r.rest)
