-- ===== src/Lifecycle/Alloc/Leaks.antt =====
-- The ends of `allocproc`, and what `freeproc` does to the saved trapframe's page.
use modified_riscv.Base.{
  ℕ, ◌+◌, ◌<◌, ◌≡◌, ◌≢◌, refl, false, Option, none, some, ◌==◌, set, arith, ◌>>=◌, Returns, lt→ltb,
  update_self,
}
use modified_riscv.Proc.{Proc, used, nproc}
use modified_riscv.Kalloc
use modified_riscv.Kalloc.{Kmem, IsPage}
use modified_riscv.Kalloc.Refine.{page-accepted}
use modified_riscv.Sched.Mlfq.Ageing.{push}
use modified_riscv.Lifecycle.Memory.{Memory, kernel_memory}
use modified_riscv.Lifecycle.Alloc.{
  find_unused, Kernel, freeproc, fill_entry, allocproc, alloc_found,
}

abbrev pub first_page : (memory : Memory) → memory.Mem → ℕ × memory.Mem
first_page memory m = memory.kalloc m

-- The trapframe's page and the page table of a new process, and the memory after them.
abbrev pub new_table : (memory : Memory) → memory.Mem → ℕ × memory.Mem
new_table memory m = let (frame, m1) = memory.kalloc m in memory.proc_pagetable frame m1

-- The page for the saved trapframe, allocated last.
abbrev pub copy_page : (memory : Memory) → memory.Mem → ℕ
copy_page memory m = (memory.kalloc (new_table memory m).1).0

module _ (memory : Memory) (forkret i : ℕ) (p : Proc) (k : Kernel memory) where
  -- An entry is free, `queue0` has room, and the first page and the page table can be allocated.
  pub record CanStart : Type 0 where
    pub found : find_unused k.table 0 ≡ some (i, p)
    pub room : k.queue0.len < nproc
    pub frame : (first_page memory k.mem).0 ≢ 0
    pub table : (new_table memory k.mem).0 ≢ 0

  -- The entry of the new process, which takes over what `allocproc` does not set.
  pub record IsNew (q : Proc) : Type 0 where
    pub pid : q.pid ≡ k.nextpid
    pub state : q.state ≡ used
    pub born : q.creation_time ≡ k.ticks
    pub frame : q.trapframe ≡ (first_page memory k.mem).0
    pub table : q.pagetable ≡ (new_table memory k.mem).0
    pub still_killed : q.killed ≡ p.killed
    pub ran_before : q.tot_run_time ≡ p.tot_run_time
    pub traced : q.mask ≡ p.mask

  ne-test : (n : ℕ) → n ≢ 0 → (n == 0) ≡ false
  ne-test n h = ground arith

  -- With the last page too, `allocproc` returns the entry, numbered and USED, and `queue0` is one
  -- longer. The kill
  -- flag, the total run time and the trace mask are those that the entry's former process left.
  pub allocproc_done :
      CanStart
      → copy_page memory k.mem ≢ 0
      → Returns (allocproc memory forkret k) (λ r.
        (r.0 ≡ some i)
        × (r.1.nextpid ≡ k.nextpid + 1)
        × (r.1.queue0.len ≡ k.queue0.len + 1)
        × ((q : Proc) × (r.1.table ≡ set k.table i q)
            × IsNew q
            × (q.trapframe_copy ≡ copy_page memory k.mem)))
  unfolding allocproc alloc_found push fill_entry
  allocproc_done can copy =
      rw (can.found, lt→ltb _ _ can.room, ne-test _ can.frame, ne-test _ can.table, ne-test _ copy)
        (
          refl,
          refl,
          refl,
          (
            _,
            refl,
            record {
              pid = refl;
              state = refl;
              born = refl;
              frame = refl;
              table = refl;
              still_killed = refl;
              ran_before = refl;
              traced = refl;
            },
            refl,
          ),
        )

  -- Where only the last page is missing, `allocproc` returns null and leaves the entry USED, with its
  -- pid, its trapframe's page and its page table.
  pub allocproc_leaks :
      CanStart
      → copy_page memory k.mem ≡ 0
      → Returns (allocproc memory forkret k) (λ r.
        (r.0 ≡ none)
        × (r.1.queue0.len ≡ k.queue0.len + 1)
        × ((q : Proc) × (r.1.table ≡ set k.table i q) × IsNew q))
  unfolding allocproc alloc_found push fill_entry
  allocproc_leaks can copy =
      rw (can.found, lt→ltb _ _ can.room, ne-test _ can.frame, ne-test _ can.table, copy)
        (
          refl,
          refl,
          (
            _,
            refl,
            record {
              pid = refl;
              state = refl;
              born = refl;
              frame = refl;
              table = refl;
              still_killed = refl;
              ran_before = refl;
              traced = refl;
            },
          ),
        )

  -- Where `queue0` is full and there is an UNUSED entry, `allocproc` writes past the end of `queue0`.
  pub allocproc_overflows :
      find_unused k.table 0 ≡ some (i, p) → k.queue0.len ≡ nproc → allocproc memory forkret k ≡ none
  unfolding allocproc alloc_found push
  allocproc_overflows found full = rw (found, full)

module _ (kernel_end : ℕ) (make_table : ℕ → Kmem → ℕ × Kmem)
    (free_table : ℕ → ℕ → Kmem → Option Kmem) where
  abbrev memory : Memory
  memory = kernel_memory kernel_end make_table free_table

  positive-test : (n : ℕ) → 0 < n → (n == 0) ≡ false
  positive-test n h = ground arith

  -- Frees the entry twice, then allocates two pages.
  abbrev pub free_twice : Proc → Kmem → Option (ℕ × ℕ)
  free_twice p k = freeproc memory p k >>= λ r. freeproc memory r.0 r.1 >>= λ s.
      let (a, k') = Kalloc.kalloc s.1 in some (a, (Kalloc.kalloc k').0)

  -- Where an entry has a page for the saved trapframe and no page table, two runs of `freeproc` on it
  -- free that page twice, and the allocator then gives it to two callers.
  pub freeproc_twice :
      (p : Proc) (k : Kmem)
      → IsPage kernel_end p.trapframe_copy
      → 0 < kernel_end
      → p.pagetable ≡ 0
      → Returns (free_twice p k) (λ r. (r.0 ≡ p.trapframe_copy) × (r.1 ≡ p.trapframe_copy))
  unfolding freeproc Kalloc.kfree Kalloc.kalloc
  freeproc_twice p k page positive no_table =
      let accepted : Kalloc.refuses kernel_end p.trapframe_copy ≡ false =
        page-accepted kernel_end positive p.trapframe_copy page in
      let not_null : (p.trapframe_copy == 0) ≡ false =
        positive-test p.trapframe_copy (omega (arith, page.low)) in
      rw (not_null, no_table, accepted)
        (rw (not_null, accepted) (rw (update_self, not_null, update_self) (ground arith)))
