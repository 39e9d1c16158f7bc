-- ===== src/Lifecycle/Memory.antt =====
-- What the process table needs of the memory: pages from kernel/kalloc.c, and the page tables of
-- kernel/vm.c. A null pointer is 0, and `none` is a panic.
use modified_riscv.Base.{ℕ, Option}
use modified_riscv.Kalloc
use modified_riscv.Kalloc.{Kmem}

pub record Memory : Type 1 where
  pub Mem : Type 0
  pub kalloc : Mem → ℕ × Mem
  pub kfree : ℕ → Mem → Option Mem
  pub proc_pagetable : ℕ → Mem → ℕ × Mem
  pub proc_freepagetable : ℕ → ℕ → Mem → Option Mem

-- The allocator of kernel/kalloc.c, beside page-table functions that work on the same memory.
abbrev pub kernel_memory : ℕ → (ℕ → Kmem → ℕ × Kmem) → (ℕ → ℕ → Kmem → Option Kmem) → Memory
kernel_memory kernel_end make_table free_table = record {
  Mem = Kmem;
  kalloc = Kalloc.kalloc;
  kfree = Kalloc.kfree kernel_end;
  proc_pagetable = make_table;
  proc_freepagetable = free_table;
}
