-- ===== src/Vm/Table.antt =====
-- kernel/vm.c: the page tables, in the words of the physical memory beside the allocator's free list.
-- A page table entry is the word that C computes; an address of an entry is that of its word.
pub mod Tree
pub mod Grow
pub mod Extend
pub mod Link
pub mod Walk
pub mod Leaf
pub mod Mapping
pub mod Rounds
pub mod Lookup
pub mod Copy
use modified_riscv.Base.{
  ℕ, zero, suc, ◌+◌, ◌-◌, ◌*◌, ◌/◌, ◌%◌, ◌^◌, Bool, true, false, ◌&&◌, ◌||◌, not, Option, none,
  some, leb, ltb, ◌==◌, if◌then◌else◌, update, ◌>>=◌,
}
use modified_riscv.Kalloc.{pgsize, Kmem, memset_page, kalloc}
use modified_riscv.Vm.{pgrounddown}

-- MAXVA
abbrev pub maxva : ℕ
maxva = 2 ^ 38

-- pte & PTE_V and pte & PTE_U
abbrev pub is_valid : ℕ → Bool
is_valid pte = pte % 2 == 1

abbrev pub is_user : ℕ → Bool
is_user pte = pte / 16 % 2 == 1

-- PTE2PA
abbrev pub pte2pa : ℕ → ℕ
pte2pa pte = pte / 1024 * 4096

-- PA2PTE(pa) | perm | PTE_V, for flags below the ten bits of PTE_FLAGS
abbrev pub pa2pte : ℕ → ℕ → ℕ
pa2pte pa perm = pa / 4096 * 1024 + (perm / 2 * 2 + 1)

-- PX(level, va)
abbrev pub px : ℕ → ℕ → ℕ
px level va = va / 2 ^ (12 + 9 * level) % 512

-- &pagetable[PX(level, va)]
abbrev pub slot : ℕ → ℕ → ℕ → ℕ
slot level va pagetable = pagetable + 8 * px level va

-- A new page table in the entry at `pte`: memset(pagetable, 0, PGSIZE), and the entry for it.
abbrev pub new_table : ℕ → ℕ → Kmem → Kmem
new_table pagetable pte k = record k {
  mem = update (memset_page pagetable 0 k.mem) pte (pa2pte pagetable 0);
}

-- The loop of `walk` from `level` on, and the result: the address of an entry, or 0.
unfoldable pub walk_from : Bool → ℕ → ℕ → ℕ → Kmem → Option ℕ × Kmem
walk_from alloc zero va pagetable k = (some (slot 0 va pagetable), k)
walk_from alloc (suc l) va pagetable k =
    let pte = slot (suc l) va pagetable in
    let (page, k1) = kalloc k in
    let down = walk_from alloc l va (pte2pa (k.mem pte)) k in
    let made = walk_from alloc l va page (new_table page pte k1) in
    if is_valid (k.mem pte)
    then down
    else if not alloc
    then (none, k)
    else if page == 0
    then (none, k1)
    else made

-- `none` is the panic.
unfoldable pub walk : Bool → ℕ → ℕ → Kmem → Option (Option ℕ × Kmem)
unfolding walk_from
walk alloc pagetable va k = if leb maxva va then none else some (walk_from alloc 2 va pagetable k)

-- `walkaddr`, which allocates nothing
unfoldable pub walkaddr : ℕ → ℕ → Kmem → ℕ
unfolding walk_from
walkaddr pagetable va k = if leb maxva va then 0 else elim (walk_from false 2 va pagetable k).0 [
  | none ↦ 0
  | some pte ↦
      if not (is_valid (k.mem pte))
      then 0
      else if not (is_user (k.mem pte))
      then 0
      else pte2pa (k.mem pte)
]

-- The loop of `mappages` for the pages from `a` on, with the number of rounds left: whether it returns
-- 0. `none` is a panic.
unfoldable pub map_loop : ℕ → ℕ → ℕ → ℕ → ℕ → Kmem → Option (Bool × Kmem)
unfolding walk
map_loop pagetable a zero pa perm k = some (true, k)
map_loop pagetable a (suc n) pa perm k = walk true pagetable a k >>= λ (found, k1). elim found [
  | none ↦ some (false, k1)
  | some pte ↦
      if is_valid (k1.mem pte)
      then none
      else map_loop pagetable (a + pgsize) n (pa + pgsize) perm
          (record k1 { mem = update k1.mem pte (pa2pte pa perm) })
]

-- The rounds from PGROUNDDOWN(va) to PGROUNDDOWN(va + size - 1)
unfoldable pub mappages : ℕ → ℕ → ℕ → ℕ → ℕ → Kmem → Option (Bool × Kmem)
unfolding map_loop
mappages pagetable va size pa perm k =
    if size == 0
    then none
    else map_loop pagetable (pgrounddown va)
        ((pgrounddown (va + size - 1) - pgrounddown va) / pgsize + 1) pa perm k

-- `kvmmap`, which panics where `mappages` fails
unfoldable pub kvmmap : ℕ → ℕ → ℕ → ℕ → ℕ → Kmem → Option Kmem
unfolding mappages
kvmmap pagetable va pa size perm k =
    mappages pagetable va size pa perm k >>= λ (ok, after). if ok then some after else none
