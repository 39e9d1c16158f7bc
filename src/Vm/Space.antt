-- ===== src/Vm/Space.antt =====
-- kernel/vm.c: the address space of a user, with its pages from the allocator.
pub mod Unmap
pub mod Release
pub mod Create
use modified_riscv.Base.{
  ℕ, zero, suc, ◌+◌, ◌-◌, ◌*◌, ◌/◌, ◌%◌, Bool, true, false, not, Option, none, some, leb, ltb, ◌==◌,
  if◌then◌else◌, update, ◌>>=◌,
}
use Prim.Native.Nat.{bit_or}
use modified_riscv.Kalloc.{pgsize, pgroundup, Kmem, memset_page, kfree, kalloc}
use modified_riscv.Strings.{memmove}
use modified_riscv.Vm.Table.{maxva, is_valid, is_user, pte2pa, walk, mappages}

-- PTE_FLAGS(pte) == PTE_V, an entry for a table
abbrev pub is_inner : ℕ → Bool
is_inner pte = pte % 1024 == 1

-- `uvmcreate`: the page table or 0.
unfoldable pub uvmcreate : Kmem → ℕ × Kmem
uvmcreate k =
    let (pagetable, k1) = kalloc k in
    if pagetable == 0
    then (0, k1)
    else (pagetable, record k1 { mem = memset_page pagetable 0 k1.mem })

-- `uvmfirst`, which tests neither the page nor the result of `mappages`; `none` is a panic.
unfoldable pub uvmfirst : ℕ → ℕ → ℕ → Kmem → Option Kmem
unfolding mappages memmove
uvmfirst pagetable src sz k =
    if leb pgsize sz
    then none
    else let (page, k1) = kalloc k in
      mappages pagetable 0 pgsize page 30 (record k1 { mem = memset_page page 0 k1.mem })
      >>= λ (ok, k2). some (record k2 { mem = memmove page src sz k2.mem })

-- `uvmclear`; `none` is a panic.
unfoldable pub uvmclear : ℕ → ℕ → Kmem → Option Kmem
uvmclear pagetable va k = walk false pagetable va k >>= λ (found, k1). elim found [
  | none ↦ none
  | some pte ↦
      let old = k1.mem pte in
      some (record k1 { mem = update k1.mem pte (if is_user old then old - 16 else old) })
]

-- `end`, the first address after the kernel, is set by the linker.
module _ (kernel_end : ℕ) where
  -- if(do_free) kfree((void*)pa);
  abbrev pub free_if : Bool → ℕ → Kmem → Option Kmem
  free_if do_free pa k = if do_free then kfree kernel_end pa k else some k

  -- The loop of `uvmunmap` for the pages from `a` on, with the number of rounds left. `none` is a panic.
  unfoldable pub unmap_loop : Bool → ℕ → ℕ → ℕ → Kmem → Option Kmem
  unmap_loop do_free pagetable a zero k = some k
  unmap_loop do_free pagetable a (suc n) k = walk false pagetable a k >>= λ (found, k1).
      elim found [
        | none ↦ none
        | some pte ↦
            if not (is_valid (k1.mem pte))
            then none
            else if is_inner (k1.mem pte)
            then none
            else free_if do_free (pte2pa (k1.mem pte)) k1 >>= λ k2.
                unmap_loop do_free pagetable (a + pgsize) n
                  (record k2 { mem = update k2.mem pte 0 })
      ]

  unfoldable pub uvmunmap : ℕ → ℕ → ℕ → Bool → Kmem → Option Kmem
  unfolding unmap_loop
  uvmunmap pagetable va npages do_free k =
      if not (va % pgsize == 0) then none else unmap_loop do_free pagetable va npages k

  -- `uvmdealloc`: the new size.
  unfoldable pub uvmdealloc : ℕ → ℕ → ℕ → Kmem → Option (ℕ × Kmem)
  unfolding uvmunmap
  uvmdealloc pagetable oldsz newsz k =
      if leb oldsz newsz
      then some (oldsz, k)
      else if ltb (pgroundup newsz) (pgroundup oldsz)
      then (uvmunmap pagetable (pgroundup newsz) ((pgroundup oldsz - pgroundup newsz) / pgsize) true
            k
          >>= λ k1. some (newsz, k1))
      else some (newsz, k)

  -- The loop of `uvmalloc` from `a` on, with the number of rounds left: whether it goes to the end.
  unfoldable pub alloc_loop : ℕ → ℕ → ℕ → ℕ → ℕ → Kmem → Option (Bool × Kmem)
  unfolding mappages uvmdealloc
  alloc_loop pagetable oldsz xperm a zero k = some (true, k)
  alloc_loop pagetable oldsz xperm a (suc n) k =
      let (page, k1) = kalloc k in
      if page == 0
      then (uvmdealloc pagetable a oldsz k1 >>= λ (size, k2). some (false, k2))
      else mappages pagetable a pgsize page (bit_or 18 xperm)
          (record k1 { mem = memset_page page 0 k1.mem })
        >>= λ (ok, k2).
            if ok
            then alloc_loop pagetable oldsz xperm (a + pgsize) n k2
            else kfree kernel_end page k2 >>= λ k3.
                uvmdealloc pagetable a oldsz k3 >>= λ (size, k4). some (false, k4)

  -- `uvmalloc`: the new size, or 0. The rounds are the pages from PGROUNDUP(oldsz) on that begin below
  -- `newsz`.
  unfoldable pub uvmalloc : ℕ → ℕ → ℕ → ℕ → Kmem → Option (ℕ × Kmem)
  unfolding alloc_loop
  uvmalloc pagetable oldsz newsz xperm k =
      if ltb newsz oldsz
      then some (oldsz, k)
      else alloc_loop pagetable (pgroundup oldsz) xperm (pgroundup oldsz)
          ((pgroundup newsz - pgroundup oldsz) / pgsize) k
        >>= λ (ok, k1). some (if ok then newsz else 0, k1)

  -- The loop of `uvmcopy` from `i` on, with the number of rounds left: 0 or the `i` of its `err`.
  unfoldable pub copy_loop : ℕ → ℕ → ℕ → ℕ → Kmem → Option (Option ℕ × Kmem)
  unfolding mappages memmove
  copy_loop old new i zero k = some (none, k)
  copy_loop old new i (suc n) k = walk false old i k >>= λ (found, k1). elim found [
    | none ↦ none
    | some pte ↦
        if not (is_valid (k1.mem pte))
        then none
        else let (page, k2) = kalloc k1 in
          if page == 0
          then some (some i, k2)
          else mappages new i pgsize page (k1.mem pte % 1024)
              (record k2 { mem = memmove page (pte2pa (k1.mem pte)) pgsize k2.mem })
            >>= λ (ok, k3).
                if ok
                then copy_loop old new (i + pgsize) n k3
                else kfree kernel_end page k3 >>= λ k4. some (some i, k4)
  ]

  -- `uvmcopy`: whether it returns 0. The rounds are the pages that begin below `sz`.
  unfoldable pub uvmcopy : ℕ → ℕ → ℕ → Kmem → Option (Bool × Kmem)
  unfolding copy_loop uvmunmap
  uvmcopy old new sz k = copy_loop old new 0 (pgroundup sz / pgsize) k >>= λ (err, k1). elim err [
    | none ↦ some (true, k1)
    | some i ↦ uvmunmap new 0 (i / pgsize) true k1 >>= λ k2. some (false, k2)
  ]
