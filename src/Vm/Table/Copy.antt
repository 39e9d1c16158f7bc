-- ===== src/Vm/Table/Copy.antt =====
-- `copyin` through the page table: from the pages that `mappages` has mapped.
use modified_riscv.Base.{
  ℕ, ◌+◌, ◌-◌, ◌*◌, ◌%◌, ◌≤◌, ◌<◌, ◌≡◌, refl, sym, ◌∙◌, ap, subst, Bool, true, false, ◌&&◌, some,
  List, leb, ltb, if◌then◌else◌, arith,
}
use modified_riscv.Kalloc.{pgsize, Kmem}
use modified_riscv.Strings.Moves.{IsBeside}
use modified_riscv.Vm.{pgrounddown, address, copyin}
use modified_riscv.Vm.Copies.{CopiesIn, copyin-CopiesIn}
use modified_riscv.Vm.Table.{maxva, is_user, mappages, walkaddr}
use modified_riscv.Vm.Table.Tree.{Owner, IsTree}
use modified_riscv.Vm.Table.Lookup.{page_of, pages_of, walkaddr-mappages}

-- A copy that returns 0, from physical bytes.
abbrev pub HasCopied : ℕ → ℕ → ℕ → (ℕ → ℕ) → Bool × (ℕ → ℕ) → Type 0
HasCopied dst src len bytes r =
    (r.0 ≡ true)
    × ((i : ℕ) → i < len → r.1 (dst + i) ≡ bytes (src + i))
    × ((a : ℕ) → IsBeside dst len a → r.1 a ≡ bytes a)

module _ (kernel_end : ℕ) (positive : 0 < kernel_end) (root : ℕ) where
  -- The page of a mapped address.
  mapped_page :
      (va size pa perm a : ℕ) (owner : Owner) (pages : List ℕ) (k after : Kmem)
      → IsTree kernel_end positive root owner pages k
      → va % pgsize ≡ 0
      → va + size ≤ maxva
      → pa % pgsize ≡ 0
      → perm < 1024
      → is_user perm ≡ true
      → mappages root va size pa perm k ≡ some (true, after)
      → va ≤ a
      → a < va + size
      → walkaddr root (pgrounddown a) after ≡ pa + (pgrounddown a - va)
  mapped_page va size pa perm a owner pages k after t aligned high whole flags user done low lt =
      walkaddr-mappages kernel_end positive root va size pa perm (pgrounddown a) owner pages k after
        t (omega arith) whole flags user done (omega arith)
      ∙ in_range (walkaddr root (pgrounddown a) k)
    where
      in_range :
          (old : ℕ)
          → (if leb (page_of va) (page_of (pgrounddown a))
                && ltb (page_of (pgrounddown a)) (page_of va + pages_of va size)
              then pa + (page_of (pgrounddown a) - page_of va) * pgsize
              else old)
            ≡ pa + (pgrounddown a - va)
      in_range old = rw (first, last) (omega arith)
        where
          first : leb (page_of va) (page_of (pgrounddown a)) ≡ true
          first = ground arith

          last : ltb (page_of (pgrounddown a)) (page_of va + pages_of va size) ≡ true
          last = ground arith

  -- After `mappages` has mapped a range that begins at a page and ends at most at MAXVA to
  -- physical pages other than 0 with PTE_U, `copyin` through that page table of any bytes of the
  -- range to a place that they do not overlap returns 0, copies the bytes at the same offsets of
  -- the physical pages, whichever bytes the memory has, and changes no other byte; the copy is
  -- taken not to write to the tables.
  pub copyin-mappages :
      (va size pa perm off len dst : ℕ) (owner : Owner) (pages : List ℕ) (k after : Kmem)
      (bytes : ℕ → ℕ)
      → IsTree kernel_end positive root owner pages k
      → va % pgsize ≡ 0
      → va + size ≤ maxva
      → 0 < pa
      → pa % pgsize ≡ 0
      → perm < 1024
      → is_user perm ≡ true
      → mappages root va size pa perm k ≡ some (true, after)
      → off + len ≤ size
      → ((i : ℕ) → i < len → IsBeside dst len (pa + off + i))
      → HasCopied dst
          (pa + off)
          len
          bytes
          (copyin (λ a. walkaddr root a after) len dst (va + off) len bytes)
  copyin-mappages va size pa perm off len dst owner pages k after bytes t aligned high some_pa whole
        flags user done fits apart =
      by_copy (copyin user_page_of len dst (va + off) len bytes) (
        copyin-CopiesIn user_page_of len dst (va + off) len bytes (omega arith)
          (λ i lt. subst (IsBeside dst len) (sym (at i lt)) (apart i lt)))
    where
      user_page_of : ℕ → ℕ
      user_page_of a = walkaddr root a after

      base :
          (i : ℕ)
          → i < len
          → user_page_of (pgrounddown (va + off + i)) ≡ pa + (pgrounddown (va + off + i) - va)
      base i lt =
          mapped_page va size pa perm (va + off + i) owner pages k after t aligned high whole flags
            user done (omega arith) (omega arith)

      at : (i : ℕ) → (lt : i < len) → address user_page_of (va + off + i) ≡ pa + off + i
      at i lt = omega (arith, base i lt)

      by_copy :
          (r : Bool × (ℕ → ℕ))
          → CopiesIn user_page_of dst (va + off) len bytes r
          → HasCopied dst (pa + off) len bytes r
      by_copy (true, mem) (mapped, copied, same) =
          (refl, λ i lt. copied i lt ∙ ap bytes (at i lt), same)
      by_copy (false, mem) ((i, lt, hole), same) = absurd (omega (arith, hole, base i lt))
