-- ===== src/Vm/Table/Lookup.antt =====
-- `mappages` over its range, and `walkaddr` on the pages that it maps.
use modified_riscv.Base.{
  ℕ, zero, suc, ◌+◌, ◌-◌, ◌*◌, ◌/◌, ◌%◌, ◌≤◌, ◌<◌, ◌≡◌, refl, sym, ◌∙◌, ap, ap₂, subst, Bool, true,
  false, ◌&&◌, not, Option, none, some, List, ◌==◌, leb, ltb, if◌then◌else◌, arith,
}
use modified_riscv.Kalloc.{pgsize, Kmem}
use modified_riscv.Vm.{pgrounddown}
use modified_riscv.Vm.Table.{
  maxva, is_valid, is_user, pte2pa, pa2pte, px, slot, walk_from, map_loop, mappages, walkaddr,
}
use modified_riscv.Vm.Table.Tree.{entry_at, Owner, IsTree}
use modified_riscv.Vm.Table.Extend.{pa2pte-valid, pte2pa-pa2pte}
use modified_riscv.Vm.Table.Mapping.{mapping}
use modified_riscv.Vm.Table.Rounds.{Maps, map_loop-Maps}

-- The first page of a range, and the number of pages that it touches.
abbrev pub page_of : ℕ → ℕ
page_of va = va / pgsize

abbrev pub pages_of : ℕ → ℕ → ℕ
pages_of va size = page_of (va + size - 1) - page_of va + 1

-- The page for the user that an entry gives, or 0.
abbrev pub user_page : ℕ → ℕ
user_page pte = if is_valid pte && is_user pte then pte2pa pte else 0

-- What a walk without `alloc` finds, by the entry.
abbrev AtEntry : (ℕ → ℕ) → ℕ → Option ℕ → Type 0
AtEntry mem pte none = pte ≡ 0
AtEntry mem pte (some a) = mem a ≡ pte

walk_from-AtEntry :
    (l va p : ℕ) (k : Kmem) → AtEntry k.mem (entry_at l va p k.mem) (walk_from false l va p k).0
unfolding walk_from
walk_from-AtEntry zero va p k = refl
walk_from-AtEntry (suc l) va p k =
    by_valid (is_valid (k.mem (slot (suc l) va p)))
      (walk_from-AtEntry l va (pte2pa (k.mem (slot (suc l) va p))) k)
  where
    by_valid :
        (v : Bool)
        → AtEntry k.mem
            (entry_at l va (pte2pa (k.mem (slot (suc l) va p))) k.mem)
            (walk_from false l va (pte2pa (k.mem (slot (suc l) va p))) k).0
        → AtEntry k.mem
            (if v then entry_at l va (pte2pa (k.mem (slot (suc l) va p))) k.mem else 0)
            (if v then walk_from false l va (pte2pa (k.mem (slot (suc l) va p))) k else (none, k)).0
    by_valid true deeper = deeper
    by_valid false deeper = refl

-- On any memory, `walkaddr` gives 0 from MAXVA on and below it the page of the address's entry, if the
-- entry is valid and for the user, and else 0; the entry is the one that the three levels lead to, or 0
-- if a table is missing.
pub walkaddr-entry_at :
    (root va : ℕ) (k : Kmem)
    → walkaddr root va k ≡ (if leb maxva va then 0 else user_page (entry_at 2 va root k.mem))
unfolding walkaddr
walkaddr-entry_at root va k =
    ap (λ x. if leb maxva va then 0 else x)
      (by_walk (entry_at 2 va root k.mem) (walk_from false 2 va root k).0
        (walk_from-AtEntry 2 va root k))
  where
    by_walk :
        (pte : ℕ) (found : Option ℕ)
        → AtEntry k.mem pte found
        → (elim found [
          | none ↦ 0
          | some a ↦
              if not (is_valid (k.mem a))
              then 0
              else if not (is_user (k.mem a))
              then 0
              else pte2pa (k.mem a)
        ])
          ≡ user_page pte
    by_walk pte none e = rw e refl
    by_walk pte (some a) e = rw e (by_flags (is_valid pte) (is_user pte))
      where
        by_flags :
            (v u : Bool)
            → (if not v then 0 else if not u then 0 else pte2pa pte)
              ≡ (if v && u then pte2pa pte else 0)
        by_flags true true = refl
        by_flags true false = refl
        by_flags false u = refl

px-page : (l va : ℕ) → l ≤ 2 → px l va ≡ px l (page_of va * pgsize)
px-page zero va le = omega arith
px-page (suc zero) va le = omega arith
px-page (suc (suc zero)) va le = omega arith
px-page (suc (suc (suc l))) va le = absurd (omega arith)

-- All addresses of a page have one entry.
entry_at-page :
    (l va p : ℕ) (mem : ℕ → ℕ)
    → l ≤ 2
    → entry_at l va p mem ≡ entry_at l (page_of va * pgsize) p mem
entry_at-page zero va p mem le = ap (λ i. mem (p + 8 * i)) (px-page 0 va le)
entry_at-page (suc l) va p mem le = rw (sym (px-page (suc l) va le)) (
    ap (λ e. if is_valid (mem (slot (suc l) va p)) then e else 0)
      (entry_at-page l va (pte2pa (mem (slot (suc l) va p))) mem (omega arith)))

user_page-pa2pte :
    (pa perm : ℕ)
    → pa % pgsize ≡ 0
    → perm < 1024
    → is_user perm ≡ true
    → user_page (pa2pte pa perm) ≡ pa
user_page-pa2pte pa perm whole small user =
    rw (pa2pte-valid pa perm) (rw (user_flag ∙ user) (pte2pa-pa2pte pa perm whole small))
  where
    user_flag : is_user (pa2pte pa perm) ≡ is_user perm
    user_flag = ap (λ n. n == 1) (omega arith)

module _ (kernel_end : ℕ) (positive : 0 < kernel_end) (root : ℕ) where
  -- For a page table whose valid inner entries lead to the tables of their parts of the address
  -- space, `mappages` of at least one byte maps exactly the pages from that of `va` to that of
  -- `va + size - 1` to the pages from `pa` on with the permissions, leaves the map of all other
  -- pages, and keeps the tree and the free list well-formed; where `walk` finds no page for a
  -- table it returns -1 with only the first pages mapped and no page free, and it panics only
  -- where one of the pages is at MAXVA or beyond or is mapped already.
  pub mappages-Maps :
      (va size pa perm : ℕ) (owner : Owner) (pages : List ℕ) (k : Kmem)
      → 0 < size
      → IsTree kernel_end positive root owner pages k
      → Maps kernel_end positive root
          (page_of va)
          (pages_of va size)
          pa
          perm
          k
          (mappages root va size pa perm k)
  unfolding mappages
  mappages-Maps va size pa perm owner pages k lt t = rw nonzero (
      subst
        (λ n.
          Maps kernel_end positive root (page_of va) (pages_of va size) pa perm k
            (map_loop root (pgrounddown va) (n + 1) pa perm k))
        rounds
        (map_loop-Maps kernel_end positive root (pages_of va size) (page_of va) pa perm owner pages
          k t))
    where
      nonzero : (size == 0) ≡ false
      nonzero = ground arith

      rounds :
          page_of (va + size - 1) - page_of va
          ≡ (pgrounddown (va + size - 1) - pgrounddown va) / pgsize
      rounds = omega arith

  -- What `walkaddr` gives for an address, by the map.
  walkaddr-mapping :
      (va : ℕ) (k : Kmem)
      → va < maxva
      → walkaddr root va k ≡ user_page (mapping root (page_of va) k.mem)
  walkaddr-mapping va k lt =
      walkaddr-entry_at root va k
      ∙ ap₂ (λ b e. if b then 0 else user_page e) low (entry_at-page 2 va root k.mem (omega arith))
    where
      low : leb maxva va ≡ false
      low = ground arith

  -- After `mappages` has returned 0 for a range of at least one byte, a whole physical page and
  -- permissions with PTE_U, `walkaddr` of an address below MAXVA gives the physical page that its
  -- page was mapped to, if it is in the range, and else what it gave before.
  pub walkaddr-mappages :
      (va size pa perm va' : ℕ) (owner : Owner) (pages : List ℕ) (k after : Kmem)
      → IsTree kernel_end positive root owner pages k
      → 0 < size
      → pa % pgsize ≡ 0
      → perm < 1024
      → is_user perm ≡ true
      → mappages root va size pa perm k ≡ some (true, after)
      → va' < maxva
      → walkaddr root va' after ≡ (
          if leb (page_of va) (page_of va') && ltb (page_of va') (page_of va + pages_of va size)
          then pa + (page_of va' - page_of va) * pgsize
          else walkaddr root va' k)
  walkaddr-mappages va size pa perm va' owner pages k after t lt whole flags user done low =
      walkaddr-mapping va' after low
      ∙ ap user_page (maps.3 (page_of va') (omega (arith, low)))
      ∙ by_test
          (leb (page_of va) (page_of va') && ltb (page_of va') (page_of va + pages_of va size))
    where
      maps :
          Maps kernel_end positive root
            (page_of va)
            (pages_of va size)
            pa
            perm
            k
            (some (true, after))
      maps =
          subst (Maps kernel_end positive root (page_of va) (pages_of va size) pa perm k) done
            (mappages-Maps va size pa perm owner pages k lt t)

      by_test :
          (b : Bool)
          → user_page (
              if b
              then pa2pte (pa + (page_of va' - page_of va) * pgsize) perm
              else mapping root (page_of va') k.mem)
            ≡ (if b then pa + (page_of va' - page_of va) * pgsize else walkaddr root va' k)
      by_test true =
          user_page-pa2pte (pa + (page_of va' - page_of va) * pgsize) perm (omega (arith, whole))
            flags user
      by_test false = sym (walkaddr-mapping va' k low)
