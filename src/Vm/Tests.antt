-- ===== src/Vm/Tests.antt =====
-- Copies between a user's two pages and the kernel, and the theorems at these inputs.
use modified_riscv.Base.{
  false, true, ℕ, ◌+◌, ◌-◌, ◌*◌, ◌%◌, ◌≡◌, ◌<◌, ◌≤◌, refl, Bool, ◌==◌, leb, ltb, ◌&&◌,
  if◌then◌else◌, arith, inr, Option, none, some, [], ◌∷◌, update, Returns,
}
use modified_riscv.Kalloc.{Kmem, IsPage, pgsize, phystop}
use modified_riscv.Kalloc.Refine.{IsFree}
use modified_riscv.Vm.Table.{maxva, pa2pte, map_loop, walk, walk_from, mappages, walkaddr}
use modified_riscv.Vm.Table.Tree.{entry_at, Owner, own, IsTree}
use modified_riscv.Vm.Table.Copy.{HasCopied, copyin-mappages}
use modified_riscv.Vm.Table.Link.{linked-IsTree}
use modified_riscv.Vm.Table.Leaf.{written-IsTree}
use modified_riscv.Vm.Space.{uvmdealloc}
use modified_riscv.Vm.Space.Unmap.{Unmapped}
use modified_riscv.Vm.Space.Release.{uvmdealloc-Unmapped}
use modified_riscv.Vm.Space.Create.{root_only, cleared-IsTree}
use modified_riscv.Vm.Table.Rounds.{Maps}
use modified_riscv.Vm.Table.Lookup.{
  user_page, walkaddr-entry_at, page_of, pages_of, mappages-Maps, walkaddr-mappages,
}
use modified_riscv.Vm.{address, copyin, copyinstr}
use modified_riscv.Vm.Copies.{CopiesIn, copyin-CopiesIn}
use modified_riscv.Vm.Out.{IsApart}
use modified_riscv.Vm.Str.{copy_string, copyinstr-copy_string}

-- The pages at 0 and 4096 are at 0x9000 and 0x7000.
abbrev two_pages : ℕ → ℕ
two_pages va = if va == 0 then 0x9000 else if va == 4096 then 0x7000 else 0

abbrev bytes : ℕ → ℕ
bytes a = a

copyin_runs : (copyin two_pages 4 100 4094 4 bytes).1 102 ≡ 0x7000
unfolding copyin modified_riscv.Strings.memmove
copyin_runs = refl

low : (va : ℕ) → va < 8192 → 0x7000 - 1 < address two_pages va
low va lt = ground arith

copyin-CopiesIn_example : CopiesIn two_pages 100 4094 4 bytes (copyin two_pages 4 100 4094 4 bytes)
copyin-CopiesIn_example =
    copyin-CopiesIn two_pages 4 100 4094 4 bytes (omega arith)
      (λ k lt. inr (omega (arith, low (4094 + k) (omega arith))))

-- A range inside one page.
copies-IsApart : IsApart two_pages 100 16 4
copies-IsApart = record {
  source = λ k lt. inr (omega (arith, low (16 + k) (omega arith)));
  distinct = λ j k lt lt' e. same_byte j k lt lt' e;
}
  where
    same_byte :
        (j k : ℕ) → j < 4 → k < 4 → address two_pages (16 + j) ≡ address two_pages (16 + k) → j ≡ k
    same_byte j k lt lt' e = ground arith

-- The string "ab" across the end of the first page.
abbrev name_bytes : ℕ → ℕ
name_bytes a = if a == 0x9fff then 97 else if a == 0x7000 then 98 else 0

copyinstr_runs :
    (copyinstr two_pages 9 4095
        (record { got_null = false; max = 9; dst = 100; mem = name_bytes })).1
      101
    ≡ 98
unfolding copyinstr
copyinstr_runs = refl

copyinstr-copy_string_example :
    copyinstr two_pages 9 4095 (record { got_null = false; max = 9; dst = 100; mem = name_bytes })
    ≡ copy_string two_pages 9 4095 100 name_bytes
copyinstr-copy_string_example =
    copyinstr-copy_string two_pages 9 4095 9 100 name_bytes (omega arith)

-- An empty page table at 16384, with the pages at 8192 and 12288 free.
abbrev empty_table : Kmem
empty_table = record { freelist = 8192; mem = update (λ _. 0) 8192 12288 }

positive : 0 < 5000
positive = omega arith

page : (pa : ℕ) → pa % pgsize ≡ 0 → 5000 ≤ pa → pa < phystop → IsPage 5000 pa
page pa a l h = record { aligned = a; low = l; high = h }

two_free : IsFree 5000 positive empty_table (8192 ∷ 12288 ∷ [])
two_free = record {
  links = (refl, (refl, refl));
  whole = (
    page 8192 (omega arith) (omega arith) (omega arith),
    (page 12288 (omega arith) (omega arith) (omega arith), tt),
  );
  distinct = ((omega arith, tt), (tt, tt));
}

empty-IsTree : IsTree 5000 positive 16384 (root_only 16384) (8192 ∷ 12288 ∷ []) empty_table
empty-IsTree =
    cleared-IsTree 5000 positive 16384 (8192 ∷ 12288 ∷ []) empty_table two_free
      (page 16384 (omega arith) (omega arith) (omega arith)) (omega arith, (omega arith, tt))
      (λ i lt. zero_words i lt)
  where
    zero_words : (i : ℕ) → i < 512 → empty_table.mem (16384 + 8 * i) ≡ 0
    zero_words i lt = ground arith

-- A page at 0x5000 of the address space, for the user.
abbrev returned : Option (Bool × Kmem) → Kmem
returned none = empty_table
returned (some (ok, k)) = k

abbrev mapped_page : Kmem
mapped_page = returned (mappages 16384 0x5000 4096 0x9000 22 empty_table)

maps_runs : mappages 16384 0x5000 4096 0x9000 22 empty_table ≡ some (true, mapped_page)
unfolding mappages map_loop walk walk_from modified_riscv.Kalloc.kalloc
maps_runs = refl

maps_entry : walkaddr 16384 0x5000 mapped_page ≡ 0x9000
unfolding mappages map_loop walk walk_from modified_riscv.Kalloc.kalloc walkaddr
maps_entry = refl

mappages-Maps_example :
    Maps 5000 positive 16384
      (page_of 0x5000)
      (pages_of 0x5000 4096)
      0x9000
      22
      empty_table
      (mappages 16384 0x5000 4096 0x9000 22 empty_table)
mappages-Maps_example =
    mappages-Maps 5000 positive 16384 0x5000 4096 0x9000 22 (root_only 16384) (8192 ∷ 12288 ∷ [])
      empty_table (omega arith) empty-IsTree

walkaddr-mappages_example : walkaddr 16384 0x5123 mapped_page ≡ (
    if leb (page_of 0x5000) (page_of 0x5123)
      && ltb (page_of 0x5123) (page_of 0x5000 + pages_of 0x5000 4096)
    then 0x9000 + (page_of 0x5123 - page_of 0x5000) * pgsize
    else walkaddr 16384 0x5123 empty_table)
walkaddr-mappages_example =
    walkaddr-mappages 5000 positive 16384 0x5000 4096 0x9000 22 0x5123 (root_only 16384)
      (8192 ∷ 12288 ∷ []) empty_table mapped_page empty-IsTree (omega arith) refl (omega arith) refl
      maps_runs (omega arith)

walkaddr-entry_at_example :
    walkaddr 16384 0x5123 mapped_page
    ≡ (if leb maxva 0x5123 then 0 else user_page (entry_at 2 0x5123 16384 mapped_page.mem))
walkaddr-entry_at_example = walkaddr-entry_at 16384 0x5123 mapped_page

-- The tables for the first pages of the address space, and the page 1 at 0x9000.
abbrev owner1 : Owner
owner1 = own (root_only 16384) 20480 (1, 0)

abbrev owner2 : Owner
owner2 = own owner1 24576 (0, 0)

abbrev linked1 : Kmem
linked1 = record empty_table { mem = update empty_table.mem 16384 (pa2pte 20480 0) }

abbrev linked2 : Kmem
linked2 = record linked1 { mem = update linked1.mem 20480 (pa2pte 24576 0) }

abbrev one_page : Kmem
one_page = record linked2 { mem = update linked2.mem (24576 + 8) (pa2pte 0x9000 22) }

one_page-IsTree : IsTree 5000 positive 16384 owner2 (8192 ∷ 12288 ∷ []) one_page
one_page-IsTree =
    written-IsTree 5000 positive 16384 owner2 (8192 ∷ 12288 ∷ []) linked2 4096 24576
      (pa2pte 0x9000 22)
      (linked-IsTree 5000 positive 16384 owner1 (8192 ∷ 12288 ∷ []) linked1 20480 0 0 0 24576 first
        refl (omega arith) refl refl (page 24576 (omega arith) (omega arith) (omega arith))
        (λ j lt. zero2 j lt) (omega arith, (omega arith, tt)))
      refl
  where
    zero1 : (j : ℕ) → j < 512 → empty_table.mem (20480 + 8 * j) ≡ 0
    zero1 j lt = ground arith

    zero2 : (j : ℕ) → j < 512 → linked1.mem (24576 + 8 * j) ≡ 0
    zero2 j lt = ground arith

    first : IsTree 5000 positive 16384 owner1 (8192 ∷ 12288 ∷ []) linked1
    first =
        linked-IsTree 5000 positive 16384 (root_only 16384) (8192 ∷ 12288 ∷ []) empty_table 16384 1
          0 0 20480 empty-IsTree refl (omega arith) refl refl
          (page 20480 (omega arith) (omega arith) (omega arith)) (λ j lt. zero1 j lt)
          (omega arith, (omega arith, tt))

uvmdealloc-Unmapped_example : Returns (uvmdealloc 5000 16384 8192 4096 one_page) (λ (size, after).
    (size ≡ 4096)
    × Unmapped 5000 positive 16384 true owner2 (8192 ∷ 12288 ∷ []) 1 (0x9000 ∷ []) one_page after)
uvmdealloc-Unmapped_example =
    uvmdealloc-Unmapped 5000 positive 16384 (0x9000 ∷ []) 8192 4096 owner2 (8192 ∷ 12288 ∷ [])
      one_page (omega arith) (omega arith) refl one_page-IsTree (refl, refl, refl, tt)
      (
        page 0x9000 (omega arith) (omega arith) (omega arith),
        refl,
        (omega arith, (omega arith, tt)),
        tt,
      )

copyin-mappages_example :
    HasCopied 100
      (0x9000 + 16)
      4
      bytes
      (copyin (λ a. walkaddr 16384 a mapped_page) 4 100 (0x5000 + 16) 4 bytes)
copyin-mappages_example =
    copyin-mappages 5000 positive 16384 0x5000 4096 0x9000 22 16 4 100 (root_only 16384)
      (8192 ∷ 12288 ∷ []) empty_table mapped_page bytes empty-IsTree refl (omega arith)
      (omega arith) refl (omega arith) refl maps_runs (omega arith) (λ i lt. inr (omega arith))
