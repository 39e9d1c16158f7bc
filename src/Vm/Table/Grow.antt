-- ===== src/Vm/Table/Grow.antt =====
-- A new table in an empty entry.
use modified_riscv.Base.{
  ℕ, zero, suc, ◌+◌, ◌*◌, ◌%◌, ◌≤◌, ◌<◌, ◌≡◌, ◌≢◌, ◌⊎◌, inl, inr, refl, sym, ◌∙◌, ap, subst, Bool,
  true, false, Option, none, some, List, if◌then◌else◌, arith,
}
use native.Mathlib.Decide.{dec_lt}
use modified_riscv.Kalloc.{Kmem, IsPage}
use modified_riscv.Kalloc.Refine.{Outside}
use modified_riscv.Vm.Table.{is_valid, pte2pa, px, slot}
use modified_riscv.Vm.Table.Tree.{part, part-px, entry_at, Owner, IsTree}

pub same_slot :
    (p q i j : ℕ)
    → p % 4096 ≡ 0
    → q % 4096 ≡ 0
    → i < 512
    → j < 512
    → p + 8 * i ≡ q + 8 * j
    → (p ≡ q) × (i ≡ j)
same_slot p q i j a b lt lt' e = (omega arith, omega arith)

pub px-small : (level va : ℕ) → px level va < 512
px-small level va = omega arith

pub none-some : {A : Type 0} (a : A) → none ≡ some a → ⊥
none-some a e = cc

abbrev pub label_of : ℕ × ℕ → Option (ℕ × ℕ) → ℕ × ℕ
label_of o none = o
label_of o (some x) = x

-- What the growth of a page table keeps: the tables, their valid entries above the lowest level, and
-- what each address is mapped to.
pub record Grows (owner : Owner) (mem : ℕ → ℕ) (owner' : Owner) (mem' : ℕ → ℕ) : Type 0 where
  pub kept : (p : ℕ) (o : ℕ × ℕ) → owner p ≡ some o → owner' p ≡ some o
  pub fixed :
      (p l n i : ℕ)
      → owner p ≡ some (suc l, n)
      → i < 512
      → is_valid (mem (p + 8 * i)) ≡ true
      → mem' (p + 8 * i) ≡ mem (p + 8 * i)
  pub same :
      (l va p : ℕ)
      → l ≤ 2
      → owner p ≡ some (l, part l va)
      → entry_at l va p mem' ≡ entry_at l va p mem

pub Grows-same : (owner : Owner) (mem : ℕ → ℕ) → Grows owner mem owner mem
Grows-same owner mem = record {
  kept = λ p o e. e;
  fixed = λ p l n i e lt v. refl;
  same = λ l va p le e. refl;
}

pub Grows-twice :
    (o1 o2 o3 : Owner) (m1 m2 m3 : ℕ → ℕ)
    → Grows o1 m1 o2 m2
    → Grows o2 m2 o3 m3
    → Grows o1 m1 o3 m3
Grows-twice o1 o2 o3 m1 m2 m3 g h = record {
  kept = λ p o e. h.kept p o (g.kept p o e);
  fixed = λ p l n i e lt v.
      h.fixed p l n i (g.kept p (suc l, n) e) lt (ap is_valid (g.fixed p l n i e lt v) ∙ v)
      ∙ g.fixed p l n i e lt v;
  same = λ l va p le e. h.same l va p le (g.kept p (l, part l va) e) ∙ g.same l va p le e;
}

module _ (kernel_end : ℕ) (positive : 0 < kernel_end) (root : ℕ) where
  -- A word of a table is outside any other page.
  pub table-Outside :
      (p x i : ℕ)
      → IsPage kernel_end p
      → IsPage kernel_end x
      → x ≢ p
      → i < 512
      → Outside kernel_end positive x (p + 8 * i)
  table-Outside p x i a b ne lt = by_numbers a.aligned b.aligned
    where
      by_numbers : p % 4096 ≡ 0 → x % 4096 ≡ 0 → (p + 8 * i < x) ⊎ (x + 4096 ≤ p + 8 * i)
      by_numbers a b = elim (dec_lt (p + 8 * i) x) [
        | yes below ↦ inl below
        | no above ↦ inr (omega arith)
      ]

  -- The entries of a table lead to tables of the parts of its own part.
  pub child :
      (owner : Owner) (pages : List ℕ) (k : Kmem) (l va p : ℕ)
      → IsTree kernel_end positive root owner pages k
      → suc l ≤ 2
      → owner p ≡ some (suc l, part (suc l) va)
      → is_valid (k.mem (slot (suc l) va p)) ≡ true
      → owner (pte2pa (k.mem (slot (suc l) va p))) ≡ some (l, part l va)
  child owner pages k l va p t le e v =
      subst (λ n. owner (pte2pa (k.mem (slot (suc l) va p))) ≡ some (l, n))
        (sym (part-px l va (omega arith)))
        (t.entries p l (part (suc l) va) (px (suc l) va) e (px-small (suc l) va) v)

  -- Memory that agrees on the words of all tables maps the same.
  pub entry_at-frame :
      (owner : Owner) (pages : List ℕ) (k : Kmem) (mem : ℕ → ℕ)
      → IsTree kernel_end positive root owner pages k
      → ((p i : ℕ) (o : ℕ × ℕ) → owner p ≡ some o → i < 512 → mem (p + 8 * i) ≡ k.mem (p + 8 * i))
      → (l va p : ℕ) → l ≤ 2
      → owner p ≡ some (l, part l va)
      → entry_at l va p mem ≡ entry_at l va p k.mem
  entry_at-frame owner pages k mem t agree zero va p le e =
      agree p (px 0 va) (0, part 0 va) e (px-small 0 va)
  entry_at-frame owner pages k mem t agree (suc l) va p le e =
      rw (agree p (px (suc l) va) (suc l, part (suc l) va) e (px-small (suc l) va)) (
        by_valid (is_valid (k.mem (slot (suc l) va p))) refl (λ own_child.
          entry_at-frame owner pages k mem t agree l va (pte2pa (k.mem (slot (suc l) va p)))
            (omega arith) own_child))
    where
      by_valid :
          (v : Bool)
          → is_valid (k.mem (slot (suc l) va p)) ≡ v
          → (owner (pte2pa (k.mem (slot (suc l) va p))) ≡ some (l, part l va)
              → entry_at l va (pte2pa (k.mem (slot (suc l) va p))) mem
                ≡ entry_at l va (pte2pa (k.mem (slot (suc l) va p))) k.mem)
          → (if v then entry_at l va (pte2pa (k.mem (slot (suc l) va p))) mem else 0)
            ≡ (if v then entry_at l va (pte2pa (k.mem (slot (suc l) va p))) k.mem else 0)
      by_valid false v deeper = refl
      by_valid true v deeper = deeper (child owner pages k l va p t le e v)
