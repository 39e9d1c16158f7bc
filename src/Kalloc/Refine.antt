-- ===== src/Kalloc/Refine.antt =====
-- The free list refines a list of distinct pages, used as a stack.
use modified_riscv.Base.{
  ℕ, ◌+◌, ◌≤◌, ◌<◌, ◌≡◌, ◌≢◌, refl, sym, ◌∙◌, false, none, List, [], ◌∷◌, All, ◌==◌, update, arith,
  ◌⊎◌, inl, inr, Bool-cases, ◌↔◌, update_self, Returns,
}
use modified_riscv.Kalloc.{pgsize, Kmem, memset_page, kfree, kalloc, IsPage, refuses}

-- The words through which the list runs, from `head` to the null pointer.
abbrev pub Links : (ℕ → ℕ) → ℕ → List ℕ → Type 0
Links mem head [] = head ≡ 0
Links mem head (x ∷ xs) = (head ≡ x) × Links mem (mem x) xs

abbrev pub Distinct : List ℕ → Type 0
Distinct [] = Unit
Distinct (x ∷ xs) = All (λ y. x ≢ y) xs × Distinct xs

module _ (kernel_end : ℕ) (positive : 0 < kernel_end) where
  -- The free list holds exactly these pages, in this order.
  pub record IsFree (k : Kmem) (pages : List ℕ) : Type 0 where
    pub links : Links k.mem k.freelist pages
    pub whole : All (IsPage kernel_end) pages
    pub distinct : Distinct pages

  -- What happens inside one page does not reach the links in the others.
  pub Links-frame :
      (mem mem' : ℕ → ℕ) (pa : ℕ)
      → IsPage kernel_end pa
      → ((a : ℕ) → (a < pa) ⊎ (pa + pgsize ≤ a) → mem' a ≡ mem a)
      → (head : ℕ) (xs : List ℕ) → All (IsPage kernel_end) xs
      → All (λ y. pa ≢ y) xs
      → Links mem head xs
      → Links mem' head xs
  Links-frame mem mem' pa page same head [] whole other l = l
  Links-frame mem mem' pa page same head (x ∷ xs) whole other l = (
    l.0,
    rw (same x (apart page whole.0 other.0))
        (Links-frame mem mem' pa page same (mem x) xs whole.1 other.1 l.1),
  )
    where
      apart : IsPage kernel_end pa → IsPage kernel_end x → pa ≢ x → (x < pa) ⊎ (pa + pgsize ≤ x)
      apart p q ne = grind arith

  pub page-accepted : (pa : ℕ) → IsPage kernel_end pa → refuses kernel_end pa ≡ false
  page-accepted pa page = ground arith

  accepted-IsPage : (pa : ℕ) → refuses kernel_end pa ≡ false → IsPage kernel_end pa
  accepted-IsPage pa h = ground arith

  -- A word outside the page.
  abbrev pub Outside : ℕ → ℕ → Type 0
  Outside pa a = (a < pa) ⊎ (pa + pgsize ≤ a)

  pub memset-Outside :
      (pa c : ℕ) (mem : ℕ → ℕ) (a : ℕ) → Outside pa a → memset_page pa c mem a ≡ mem a
  memset-Outside pa c mem a out = ground arith

  -- `kfree` of a page that is not free puts it in front of the list, and changes no word outside it.
  pub kfree-IsFree :
      (k : Kmem) (pages : List ℕ) (pa : ℕ)
      → IsFree k pages
      → IsPage kernel_end pa
      → All (λ y. pa ≢ y) pages
      → Returns
          (kfree kernel_end pa k)
          (λ k'. IsFree k' (pa ∷ pages) × ((a : ℕ) → Outside pa a → k'.mem a ≡ k.mem a))
  unfolding kfree
  kfree-IsFree k pages pa f page other = rw (page-accepted pa page) (
    record {
      links = (
        refl,
        rw update_self
            (Links-frame k.mem after pa page same k.freelist pages f.whole other f.links),
      );
      whole = (page, f.whole);
      distinct = (other, f.distinct);
    },
    same,
  )
    where
      after : ℕ → ℕ
      after = update (memset_page pa 1 k.mem) pa k.freelist

      same : (a : ℕ) → Outside pa a → after a ≡ k.mem a
      same a out = ground arith

  -- `kfree` panics exactly at an address that is no page of the memory after the kernel.
  pub kfree-panics : (k : Kmem) (pa : ℕ) → (kfree kernel_end pa k ≡ none) ↔ ¬ (IsPage kernel_end pa)
  unfolding kfree
  kfree-panics k pa = elim (Bool-cases (refuses kernel_end pa)) [
    | inl e ↦ (λ n page. cc (sym e ∙ page-accepted pa page), λ n. rw e)
    | inr e ↦ (λ n. cc (rw e at n), λ n. absurd (n (accepted-IsPage pa e)))
  ]

  -- What `kalloc` gives when the free pages are `pages`: the first one, of which the list then no
  -- longer holds any, with no word outside it changed; or 0, with nothing changed.
  abbrev pub Pops : Kmem → List ℕ → ℕ × Kmem → Type 0
  Pops k [] r = r ≡ (0, k)
  Pops k (x ∷ xs) r = (r.0 ≡ x) × IsFree r.1 xs × ((a : ℕ) → Outside x a → r.1.mem a ≡ k.mem a)

  -- `kalloc` takes the first page of the list, or gives 0 if there is none.
  pub kalloc-Pops : (k : Kmem) (pages : List ℕ) → IsFree k pages → Pops k pages (kalloc k)
  unfolding kalloc
  kalloc-Pops k [] f = rw f.links
  kalloc-Pops k (x ∷ xs) f =
      let page : x ≢ 0 = omega (arith, f.whole.0.low) in
      let some_page : (x == 0) ≡ false = ground arith in
      rw (f.links.0, some_page)
        (
          refl,
          record {
            links =
                Links-frame k.mem (memset_page x 5 k.mem) x f.whole.0 (memset-Outside x 5 k.mem)
                  (k.mem x) xs f.whole.1 f.distinct.0 f.links.1;
            whole = f.whole.1;
            distinct = f.distinct.1;
          },
          memset-Outside x 5 k.mem,
        )
