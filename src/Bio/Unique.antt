-- ===== src/Bio/Unique.antt =====
-- A block is cached once.
use modified_riscv.Base.{
  ℕ, ◌+◌, ◌-◌, ◌≡◌, ◌≢◌, ◌⊎◌, inl, inr, refl, sym, ◌∙◌, ap, subst, Option, none, some, List, [],
  ◌∷◌, ◌==◌, if◌then◌else◌, update_self, update_ne, Bool-cases, ℕ_discrete,
}
use modified_riscv.Bio.{
  binit, Buf, Bcache, find_cached, find_unused, change, more, recycled, bget, fewer, unlink, brelse,
}
use modified_riscv.Bio.Find.{
  IsIn, IsNoneFree, Cached, find_cached-Cached, Unused, find_unused-Unused,
}

-- Two buffers of one block of a device are one. Device 0 is that of buffers never used.
pub record IsUnique (c : Bcache) : Type 0 where
  pub unique :
      (i j : ℕ)
      → IsIn i c.order
      → IsIn j c.order
      → (c.buf i).dev ≢ 0
      → (c.buf i).dev ≡ (c.buf j).dev
      → (c.buf i).blockno ≡ (c.buf j).blockno
      → i ≡ j

-- The buffers of a new cache are of device 0.
pub binit-IsUnique : (nbuf : ℕ) → IsUnique (binit nbuf)
binit-IsUnique nbuf = record { unique = λ i j t u d e e'. absurd (d refl) }

-- A change of one buffer that keeps every key but its own unique.
change-IsUnique :
    (c : Bcache) (i : ℕ) (f : Buf → Buf)
    → IsUnique c
    → ((j : ℕ)
        → IsIn j c.order
        → j ≢ i
        → (f (c.buf i)).dev ≢ 0
        → (f (c.buf i)).dev ≡ (c.buf j).dev
        → (f (c.buf i)).blockno ≢ (c.buf j).blockno)
    → IsUnique (change i f c)
change-IsUnique c i f h alone = record { unique = same_block }
  where
    here : (change i f c).buf i ≡ f (c.buf i)
    here = update_self c.buf i (f (c.buf i))

    there : (j : ℕ) → i ≢ j → (change i f c).buf j ≡ c.buf j
    there j ne = update_ne c.buf i j (f (c.buf i)) ne

    clash :
        (j : ℕ)
        → IsIn j c.order
        → i ≢ j
        → ((change i f c).buf i).dev ≢ 0
        → ((change i f c).buf i).dev ≡ ((change i f c).buf j).dev
        → ((change i f c).buf i).blockno ≢ ((change i f c).buf j).blockno
    clash j t ne d e e' =
        alone j t (λ x. ne (sym x)) (subst (λ b. b.dev ≢ 0) here d)
          (ap (λ (b : Buf). b.dev) (sym here) ∙ e ∙ ap (λ (b : Buf). b.dev) (there j ne))
          (ap (λ (b : Buf). b.blockno) (sym here) ∙ e' ∙ ap (λ (b : Buf). b.blockno) (there j ne))

    same_block :
        (j k : ℕ)
        → IsIn j c.order
        → IsIn k c.order
        → ((change i f c).buf j).dev ≢ 0
        → ((change i f c).buf j).dev ≡ ((change i f c).buf k).dev
        → ((change i f c).buf j).blockno ≡ ((change i f c).buf k).blockno
        → j ≡ k
    same_block j k t u d e e' = elim (ℕ_discrete i j) [
      | yes p ↦ elim (ℕ_discrete i k) [
        | yes q ↦ sym p ∙ q
        | no q ↦ absurd (
            subst
              (λ x.
                ((change i f c).buf x).dev ≢ 0
                → ((change i f c).buf x).dev ≡ ((change i f c).buf k).dev
                → ((change i f c).buf x).blockno ≢ ((change i f c).buf k).blockno)
              p (clash k u q) d e e')
      ]
      | no p ↦ elim (ℕ_discrete i k) [
        | yes q ↦ absurd (
            subst
              (λ x.
                ((change i f c).buf x).dev ≢ 0
                → ((change i f c).buf x).dev ≡ ((change i f c).buf j).dev
                → ((change i f c).buf x).blockno ≢ ((change i f c).buf j).blockno)
              q (clash j t p) (λ z. d (e ∙ z)) (sym e) (sym e'))
        | no q ↦
            h.unique j k t u (subst (λ b. b.dev ≢ 0) (there j p) d)
              (ap (λ (b : Buf). b.dev) (sym (there j p)) ∙ e ∙ ap (λ (b : Buf). b.dev) (there k q))
              (ap (λ (b : Buf). b.blockno) (sym (there j p))
                ∙ e'
                ∙ ap (λ (b : Buf). b.blockno) (there k q))
      ]
    ]

-- A change of the count keeps the keys.
recount-IsUnique :
    (c : Bcache) (i n : ℕ)
    → IsIn i c.order
    → IsUnique c
    → IsUnique (change i (λ b. record b { refcnt = n }) c)
recount-IsUnique c i n t h =
    change-IsUnique c i (λ b. record b { refcnt = n }) h
      (λ j u ne d e e'. ne (sym (h.unique i j t u d e e')))

-- How `bget` ends: with the panic where the block is not cached and no buffer is free; or with a
-- buffer of the block, which was that of the block before, or was free where none was.
abbrev pub Got : ℕ → ℕ → Bcache → Option (ℕ × Bcache) → Type 0
Got dev blockno c none =
    ((i : ℕ) → IsIn i c.order → (c.buf i).dev ≡ dev → (c.buf i).blockno ≢ blockno)
    × IsNoneFree c.buf c.order
Got dev blockno c (some (i, after)) =
    IsIn i c.order
    × IsUnique after
    × (after.order ≡ c.order)
    × ((j : ℕ) → i ≢ j → after.buf j ≡ c.buf j)
    × ((((c.buf i).dev ≡ dev) × ((c.buf i).blockno ≡ blockno) × (after.buf i ≡ more (c.buf i)))
        ⊎ (((c.buf i).refcnt ≡ 0)
            × ((j : ℕ) → IsIn j c.order → (c.buf j).dev ≡ dev → (c.buf j).blockno ≢ blockno)
            × (after.buf i ≡ recycled dev blockno (c.buf i))))

pub bget-Got : (dev blockno : ℕ) (c : Bcache) → IsUnique c → Got dev blockno c (bget dev blockno c)
unfolding bget
bget-Got dev blockno c h =
    found (find_cached dev blockno c.buf c.order) (find_cached-Cached dev blockno c.buf c.order)
  where
    unused :
        (r : Option ℕ)
        → Cached dev blockno c.buf c.order none
        → Unused c.buf c.order r
        → Got dev blockno c
            (elim r [ some i ↦ some (i, change i (recycled dev blockno) c) | none ↦ none ])
    unused none out free = (out, free)
    unused (some i) out (t, free) = (
      t,
      change-IsUnique c i (recycled dev blockno) h (λ j u ne d e e'. out j u (sym e) (sym e')),
      refl,
      λ j ne. update_ne c.buf i j (recycled dev blockno (c.buf i)) ne,
      inr (free, out, update_self c.buf i (recycled dev blockno (c.buf i))),
    )

    found :
        (r : Option ℕ)
        → Cached dev blockno c.buf c.order r
        → Got dev blockno c (elim r [
          | some i ↦ some (i, change i more c)
          | none ↦ elim (find_unused c.buf c.order) [
            | some i ↦ some (i, change i (recycled dev blockno) c)
            | none ↦ none
          ]
        ])
    found none out = unused (find_unused c.buf c.order) out (find_unused-Unused c.buf c.order)
    found (some i) (t, d, b) = (
      t,
      recount-IsUnique c i ((c.buf i).refcnt + 1) t h,
      refl,
      λ j ne. update_ne c.buf i j (more (c.buf i)) ne,
      inl (d, b, update_self c.buf i (more (c.buf i))),
    )

IsIn-unlink : (i j : ℕ) (order : List ℕ) → IsIn j (unlink i order) → IsIn j order
unfolding unlink
IsIn-unlink i j [] t = t
IsIn-unlink i j (b ∷ order) t = elim (Bool-cases (b == i)) [
  | inl e ↦ inr (rw e at t)
  | inr e ↦ elim (rw e at t) [ inl here ↦ inl here | inr u ↦ inr (IsIn-unlink i j order u) ]
]

reorder-IsUnique :
    (c : Bcache) (order : List ℕ)
    → ((j : ℕ) → IsIn j order → IsIn j c.order)
    → IsUnique c
    → IsUnique (record c { order = order })
reorder-IsUnique c order back h = record { unique = λ i j t u. h.unique i j (back i t) (back j u) }

-- `brelse` of a cached buffer keeps the blocks unique; it moves a buffer to the front exactly where
-- it becomes free, and changes no other buffer.
pub brelse-IsUnique :
    (i : ℕ) (c : Bcache)
    → IsIn i c.order
    → IsUnique c
    → IsUnique (brelse i c)
      × ((brelse i c).order ≡ (if (c.buf i).refcnt - 1 == 0 then i ∷ unlink i c.order else c.order))
      × ((j : ℕ) → i ≢ j → (brelse i c).buf j ≡ c.buf j)
unfolding brelse
brelse-IsUnique i c t h = elim (Bool-cases ((c.buf i).refcnt - 1 == 0)) [
  | inl free ↦
      rw free (reorder-IsUnique (change i fewer c) (i ∷ unlink i c.order) back less, refl, others)
  | inr used ↦ rw used (less, refl, others)
]
  where
    less : IsUnique (change i fewer c)
    less = recount-IsUnique c i ((c.buf i).refcnt - 1) t h

    others : (j : ℕ) → i ≢ j → (change i fewer c).buf j ≡ c.buf j
    others j ne = update_ne c.buf i j (fewer (c.buf i)) ne

    back : (j : ℕ) → (j ≡ i) ⊎ IsIn j (unlink i c.order) → IsIn j c.order
    back j (inl e) = subst (λ x. IsIn x c.order) (sym e) t
    back j (inr u) = IsIn-unlink i j c.order u
