-- ===== src/Bio/Tests.antt =====
-- A cache of three buffers at work, and the theorems at these inputs.
use modified_riscv.Base.{ℕ, ◌-◌, ◌≡◌, ◌≢◌, refl, [], ◌∷◌, ◌==◌, if◌then◌else◌, inl, inr}
use modified_riscv.Bio.{Bcache, binit, binit_order, bget, brelse, unlink, change, recycled}
use modified_riscv.Bio.Find.{IsIn}
use modified_riscv.Bio.Unique.{IsUnique, Got, binit-IsUnique, bget-Got, brelse-IsUnique}

binit_runs : (binit 3).order ≡ 2 ∷ 1 ∷ 0 ∷ []
unfolding binit_order
binit_runs = refl

bget-Got_example : Got 1 33 (binit 3) (bget 1 33 (binit 3))
bget-Got_example = bget-Got 1 33 (binit 3) (binit-IsUnique 3)

-- The least recently used buffer is taken.
abbrev one_cached : Bcache
one_cached = change 0 (recycled 1 33) (binit 3)

one_cached-IsUnique : IsUnique one_cached
unfolding bget binit_order
one_cached-IsUnique = bget-Got_example.1

zero-IsIn : IsIn 0 one_cached.order
unfolding binit_order
zero-IsIn = inr (inr (inl refl))

brelse-IsUnique_example :
    IsUnique (brelse 0 one_cached)
    × ((brelse 0 one_cached).order ≡ (
        if (one_cached.buf 0).refcnt - 1 == 0
        then 0 ∷ unlink 0 one_cached.order
        else one_cached.order))
    × ((j : ℕ) → 0 ≢ j → (brelse 0 one_cached).buf j ≡ one_cached.buf j)
brelse-IsUnique_example = brelse-IsUnique 0 one_cached zero-IsIn one_cached-IsUnique
