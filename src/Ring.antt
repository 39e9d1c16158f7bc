-- ===== src/Ring.antt =====
-- The contents of a ring buffer, for the rings of kernel/pipe.c and kernel/uart.c: an array with a
-- counter whose remainder is the place of the first element.
use modified_riscv.Base.{
  ℕ, suc, ◌+◌, ◌%◌, ◌<◌, ◌≡◌, ◌≢◌, sym, ◌∙◌, ap, subst, List, [], ◌∷◌, ◌++◌, update, length, arith,
  update_ne, update_self,
}

-- The elements from position `r` on are those of the queue.
abbrev pub Window : ℕ → (ℕ → ℕ) → ℕ → List ℕ → Type 0
Window size bytes r [] = Unit
Window size bytes r (x ∷ xs) = (bytes (r % size) ≡ x) × Window size bytes (r + 1) xs

-- Two laws of the places, which hold for every size.
module _ (size : ℕ) (next : (r s : ℕ) → r % size ≡ s % size → (r + 1) % size ≡ (s + 1) % size)
    (apart : (r w n : ℕ) → suc n < size → w % size ≡ (r + suc n) % size → w % size ≢ r % size) where
  -- Two counters that name the same place give the same contents.
  pub Window-wrap :
      (bytes : ℕ → ℕ) (r s : ℕ) (q : List ℕ)
      → r % size ≡ s % size
      → Window size bytes r q
      → Window size bytes s q
  Window-wrap bytes r s [] same w = w
  Window-wrap bytes r s (x ∷ xs) same (b, w) =
      (subst (λ i. bytes i ≡ x) same b, Window-wrap bytes (r + 1) (s + 1) xs (next r s same) w)

  -- An element behind the last one.
  pub Window-push :
      (bytes : ℕ → ℕ) (r w ch : ℕ) (q : List ℕ)
      → length q < size
      → w % size ≡ (r + length q) % size
      → Window size bytes r q
      → Window size (update bytes (w % size) ch) r (q ++ (ch ∷ []))
  Window-push bytes r w ch [] room place v =
      (ap (update bytes (w % size) ch) (sym here) ∙ update_self bytes (w % size) ch, tt)
    where
      here : w % size ≡ r % size
      here = subst (λ n. w % size ≡ n % size) (omega arith) place
  Window-push bytes r w ch (x ∷ xs) room place (b, v) = (
    subst (λ y. y ≡ x)
        (sym (update_ne bytes (w % size) (r % size) ch (apart r w (length xs) room place))) b,
    Window-push bytes (r + 1) w ch xs (omega arith)
        (subst (λ n. w % size ≡ n % size) (omega arith) place) v,
  )
