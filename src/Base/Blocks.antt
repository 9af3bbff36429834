-- ===== src/Base/Blocks.antt =====
-- A flat array cut into blocks of one size: `memcpy` of a block to and from the block's offset.
use native.Mathlib.Decide.{dec_lt}
use cautreo.Base.{
  ℕ, zero, suc, ◌+◌, ◌*◌, ◌≤◌, ◌<◌, ◌≡◌, refl, ap, ◌≢◌, ◌⊎◌, inl, inr, List, [], ◌∷◌, length, take,
  arith, length-take, sym,
}

module _ {ℓ} {A : Type ℓ} where
  unfoldable pub slice : ℕ → ℕ → List A → List A
  slice zero n xs = take n xs
  slice (suc o) n [] = []
  slice (suc o) n (x ∷ xs) = slice o n xs

  -- A write behind the end is dropped; the callers keep within it.
  unfoldable pub put : List A → List A → List A
  put [] xs = xs
  put (d ∷ ds) [] = []
  put (d ∷ ds) (x ∷ xs) = d ∷ put ds xs

  unfoldable pub splice : ℕ → List A → List A → List A
  splice zero ds xs = put ds xs
  splice (suc o) ds [] = []
  splice (suc o) ds (x ∷ xs) = x ∷ splice o ds xs

  pub length-put : (ds xs : List A) → length (put ds xs) ≡ length xs
  unfolding put
  length-put [] xs = refl
  length-put (d ∷ ds) [] = refl
  length-put (d ∷ ds) (x ∷ xs) = ap suc (length-put ds xs)

  pub length-splice : (o : ℕ) (ds xs : List A) → length (splice o ds xs) ≡ length xs
  unfolding splice
  length-splice zero ds xs = length-put ds xs
  length-splice (suc o) ds [] = refl
  length-splice (suc o) ds (x ∷ xs) = ap suc (length-splice o ds xs)

  take-put : (ds xs : List A) → length ds ≤ length xs → take (length ds) (put ds xs) ≡ ds
  unfolding put
  take-put [] xs h = refl
  take-put (d ∷ ds) [] h = absurd (omega arith)
  take-put (d ∷ ds) (x ∷ xs) h = ap (◌∷◌ d) (take-put ds xs (omega arith))

  pub slice-splice_self :
      (o : ℕ) (ds xs : List A)
      → o + length ds ≤ length xs
      → slice o (length ds) (splice o ds xs) ≡ ds
  unfolding slice splice
  slice-splice_self zero ds xs h = take-put ds xs (omega arith)
  slice-splice_self (suc o) ds [] h = absurd (omega arith)
  slice-splice_self (suc o) ds (x ∷ xs) h = slice-splice_self o ds xs (omega arith)

  slice-put : (o n : ℕ) (ds xs : List A) → length ds ≤ o → slice o n (put ds xs) ≡ slice o n xs
  unfolding slice put
  slice-put o n [] xs h = refl
  slice-put o n (d ∷ ds) [] h = refl
  slice-put zero n (d ∷ ds) (x ∷ xs) h = absurd (omega arith)
  slice-put (suc o) n (d ∷ ds) (x ∷ xs) h = slice-put o n ds xs (omega arith)

  take-splice : (o n : ℕ) (ds xs : List A) → n ≤ o → take n (splice o ds xs) ≡ take n xs
  unfolding splice
  take-splice o zero ds xs h = refl
  take-splice zero (suc n) ds xs h = absurd (omega arith)
  take-splice (suc o) (suc n) ds [] h = refl
  take-splice (suc o) (suc n) ds (x ∷ xs) h = ap (◌∷◌ x) (take-splice o n ds xs (omega arith))

  pub slice-splice_apart :
      (p n o : ℕ) (ds xs : List A)
      → (p + n ≤ o) ⊎ (o + length ds ≤ p)
      → slice p n (splice o ds xs) ≡ slice p n xs
  unfolding slice splice
  slice-splice_apart zero n o ds xs (inl h) = take-splice o n ds xs (omega arith)
  slice-splice_apart zero n zero ds xs (inr h) = slice-put zero n ds xs (omega arith)
  slice-splice_apart zero n (suc o) ds xs (inr h) = absurd (omega arith)
  slice-splice_apart (suc p) n zero ds xs (inl h) = absurd (omega arith)
  slice-splice_apart (suc p) n zero ds xs (inr h) = slice-put (suc p) n ds xs (omega arith)
  slice-splice_apart (suc p) n (suc o) ds [] h = refl
  slice-splice_apart (suc p) n (suc o) ds (x ∷ xs) (inl h) =
      slice-splice_apart p n o ds xs (inl (omega arith))
  slice-splice_apart (suc p) n (suc o) ds (x ∷ xs) (inr h) =
      slice-splice_apart p n o ds xs (inr (omega arith))

  pub length-slice : (o n : ℕ) (xs : List A) → o + n ≤ length xs → length (slice o n xs) ≡ n
  unfolding slice
  length-slice zero n xs h = omega (arith, length-take n xs)
  length-slice (suc o) n [] h = absurd (omega arith)
  length-slice (suc o) n (x ∷ xs) h = length-slice o n xs (omega arith)

-- Blocks of `size` items, `rows` of them.
inside : (r rows size : ℕ) → r < rows → r * size + size ≤ rows * size
inside r rows size h = grind arith

apart : (r s size : ℕ) → r ≢ s → (r * size + size ≤ s * size) ⊎ (s * size + size ≤ r * size)
apart r s size h = elim (dec_lt r s) [
  | yes p ↦ inl (inside r s size p)
  | no p ↦ inr (inside s r size (omega arith))
]

module _ {ℓ} {A : Type ℓ} (size rows : ℕ) where
  pub slice-splice_block :
      (r : ℕ) (ds xs : List A)
      → length ds ≡ size
      → r < rows
      → rows * size ≤ length xs
      → slice (r * size) size (splice (r * size) ds xs) ≡ ds
  slice-splice_block r ds xs e h n =
      rw (← e)
        (slice-splice_self (r * length ds) ds xs (rw e (omega (arith, inside r rows size h))))

  pub slice-splice_other :
      (r s : ℕ) (ds xs : List A)
      → length ds ≡ size
      → r ≢ s
      → slice (s * size) size (splice (r * size) ds xs) ≡ slice (s * size) size xs
  slice-splice_other r s ds xs e h =
      slice-splice_apart (s * size) size (r * size) ds xs (rw e (apart s r size (λ p. h (sym p))))

  pub length-slice_block :
      (r : ℕ) (xs : List A)
      → r < rows
      → rows * size ≤ length xs
      → length (slice (r * size) size xs) ≡ size
  length-slice_block r xs h n =
      length-slice (r * size) size xs (omega (arith, inside r rows size h))
