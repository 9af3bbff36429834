-- ===== src/Core/Memory/Verified.antt =====
-- The compaction in place of the verified candidates is a filter.
use cautreo.Base.{
  filter, ℕ, zero, suc, ◌+◌, ◌≤◌, ◌<◌, ◌≡◌, refl, sym, ◌∙◌, Bool, Option, none, some, List, [], ◌∷◌,
  ◌++◌, append_assoc, append-nil, length, get_elem?, set, take, drop, length-set, Bool-cases,
  Option-cases, arith, inl, inr,
}
use cautreo.Base.Float.{FloatOps}
use cautreo.Core.Memory.{
  MemoryPattern, Memory, compact_loop, memory_recall, memory_retrieve_verified,
}

module _ {ℓ} {A : Type ℓ} where
  drop-get :
      (i : ℕ) (xs : List A) (x : A) → get_elem? xs i ≡ some x → drop i xs ≡ x ∷ drop (i + 1) xs
  drop-get i [] x h = absurd (ground arith)
  drop-get zero (y ∷ xs) x h = ground arith
  drop-get (suc i) (y ∷ xs) x h = ground (arith, drop-get i xs x h)

  drop_past : (i : ℕ) (xs : List A) → get_elem? xs i ≡ none → drop i xs ≡ []
  drop_past zero [] h = refl
  drop_past (suc i) [] h = refl
  drop_past zero (y ∷ xs) h = absurd (ground arith)
  drop_past (suc i) (y ∷ xs) h = drop_past i xs h

  drop_all : (i : ℕ) (xs : List A) → length xs ≤ i → drop i xs ≡ []
  drop_all zero [] h = refl
  drop_all (suc i) [] h = refl
  drop_all zero (y ∷ xs) h = absurd (omega arith)
  drop_all (suc i) (y ∷ xs) h = drop_all i xs (omega arith)

  take-set :
      (v : ℕ) (xs : List A) (x : A)
      → v < length xs
      → take (v + 1) (set xs v x) ≡ take v xs ++ (x ∷ [])
  take-set v [] x h = absurd (omega arith)
  take-set zero (y ∷ xs) x h = ground arith
  take-set (suc v) (y ∷ xs) x h = ground (arith, take-set v xs x)

  drop-set : (v i : ℕ) (xs : List A) (x : A) → v < i → drop i (set xs v x) ≡ drop i xs
  drop-set v i [] x h = refl
  drop-set v zero (y ∷ xs) x h = absurd (omega arith)
  drop-set zero (suc i) (y ∷ xs) x h = refl
  drop-set (suc v) (suc i) (y ∷ xs) x h = drop-set v i xs x (omega arith)

module _ {F : Type 0} (keep : MemoryPattern F → Bool) where
  compact_loop-filter :
      (n i : ℕ) (cs : List (MemoryPattern F)) (verified : ℕ)
      → verified ≤ i
      → i + n ≡ length cs
      → let r = compact_loop keep n i cs verified in
        take r.1 r.0 ≡ take verified cs ++ filter keep (drop i cs)
  unfolding compact_loop
  compact_loop-filter zero i cs verified h e = rw (drop_all i cs (omega arith)) (sym (append-nil _))
  compact_loop-filter (suc n) i cs verified h e = elim (Option-cases (get_elem? cs i)) [
    | inl p ↦ rw (p, compact_loop) (rw (drop_past i cs p) (sym (append-nil _)))
    | inr (c, p) ↦ elim (Bool-cases (keep c)) [
      | inl k ↦
          let len = length-set cs verified c in
          let rest = drop-get i cs c p in
          let front = take-set verified cs c (omega arith) in
          let back = drop-set verified (i + 1) cs c (omega arith) in
          rw (p, compact_loop, k)
            (compact_loop-filter n (i + 1) (set cs verified c) (verified + 1) (omega arith)
                (omega arith)
              ∙ simp (front, back, rest, k, append_assoc))
      | inr k ↦
          let rest = drop-get i cs c p in
          rw (p, compact_loop, k)
            (compact_loop-filter n (i + 1) cs verified (omega arith) (omega arith) ∙ simp (rest, k))
    ]
  ]

-- What is returned after verification is the recalled candidates whose confidence is 0.3 or above, in
-- their order. The confidence is all that decides: no domain and no constraint is compared.
pub memory_retrieve_verified-filter :
    (fl : FloatOps) (sqrt : fl.F → fl.F) (m : Memory fl.F) (query : Option (List fl.F))
    (max_candidates : ℕ)
    → memory_retrieve_verified fl sqrt m query max_candidates
      ≡ filter (λ c. fl.le (fl.lit 3 1) c.confidence) (memory_recall fl sqrt m query max_candidates)
unfolding memory_retrieve_verified
memory_retrieve_verified-filter fl sqrt m query max_candidates =
    compact_loop-filter _ _ 0 _ 0 (omega arith) (omega arith)
