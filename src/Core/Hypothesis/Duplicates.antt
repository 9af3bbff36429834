-- ===== src/Core/Hypothesis/Duplicates.antt =====
-- Near-duplicates: the measure of similarity, and what a normalization leaves.
use cautreo.Base.{
  map, ℕ, zero, suc, ◌+◌, ◌-◌, ◌≤◌, ◌≡◌, sym, ◌∙◌, subst, true, false, ◌&&◌, Option, List, [], ◌∷◌,
  length, All, Bool-cases, arith, inl, inr,
}
use cautreo.Base.Float.{FloatOps}
use cautreo.Core.Hypothesis.Staying.{
  if_true, absorb-claim, dedup_loop-claim, near_lem, stays, normalize_loop-stays,
}
use cautreo.Core.Hypothesis.{
  HypothesisNode, Population, common_bigrams, bigram_union, string_similarity, near, absorb,
  dedup_loop, normalize_loop, population_normalize,
}

common_bigrams-le : (a b : List ℕ) → common_bigrams a b ≤ length a - 1
unfolding common_bigrams
common_bigrams-le [] b = omega arith
common_bigrams-le (x ∷ []) b = omega arith
common_bigrams-le (x ∷ y ∷ a) b = ground (arith, common_bigrams-le (y ∷ a) b)

-- When the second text has two characters or more, the union is the bigrams of both less those in
-- common, with no wrap below zero, and it is not zero.
pub bigram_union-positive :
    (a b : List ℕ)
    → 2 ≤ length b
    → (bigram_union a b + common_bigrams a b ≡ (length a - 1) + (length b - 1))
      × (1 ≤ bigram_union a b)
unfolding bigram_union
bigram_union-positive a b h =
    (omega (arith, common_bigrams-le a b), omega (arith, common_bigrams-le a b))

module _ (fl : FloatOps) where
  open fl use {F, lit, lt}

  -- The node is not in use, or its claim is no near-duplicate of `c`.
  abbrev pub Far : Option (List ℕ) → HypothesisNode F → Type 0
  Far c b = b.used ≡ true → lt (lit 8 1) (string_similarity fl c b.state.claim) ≡ false

  -- No node in use is a near-duplicate of an earlier one in use. The similarity is not symmetric; it is
  -- that of the earlier claim, whose bigrams are counted, to the later one.
  abbrev pub Deduped : List (HypothesisNode F) → Type 0
  Deduped [] = Unit {0}
  Deduped (a ∷ ns) = (a.used ≡ true → All (Far a.state.claim) ns) × Deduped ns

  dedup_loop-Far :
      (a : HypothesisNode F) (ns : List (HypothesisNode F))
      → All (Far a.state.claim) (dedup_loop fl a ns).1
  unfolding dedup_loop
  dedup_loop-Far a [] = tt
  dedup_loop-Far a (b ∷ ns) = elim (Bool-cases (b.used && near fl a b)) [
    | inl hit ↦ rw hit (
      (λ u. absurd (ground arith)),
      subst (λ c. All (Far c) (dedup_loop fl (absorb fl a b) ns).1) (absorb-claim fl a b).0
          (dedup_loop-Far (absorb fl a b) ns),
    )
    | inr miss ↦ rw miss ((λ u. sym (near_lem fl a b) ∙ ground arith), dedup_loop-Far a ns)
  ]

  dedup_loop-keeps :
      (c : Option (List ℕ)) (a : HypothesisNode F) (ns : List (HypothesisNode F))
      → All (Far c) ns
      → All (Far c) (dedup_loop fl a ns).1
  unfolding dedup_loop
  dedup_loop-keeps c a [] h = tt
  dedup_loop-keeps c a (b ∷ ns) (h, hs) = elim (Bool-cases (b.used && near fl a b)) [
    | inl hit ↦ rw hit ((λ u. absurd (ground arith)), dedup_loop-keeps c (absorb fl a b) ns hs)
    | inr miss ↦ rw miss (h, dedup_loop-keeps c a ns hs)
  ]

  normalize_loop-keeps :
      (c : Option (List ℕ)) (k : ℕ) (ns : List (HypothesisNode F))
      → All (Far c) ns
      → All (Far c) (normalize_loop fl k ns)
  unfolding normalize_loop
  normalize_loop-keeps c zero ns h = h
  normalize_loop-keeps c (suc k) [] h = tt
  normalize_loop-keeps c (suc k) (a ∷ ns) (h, hs) = elim (Bool-cases a.used) [
    | inl u ↦
        let e = if_true a.used (dedup_loop fl a ns) (a, ns) u in
        let (claim, used, len) = dedup_loop-claim fl a ns in
        rw e (
          (λ v. subst (λ x. lt (lit 8 1) (string_similarity fl c x) ≡ false) (sym claim) (h u)),
          normalize_loop-keeps c k _ (dedup_loop-keeps c a ns hs),
        )
    | inr u ↦ rw u ((λ v. absurd (ground arith)), normalize_loop-keeps c k ns hs)
  ]

  normalize_loop-Deduped :
      (k : ℕ) (ns : List (HypothesisNode F)) → length ns ≤ k → Deduped (normalize_loop fl k ns)
  unfolding normalize_loop
  normalize_loop-Deduped zero [] h = tt
  normalize_loop-Deduped zero (a ∷ ns) h = absurd (omega arith)
  normalize_loop-Deduped (suc k) [] h = tt
  normalize_loop-Deduped (suc k) (a ∷ ns) h = elim (Bool-cases a.used) [
    | inl u ↦
        let e = if_true a.used (dedup_loop fl a ns) (a, ns) u in
        let (claim, used, len) = dedup_loop-claim fl a ns in
        rw e (
          (λ v.
              normalize_loop-keeps _ k _ (
                subst (λ x. All (Far x) (dedup_loop fl a ns).1) (sym claim) (dedup_loop-Far a ns))),
          normalize_loop-Deduped k _ (omega arith),
        )
    | inr u ↦ rw u ((λ v. absurd (ground arith)), normalize_loop-Deduped k ns (omega arith))
  ]

  -- A normalization goes through the hypotheses in order and leaves one in use exactly when it was and no
  -- earlier one that stays has a claim with a similarity above 0.8 to its claim. So afterwards no
  -- hypothesis in use has a claim to which the claim of an earlier one in use has such a similarity, taken from the earlier claim to the later one as the code takes it; of
  -- the similarity from the later to the earlier, which can differ, nothing is said.
  pub population_normalize-Deduped :
      (pop : Population F)
      → Deduped (population_normalize fl pop).nodes
        × (map (λ n. n.used) (population_normalize fl pop).nodes ≡ stays fl [] pop.nodes)
  unfolding population_normalize
  population_normalize-Deduped pop = (
    normalize_loop-Deduped (length pop.nodes) pop.nodes (omega arith),
    normalize_loop-stays fl (length pop.nodes) pop.nodes (omega arith),
  )
