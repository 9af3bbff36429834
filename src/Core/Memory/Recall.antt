-- ===== src/Core/Memory/Recall.antt =====
-- What is recalled: the best patterns, one after the other, as far as their scores reach 0.01.
use cautreo.Base.{
  ℕ, zero, suc, ◌+◌, ◌<◌, ◌≡◌, ◌≢◌, refl, sym, ap, ◌∙◌, ◌⊎◌, inl, inr, true, false, some, List, [],
  ◌∷◌, length, get_elem?, set, get_elem?-set_self, get_elem?-set_ne, min, All, Bool-cases, arith,
}
use cautreo.Base.Float.{FloatOps, IsOrdered}
use cautreo.Core.Memory.{
  Memory, lowest, best_scan, recall_loop, patterns_at, pattern_scores, memory_recall,
}

get_elem?-bound {ℓ} :
    {A : Type ℓ} (xs : List A) (i : ℕ) (x : A) → get_elem? xs i ≡ some x → i < length xs
get_elem?-bound [] i x h = absurd (ground arith)
get_elem?-bound (y ∷ xs) zero x h = omega arith
get_elem?-bound (y ∷ xs) (suc i) x h = omega (arith, get_elem?-bound xs i x h)

module _ (fl : FloatOps) where
  open fl use {F, lit, lt}

  -- The threshold.
  abbrev threshold : F
  threshold = lit 1 2

  -- The indices are picked from the scores one after the other: each has a score of 0.01 or more, which
  -- no score of those left exceeds, and is then taken out. With fewer than `n` picked, no score that is
  -- left reaches 0.01.
  abbrev pub Picks : ℕ → List F → List ℕ → Type 0
  Picks zero scores [] = Unit {0}
  Picks zero scores (i ∷ is) = ⊥
  Picks (suc n) scores [] = All (λ t. lt t (lit 1 2) ≡ true) scores
  Picks (suc n) scores (i ∷ is) =
      ((s : F) × (get_elem? scores i ≡ some s)
        × (lt s (lit 1 2) ≡ false)
        × All (λ t. lt s t ≡ false) scores)
      × Picks n (set scores i (lowest fl)) is

  -- No index stands twice in the list.
  abbrev pub Unique : List ℕ → Type 0
  Unique [] = Unit {0}
  Unique (i ∷ is) = All (λ j. j ≢ i) is × Unique is

  module _ (low : lt (lowest fl) (lit 1 2) ≡ true) where
    -- An index that is taken out is not picked.
    Picks-out :
        (n : ℕ) (scores : List F) (is : List ℕ) (i : ℕ)
        → get_elem? scores i ≡ some (lowest fl)
        → Picks n scores is
        → All (λ j. j ≢ i) is
    Picks-out zero scores [] i h p = tt
    Picks-out zero scores (j ∷ is) i h p = absurd p
    Picks-out (suc n) scores [] i h p = tt
    Picks-out (suc n) scores (j ∷ is) i h ((s, at, reach, top), rest) =
        let differ : j ≢ i = λ e. absurd (ground (arith, at, h, reach, low, e)) in
        (
          differ,
          Picks-out n (set scores j (lowest fl)) is i
              (get_elem?-set_ne scores j i (lowest fl) differ ∙ h) rest,
        )

    Picks-Unique : (n : ℕ) (scores : List F) (is : List ℕ) → Picks n scores is → Unique is
    Picks-Unique zero scores [] p = tt
    Picks-Unique zero scores (j ∷ is) p = absurd p
    Picks-Unique (suc n) scores [] p = tt
    Picks-Unique (suc n) scores (i ∷ is) ((s, at, reach, top), rest) = (
      Picks-out n (set scores i (lowest fl)) is i
          (get_elem?-set_self scores i (lowest fl) (get_elem?-bound scores i s at)) rest,
      Picks-Unique n (set scores i (lowest fl)) is rest,
    )

  module _ (ord : IsOrdered fl) where
    not_above : (m a b : F) → lt a b ≡ true → lt m b ≡ false → lt m a ≡ false
    not_above m a b p q = elim (Bool-cases (lt m a)) [
      | inl r ↦ absurd (ground (arith, ord.lt_trans m a b r p))
      | inr r ↦ r
    ]

    below : (s t u : F) → lt s u ≡ true → lt s t ≡ false → lt t u ≡ true
    below s t u p q = elim (Bool-cases (lt t u)) [
      | inl r ↦ r
      | inr r ↦ absurd (ground (arith, ord.nlt_trans s t u q r))
    ]

    below-All :
        (s u : F) (ts : List F)
        → lt s u ≡ true
        → All (λ t. lt s t ≡ false) ts
        → All (λ t. lt t u ≡ true) ts
    below-All s u [] p a = tt
    below-All s u (t ∷ ts) p (q, a) = (below s t u p q, below-All s u ts p a)

    best_scan-best :
        (j : ℕ) (ts : List F) (best : ℕ) (best_score : F)
        → let r = best_scan fl j ts best best_score in
          (m : F) × (r.1 ≡ m)
          × (((r.0 ≡ best) × (m ≡ best_score))
              ⊎ ((k : ℕ) × (r.0 ≡ j + k) × (get_elem? ts k ≡ some m)))
          × (lt m best_score ≡ false)
          × All (λ t. lt m t ≡ false) ts
    unfolding best_scan
    best_scan-best j [] best best_score =
        (best_score, refl, inl (refl, refl), ord.lt_irrefl best_score, tt)
    best_scan-best j (t ∷ ts) best best_score = elim (Bool-cases (lt best_score t)) [
      | inl up ↦
          let (m, value, source, top, rest) = best_scan-best (j + 1) ts j t in
          rw (up, best_scan)
            (
              m,
              value,
              elim source [
                | inl (a, b) ↦ inr (0, (rw a (omega arith)), ap some (sym b))
                | inr (k, a, b) ↦ inr (suc k, (rw a (omega arith)), b)
              ],
              not_above m best_score t up top,
              (top, rest),
            )
      | inr down ↦
          let (m, value, source, top, rest) = best_scan-best (j + 1) ts best best_score in
          rw (down, best_scan)
            (
              m,
              value,
              elim source [ inl p ↦ inl p | inr (k, a, b) ↦ inr (suc k, (rw a (omega arith)), b) ],
              top,
              (ord.nlt_trans m best_score t top down, rest),
            )
    ]

    recall_loop-Picks :
        lt (lowest fl) (lit 1 2) ≡ true
        → (n : ℕ) (scores : List F) → Picks n scores (recall_loop fl n scores)
    unfolding recall_loop
    recall_loop-Picks low zero scores = tt
    recall_loop-Picks low (suc n) scores =
        let (m, value, source, top, rest) = best_scan-best 0 scores 0 (lowest fl) in
        elim (Bool-cases (lt (best_scan fl 0 scores 0 (lowest fl)).1 threshold)) [
          | inl stop ↦ rw stop (below-All m threshold scores (ground (arith, stop, value)) rest)
          | inr go ↦ elim source [
            | inl (a, b) ↦ absurd (ground (arith, b, go, low, value))
            | inr (k, a, b) ↦
                let same : (best_scan fl 0 scores 0 (lowest fl)).0 ≡ k = omega arith in
                rw go (
                  (m, ap (get_elem? scores) same ∙ b, ground (arith, go, value), rest),
                  recall_loop-Picks low n _,
                )
          ]
        ]

    -- When the scores are ordered (none is a NaN) and -1e9 is below 0.01, and the query has the dimension
    -- of the memory and the array of candidates is not empty: the candidates are the patterns at indices
    -- that are picked from the scores, the best first and none twice.
    pub memory_recall-Picks :
        (sqrt : F → F) (m : Memory F) (query : List F) (max_candidates : ℕ)
        → lt (lowest fl) (lit 1 2) ≡ true
        → length query ≡ m.dim
        → max_candidates ≢ 0
        → (is : List ℕ) × (memory_recall fl sqrt m (some query) max_candidates
            ≡ patterns_at fl m.pattern.patterns is)
          × Picks
              (min max_candidates (length m.pattern.patterns))
              (pattern_scores fl sqrt query m.pattern.patterns)
              is
          × Unique is
    unfolding memory_recall
    memory_recall-Picks sqrt m query max_candidates low dims some_room =
        let is =
          recall_loop fl (min max_candidates (length m.pattern.patterns))
            (pattern_scores fl sqrt query m.pattern.patterns) in
        let p =
          recall_loop-Picks low (min max_candidates (length m.pattern.patterns))
            (pattern_scores fl sqrt query m.pattern.patterns) in
        (is, ground arith, p, Picks-Unique low _ _ is p)
