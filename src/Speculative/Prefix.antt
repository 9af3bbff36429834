-- ===== src/Speculative/Prefix.antt =====
-- What verification accepts is the longest prefix that agrees with the target, and the statistics.
use cautreo.Base.{
  ℕ, zero, suc, ◌+◌, ◌%◌, ◌^◌, ◌≤◌, ◌≡◌, inl, inr, true, ◌&&◌, some, List, [], ◌∷◌, length, ltb,
  ◌==◌, Bool-cases, arith, ◌↔◌,
}
use cautreo.Base.Float.{FloatOps}
use cautreo.Speculative.{SpecContext, SpecDraft, accept_loop, spec_verify, record_pass}

module _ (fl : FloatOps) where
  open fl use {F, le}

  -- The first `n` drafted tokens equal the target's, with confidences at the threshold or above.
  abbrev pub Agree : F → ℕ → List ℕ → List F → List ℕ → Type 0
  Agree threshold zero ts cs gs = Unit {0}
  Agree threshold (suc n) (t ∷ ts) (c ∷ cs) (g ∷ gs) =
      (le threshold c ≡ true) × (t ≡ g) × Agree threshold n ts cs gs
  Agree threshold (suc n) _ _ _ = ⊥

  module _ (threshold : F) where
    -- The counter only shifts the result.
    accept_loop-add :
        (n : ℕ) (ts : List ℕ) (cs : List F) (gs : List ℕ) (acc : ℕ)
        → accept_loop fl n threshold ts cs gs acc ≡ acc + accept_loop fl n threshold ts cs gs 0
    unfolding accept_loop
    accept_loop-add zero ts cs gs acc = omega arith
    accept_loop-add (suc n) [] cs gs acc = omega arith
    accept_loop-add (suc n) (t ∷ ts) [] gs acc = omega arith
    accept_loop-add (suc n) (t ∷ ts) (c ∷ cs) [] acc = omega arith
    accept_loop-add (suc n) (t ∷ ts) (c ∷ cs) (g ∷ gs) acc =
        ground (arith, accept_loop-add n ts cs gs (acc + 1), accept_loop-add n ts cs gs (0 + 1))

    accept_loop-le :
        (n : ℕ) (ts : List ℕ) (cs : List F) (gs : List ℕ)
        → accept_loop fl n threshold ts cs gs 0 ≤ n
    unfolding accept_loop
    accept_loop-le zero ts cs gs = omega arith
    accept_loop-le (suc n) [] cs gs = omega arith
    accept_loop-le (suc n) (t ∷ ts) [] gs = omega arith
    accept_loop-le (suc n) (t ∷ ts) (c ∷ cs) [] = omega arith
    accept_loop-le (suc n) (t ∷ ts) (c ∷ cs) (g ∷ gs) =
        ground (arith, accept_loop-add n ts cs gs (0 + 1), accept_loop-le n ts cs gs)

    -- A number of tokens within the limit agrees exactly when it is at most the number accepted.
    accept_loop-longest :
        (n k : ℕ) (ts : List ℕ) (cs : List F) (gs : List ℕ)
        → k ≤ n
        → (k ≤ accept_loop fl n threshold ts cs gs 0 → Agree threshold k ts cs gs)
          × (Agree threshold k ts cs gs → k ≤ accept_loop fl n threshold ts cs gs 0)
    unfolding accept_loop
    accept_loop-longest n zero ts cs gs h = (λ _. tt, λ _. omega arith)
    accept_loop-longest zero (suc k) ts cs gs h = absurd (omega arith)
    accept_loop-longest (suc n) (suc k) [] cs gs h = (λ p. absurd (omega arith), λ a. absurd a)
    accept_loop-longest (suc n) (suc k) (t ∷ ts) [] gs h =
        (λ p. absurd (omega arith), λ a. absurd a)
    accept_loop-longest (suc n) (suc k) (t ∷ ts) (c ∷ cs) [] h =
        (λ p. absurd (omega arith), λ a. absurd a)
    accept_loop-longest (suc n) (suc k) (t ∷ ts) (c ∷ cs) (g ∷ gs) h =
        let (to, from) = accept_loop-longest n k ts cs gs (omega arith) in
        (
          λ p. elim (Bool-cases (le threshold c && (t == g))) [
            | inl pass ↦ (
              ground arith,
              ground arith,
              to (ground (arith, accept_loop-add n ts cs gs (0 + 1))),
            )
            | inr fail ↦ absurd (ground arith)
          ],
          λ (a, b, rest). let q = from rest in ground (arith, accept_loop-add n ts cs gs (0 + 1)),
        )

  module _ (ctx : SpecContext F) (draft : SpecDraft F) (target : List ℕ) where
    abbrev pub verified : SpecContext F × ℕ
    verified = spec_verify fl ctx (some draft) (some target)

    -- The accepted number is that of the longest agreeing prefix: it is at most the length of the
    -- draft and of the target, and a prefix within both agrees with the target, with sufficient
    -- confidences, exactly when it is not longer.
    pub spec_verify-longest :
        (verified.1 ≤ draft.n_tokens)
        × (verified.1 ≤ length target)
        × ((k : ℕ)
            → k ≤ draft.n_tokens
            → k ≤ length target
            → (k ≤ verified.1)
              ↔ Agree ctx.cfg.confidence_threshold k draft.tokens draft.confidences target)
    unfolding spec_verify
    spec_verify-longest = elim (Bool-cases (ltb draft.n_tokens (length target))) [
      | inl less ↦ rw less (
        omega (arith, bound draft.n_tokens),
        ground (arith, bound draft.n_tokens),
        λ k p q. accept_loop-longest _ draft.n_tokens k _ _ _ p,
      )
      | inr more ↦ rw more (
        ground (arith, bound (length target)),
        omega (arith, bound (length target)),
        λ k p q. accept_loop-longest _ (length target) k _ _ _ q,
      )
    ]
      where
        bound :
            (n : ℕ)
            → accept_loop fl n ctx.cfg.confidence_threshold draft.tokens draft.confidences target 0
              ≤ n
        bound n =
            accept_loop-le ctx.cfg.confidence_threshold n draft.tokens draft.confidences target

    -- Each pass counts every drafted token once, as accepted or as rejected, modulo 2^64.
    pub spec_verify-counts :
        (verified.0.stats.n_accepted + verified.0.stats.n_rejected) % 2 ^ 64
        ≡ (ctx.stats.n_accepted + ctx.stats.n_rejected + draft.n_tokens) % 2 ^ 64
    unfolding spec_verify record_pass
    spec_verify-counts =
        let within : verified.1 ≤ draft.n_tokens = spec_verify-longest.0 in omega arith
