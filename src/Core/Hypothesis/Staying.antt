-- ===== src/Core/Hypothesis/Staying.antt =====
-- Which hypotheses a normalization leaves in use.
use cautreo.Base.{
  ℕ, zero, suc, ◌≤◌, ◌≡◌, refl, ap, ◌∙◌, Bool, true, false, not, ◌&&◌, ◌||◌, Option, List, [], ◌∷◌,
  ◌++◌, map, length, if◌then◌else◌, Bool-cases, arith, inl, inr,
}
use cautreo.Base.Float.{FloatOps}
use cautreo.Core.Hypothesis.{
  HypothesisNode, string_similarity, near, absorb, dedup_loop, normalize_loop,
}

pub if_true {ℓ} : {A : Type ℓ} (b : Bool) (x y : A) → b ≡ true → (if b then x else y) ≡ x
if_true true x y h = refl
if_true false x y h = absurd (ground arith)

module _ (fl : FloatOps) where
  open fl use {F, lit, lt}

  -- One of the claims has a similarity above 0.8 to the claim.
  abbrev pub near_any : List (Option (List ℕ)) → Option (List ℕ) → Bool
  near_any [] d = false
  near_any (c ∷ cs) d = lt (lit 8 1) (string_similarity fl c d) || near_any cs d

  -- Of each hypothesis, whether it stays, those before it that stay having the given claims: it is in
  -- use, and none of those claims is near it.
  abbrev pub stays : List (Option (List ℕ)) → List (HypothesisNode F) → List Bool
  stays seen [] = []
  stays seen (n ∷ ns) =
      let u = n.used && not (near_any seen n.state.claim) in
      u ∷ (if u then stays (seen ++ (n.state.claim ∷ [])) ns else stays seen ns)

  -- Those that are near the claim leave.
  abbrev thinned : Option (List ℕ) → List (HypothesisNode F) → List (HypothesisNode F)
  thinned c [] = []
  thinned c (n ∷ ns) =
      record n { used = n.used && not (lt (lit 8 1) (string_similarity fl c n.state.claim)) }
      ∷ thinned c ns

  pub absorb-claim :
      (a b : HypothesisNode F)
      → ((absorb fl a b).state.claim ≡ a.state.claim) × ((absorb fl a b).used ≡ a.used)
  unfolding absorb
  absorb-claim a b = (ground arith, ground arith)

  pub dedup_loop-claim :
      (a : HypothesisNode F) (ns : List (HypothesisNode F))
      → let r = dedup_loop fl a ns in
        (r.0.state.claim ≡ a.state.claim) × (r.0.used ≡ a.used) × (length r.1 ≡ length ns)
  unfolding dedup_loop
  dedup_loop-claim a [] = (refl, refl, refl)
  dedup_loop-claim a (b ∷ ns) =
      let (p, q) = absorb-claim a b in
      let (c, u, l) = dedup_loop-claim a ns in
      let (c', u', l') = dedup_loop-claim (absorb fl a b) ns in
      (ground arith, ground arith, ground arith)

  pub near_lem :
      (a b : HypothesisNode F)
      → near fl a b ≡ lt (lit 8 1) (string_similarity fl a.state.claim b.state.claim)
  unfolding near
  near_lem a b = refl

  dedup_loop-thinned :
      (a : HypothesisNode F) (ns : List (HypothesisNode F))
      → (dedup_loop fl a ns).1 ≡ thinned a.state.claim ns
  unfolding dedup_loop
  dedup_loop-thinned a [] = refl
  dedup_loop-thinned a (b ∷ ns) =
      let claim = (absorb-claim a b).0 in
      let rest = dedup_loop-thinned a ns in
      let rest' = dedup_loop-thinned (absorb fl a b) ns ∙ ap (λ c. thinned c ns) claim in
      let same = near_lem a b in
      elim (Bool-cases (b.used && near fl a b)) [
        | inl hit ↦
            let leaves : b.used
                  && not (lt (lit 8 1) (string_similarity fl a.state.claim b.state.claim))
                ≡ false =
              ground (arith, same, hit) in
            rw hit (rw leaves (ap (◌∷◌ (record b { used = false })) rest'))
        | inr miss ↦
            let remains : b.used
                  && not (lt (lit 8 1) (string_similarity fl a.state.claim b.state.claim))
                ≡ b.used =
              ground (arith, same, miss) in
            rw miss (rw remains (ap (◌∷◌ b) rest))
      ]

  stays-thinned :
      (c : Option (List ℕ)) (seen : List (Option (List ℕ))) (ns : List (HypothesisNode F))
      → stays seen (thinned c ns) ≡ stays (c ∷ seen) ns
  stays-thinned c seen [] = refl
  stays-thinned c seen (n ∷ ns) =
      let kept = stays-thinned c (seen ++ (n.state.claim ∷ [])) ns in
      let gone = stays-thinned c seen ns in ground (arith, kept, gone)

  pub normalize_loop-stays :
      (k : ℕ) (ns : List (HypothesisNode F))
      → length ns ≤ k
      → map (λ n. n.used) (normalize_loop fl k ns) ≡ stays [] ns
  unfolding normalize_loop
  normalize_loop-stays zero [] h = refl
  normalize_loop-stays zero (a ∷ ns) h = absurd (omega arith)
  normalize_loop-stays (suc k) [] h = refl
  normalize_loop-stays (suc k) (a ∷ ns) h = elim (Bool-cases a.used) [
    | inl u ↦
        let e = if_true a.used (dedup_loop fl a ns) (a, ns) u in
        let (claim, used, len) = dedup_loop-claim a ns in
        let rest =
          normalize_loop-stays k (dedup_loop fl a ns).1 (omega arith)
          ∙ ap (stays []) (dedup_loop-thinned a ns)
          ∙ stays-thinned a.state.claim [] ns in
        rw e (ground (arith, used, u, rest))
    | inr u ↦ let rest = normalize_loop-stays k ns (omega arith) in rw u (ap (◌∷◌ false) rest)
  ]
