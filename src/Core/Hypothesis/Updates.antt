-- ===== src/Core/Hypothesis/Updates.antt =====
-- Pruning and evidence: what they do to the hypothesis that they name, and what they leave alone.
use cautreo.Base.{
  ℕ, ◌+◌, ◌<◌, ◌≡◌, refl, Bool, true, false, Option, none, some, List, [], ◌∷◌, length, ◌==◌,
  if◌then◌else◌, arith,
}
use cautreo.Base.Float.{FloatOps}
use cautreo.Core.Contracts.{HypothesisState, EvidencePacket}
use cautreo.Core.Hypothesis.{
  HypothesisNode, Population, find_node, update_node, state_of, population_get, population_prune,
  population_apply_evidence, pruned, weigh, with_uncertainty,
}
use cautreo.Core.Hypothesis.Numbering.{ids, numbers, weigh-id}

-- A change of what is there.
abbrev pub changed {ℓ} : {A : Type ℓ} → (A → A) → Option A → Option A
changed f none = none
changed f (some a) = some (f a)

abbrev pub is_some {ℓ} : {A : Type ℓ} → Option A → Bool
is_some none = false
is_some (some a) = true

module _ {F : Type 0} where
  -- A change that keeps a node in use.
  find_node-update_node :
      (id other : ℕ) (g : HypothesisState F → HypothesisState F)
      → ((h : HypothesisState F) → (g h).id ≡ h.id)
      → (ns : List (HypothesisNode F))
      → let r = update_node id (λ n. record n { state = g n.state }) ns in
        (state_of (find_node other r.0) ≡ (
          if other == id
          then changed g (state_of (find_node other ns))
          else state_of (find_node other ns)))
        × (r.1 ≡ is_some (state_of (find_node id ns)))
  unfolding find_node update_node state_of
  find_node-update_node id other g keeps [] = (ground arith, refl)
  find_node-update_node id other g keeps (n ∷ ns) =
      let (a, b) = find_node-update_node id other g keeps ns in
      let k = keeps n.state in (ground arith, ground arith)

  -- No node has an identifier below the first number.
  find_node-below :
      (id i : ℕ) (ns : List (HypothesisNode F))
      → ids ns ≡ numbers i (length ns)
      → id < i
      → find_node id ns ≡ none
  unfolding find_node
  find_node-below id i [] e h = refl
  find_node-below id i (n ∷ ns) e h =
      let first : n.state.id ≡ i = ground arith in
      let rest : ids ns ≡ numbers (i + 1) (length ns) = ground arith in
      ground (arith, find_node-below id (i + 1) ns rest (omega arith))

  find_node-pruned :
      (id other i : ℕ) (ns : List (HypothesisNode F))
      → ids ns ≡ numbers i (length ns)
      → let r = update_node id pruned ns in
        (find_node other r.0 ≡ (if other == id then none else find_node other ns))
        × (r.1 ≡ is_some (find_node id ns))
  unfolding find_node update_node pruned
  find_node-pruned id other i [] e = (ground arith, refl)
  find_node-pruned id other i (n ∷ ns) e =
      let first : n.state.id ≡ i = ground arith in
      let rest : ids ns ≡ numbers (i + 1) (length ns) = ground arith in
      let (a, b) = find_node-pruned id other (i + 1) ns rest in
      let below : i < i + 1 → find_node i ns ≡ none = find_node-below i (i + 1) ns rest in
      (ground arith, ground arith)

  -- The identifiers of a population being numbered: pruning takes the hypothesis out of use, leaves
  -- every other one as it was, and succeeds exactly when the hypothesis was in use.
  pub population_prune-get :
      (pop : Population F) (id other : ℕ)
      → ids pop.nodes ≡ numbers 1 (length pop.nodes)
      → let (pop', found) = population_prune pop id in
        (population_get pop' other ≡ (if other == id then none else population_get pop other))
        × (found ≡ is_some (population_get pop id))
  unfolding population_prune population_get state_of
  population_prune-get pop id other e =
      let (a, b) = find_node-pruned id other 1 pop.nodes e in (ground (arith, a), ground (arith, b))

module _ (fl : FloatOps) where
  open fl use {F}

  -- Evidence changes the hypothesis it names, by the weight of the evidence and a new uncertainty,
  -- leaves every other one as it was, and is applied exactly when that hypothesis is in use.
  pub population_apply_evidence-get :
      (pop : Population F) (e : EvidencePacket F) (other : ℕ)
      → let (pop', applied) = population_apply_evidence fl pop (some e) in
        (population_get pop' other ≡ (
          if other == e.hypothesis_id
          then changed (λ h. with_uncertainty fl (weigh fl e h)) (population_get pop other)
          else population_get pop other))
        × (applied ≡ is_some (population_get pop e.hypothesis_id))
  unfolding population_apply_evidence population_get
  population_apply_evidence-get pop e other =
      find_node-update_node e.hypothesis_id other (λ h. with_uncertainty fl (weigh fl e h))
        (weigh-id fl e) pop.nodes
