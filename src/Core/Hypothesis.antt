-- ===== src/Core/Hypothesis.antt =====
-- core/hypothesis/hypothesis.c: the population of hypotheses.
-- The population is not null and `count` is the length of the list of nodes. A string is its list of
-- bytes. Texts that the code releases are not read again, and keep their value here.
pub mod Numbering
pub mod Changes
pub mod Updates
pub mod Staying
pub mod Duplicates
mod Tests
use cautreo.Base.{
  ℕ, zero, suc, ◌+◌, ◌-◌, Bool, true, false, not, ◌&&◌, ◌||◌, Option, none, some, List, [], ◌∷◌,
  ◌++◌, length, ltb, leb, ◌==◌, if◌then◌else◌, inc64,
}
use cautreo.Base.Float.{FloatOps}
use cautreo.Core.Contracts.{
  HypothesisState, hyp_active, hyp_merged, hyp_pruned, is_accept, is_reject, EvidencePacket,
  outside_unit,
}

pub record HypothesisNode (F : Type 0) : Type 0 where
  pub state : HypothesisState F
  pub branch_depth : ℕ
  pub active : Bool
  pub used : Bool

pub record Population (F : Type 0) : Type 0 where
  pub nodes : List (HypothesisNode F)
  pub capacity : ℕ
  pub next_id : ℕ

-- `strcmp(a, b) == 0`.
unfoldable pub same_text : List ℕ → List ℕ → Bool
same_text [] [] = true
same_text (x ∷ a) (y ∷ b) = (x == y) && same_text a b
same_text _ _ = false

-- The inner loop: the bigram of `x` and `y` is one of the text.
unfoldable pub has_bigram : ℕ → ℕ → List ℕ → Bool
has_bigram x y (c ∷ d ∷ b) = ((c == x) && (d == y)) || has_bigram x y (d ∷ b)
has_bigram x y _ = false

-- `inter` after the outer loop.
unfoldable pub common_bigrams : List ℕ → List ℕ → ℕ
common_bigrams (x ∷ y ∷ a) b = (if has_bigram x y b then 1 else 0) + common_bigrams (y ∷ a) b
common_bigrams _ b = 0

-- `uni`; a theorem says that the difference does not fall below zero.
unfoldable pub bigram_union : List ℕ → List ℕ → ℕ
bigram_union a b = (length a - 1) + (length b - 1) - common_bigrams a b

module _ {F : Type 0} where
  unfoldable pub population_create : Population F
  population_create = record { nodes = []; capacity = 8 + 24 + 8; next_id = 1 }

  -- The loops that look for a used node with an identifier.
  unfoldable pub find_node : ℕ → List (HypothesisNode F) → Option (HypothesisNode F)
  find_node id [] = none
  find_node id (n ∷ ns) = if (n.state.id == id) && n.used then some n else find_node id ns

  -- The same with a change of the node that is found.
  unfoldable pub update_node :
      ℕ
      → (HypothesisNode F → HypothesisNode F)
      → List (HypothesisNode F)
      → List (HypothesisNode F) × Bool
  update_node id f [] = ([], false)
  update_node id f (n ∷ ns) =
      let rest = update_node id f ns in
      if (n.state.id == id) && n.used then (f n ∷ ns, true) else (n ∷ rest.0, rest.1)

  unfoldable pub state_of : Option (HypothesisNode F) → Option (HypothesisState F)
  state_of none = none
  state_of (some n) = some n.state

  unfoldable pub population_get : Population F → ℕ → Option (HypothesisState F)
  population_get pop id = state_of (find_node id pop.nodes)

  unfoldable pub pruned : HypothesisNode F → HypothesisNode F
  pruned n = record n {
    used = false;
    active = false;
    state = record (n.state) { status = hyp_pruned };
  }

  unfoldable pub population_prune : Population F → ℕ → Population F × Bool
  population_prune pop id =
      let (ns, found) = update_node id pruned pop.nodes in (record pop { nodes = ns }, found)

  unfoldable pub count_nodes : (HypothesisNode F → Bool) → List (HypothesisNode F) → ℕ
  count_nodes p [] = 0
  count_nodes p (n ∷ ns) = (if p n then 1 else 0) + count_nodes p ns

  unfoldable pub population_active_count : Population F → ℕ
  population_active_count pop = count_nodes (λ n. n.used && n.active) pop.nodes

  unfoldable pub population_dormant_count : Population F → ℕ
  population_dormant_count pop = count_nodes (λ n. n.used && not n.active) pop.nodes

  -- The loop of `population_merge`: the last node with the identifier, used or not.
  unfoldable pub last_with : ℕ → List (HypothesisNode F) → Option (HypothesisState F)
  last_with id [] = none
  last_with id (n ∷ ns) = elim (last_with id ns) [
    | some h ↦ some h
    | none ↦ if n.state.id == id then some n.state else none
  ]

  unfoldable pub set_last :
      ℕ → HypothesisState F → List (HypothesisNode F) → List (HypothesisNode F)
  set_last id h [] = []
  set_last id h (n ∷ ns) = elim (last_with id ns) [
    | some _ ↦ n ∷ set_last id h ns
    | none ↦ (if n.state.id == id then record n { state = h } else n) ∷ ns
  ]

module _ (fl : FloatOps) where
  open fl use {F, lit, add, sub, mul, div, lt, le, of_ℕ}

  unfoldable pub string_similarity : Option (List ℕ) → Option (List ℕ) → F
  string_similarity none b = lit 0 0
  string_similarity (some a) none = lit 0 0
  string_similarity (some a) (some b) =
      if same_text a b
      then lit 1 0
      else if ltb (length a) 2 || ltb (length b) 2
      then lit 0 0
      else if bigram_union a b == 0
      then lit 0 0
      else div (of_ℕ (common_bigrams a b)) (of_ℕ (bigram_union a b))

  unfoldable pub are_duplicates : Option (HypothesisState F) → Option (HypothesisState F) → F → Bool
  are_duplicates none b threshold = false
  are_duplicates (some a) none threshold = false
  are_duplicates (some a) (some b) threshold = le threshold (string_similarity a.claim b.claim)

  unfoldable pub new_node : ℕ → List ℕ → F → HypothesisNode F
  new_node id claim prior = record {
    state = record {
      id = id;
      claim = some claim;
      prior_score = prior;
      support = lit 0 0;
      contradiction = lit 0 0;
      uncertainty = sub (lit 1 0) prior;
      support_evidence = none;
      n_support = 0;
      contra_evidence = none;
      n_contra = 0;
      status = hyp_active;
    };
    branch_depth = 0;
    active = true;
    used = true;
  }

  -- The new population, and the identifier, which is 0 when nothing was added.
  unfoldable pub population_add : Population F → Option (List ℕ) → F → Population F × ℕ
  population_add pop none prior = (pop, 0)
  population_add pop (some claim) prior =
      if outside_unit fl prior
      then (pop, 0)
      else if leb pop.capacity (length pop.nodes)
      then (pop, 0)
      else (
        record pop {
          nodes = pop.nodes ++ (new_node pop.next_id claim prior ∷ []);
          next_id = inc64 pop.next_id;
        },
        pop.next_id,
      )

  -- The claim of `a` has a similarity above 0.8 to that of `b`.
  unfoldable pub near : HypothesisNode F → HypothesisNode F → Bool
  near a b = lt (lit 8 1) (string_similarity a.state.claim b.state.claim)

  -- The higher prior score of the two goes to the first.
  unfoldable pub absorb : HypothesisNode F → HypothesisNode F → HypothesisNode F
  absorb a b =
      if lt a.state.prior_score b.state.prior_score
      then record a { state = record (a.state) { prior_score = b.state.prior_score } }
      else a

  -- The inner loop of `population_normalize`, for the node `a` and those behind it.
  unfoldable pub dedup_loop :
      HypothesisNode F → List (HypothesisNode F) → HypothesisNode F × List (HypothesisNode F)
  dedup_loop a [] = (a, [])
  dedup_loop a (b ∷ ns) =
      let hit = b.used && near a b in
      let r = dedup_loop (if hit then absorb a b else a) ns in
      (r.0, (if hit then record b { used = false } else b) ∷ r.1)

  unfoldable pub normalize_loop : ℕ → List (HypothesisNode F) → List (HypothesisNode F)
  normalize_loop zero ns = ns
  normalize_loop (suc k) [] = []
  normalize_loop (suc k) (a ∷ ns) =
      let r = if a.used then dedup_loop a ns else (a, ns) in r.0 ∷ normalize_loop k r.1

  unfoldable pub population_normalize : Population F → Population F
  population_normalize pop = record pop { nodes = normalize_loop (length pop.nodes) pop.nodes }

  unfoldable pub merged : HypothesisState F → HypothesisState F → HypothesisState F
  merged a b = record a {
    support = add a.support b.support;
    contradiction = add a.contradiction b.contradiction;
    uncertainty = div (add a.uncertainty b.uncertainty) (lit 2 0);
    status = hyp_merged;
  }

  -- With `a = b` the two pointers are one: the support that is added is then the same, before the
  -- change, and the uncertainty too, so that `merged` covers that case.
  unfoldable pub population_merge : Population F → ℕ → ℕ → Population F × ℕ
  population_merge pop a b = elim (last_with a pop.nodes) [
    | none ↦ (pop, 0)
    | some ha ↦ elim (last_with b pop.nodes) [
      | none ↦ (pop, 0)
      | some hb ↦ (record pop { nodes = set_last a (merged ha hb) pop.nodes }, ha.id)
    ]
  ]

  unfoldable pub population_score : Population F → ℕ → F
  population_score pop id = elim (find_node id pop.nodes) [
    | none ↦ lit 0 0
    | some n ↦ sub (add n.state.prior_score n.state.support) n.state.contradiction
  ]

  unfoldable pub weigh : EvidencePacket F → HypothesisState F → HypothesisState F
  weigh e h =
      let amount = mul e.strength e.reliability in
      if is_accept e.decision
      then record h { support = add h.support amount }
      else if is_reject e.decision
      then record h { contradiction = add h.contradiction amount }
      else h

  unfoldable pub with_uncertainty : HypothesisState F → HypothesisState F
  with_uncertainty h =
      let total = add h.support h.contradiction in
      record h {
        uncertainty = if lt (lit 0 0) total then div h.contradiction total else h.uncertainty;
      }

  unfoldable pub population_apply_evidence :
      Population F → Option (EvidencePacket F) → Population F × Bool
  population_apply_evidence pop none = (pop, false)
  population_apply_evidence pop (some e) =
      let (ns, found) =
        update_node e.hypothesis_id (λ n. record n { state = with_uncertainty (weigh e n.state) })
          pop.nodes in
      (record pop { nodes = ns }, found)
