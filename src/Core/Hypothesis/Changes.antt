-- ===== src/Core/Hypothesis/Changes.antt =====
-- What an addition and a merge do to the population, and what they leave alone.
use cautreo.Base.{
  subst, ℕ, ◌+◌, ◌<◌, ◌≤◌, ◌≡◌, ◌≢◌, refl, ap, ◌∙◌, Bool, true, false, ◌&&◌, none, some, List, [],
  ◌∷◌, ◌++◌, length, ◌==◌, if◌then◌else◌, Bool-cases, Option-cases, leb, arith, inl, inr, ◌⊎◌,
}
use cautreo.Base.Float.{FloatOps}
use cautreo.Core.Contracts.{HypothesisState, outside_unit, hyp_active}
use cautreo.Core.Hypothesis.{
  HypothesisNode, Population, find_node, state_of, population_get, population_add, population_merge,
  population_active_count, count_nodes, last_with, set_last, new_node, merged,
}
use cautreo.Core.Hypothesis.Numbering.{Inv, ids, numbers, last_with-id}

module _ {F : Type 0} where
  find_node-set_last :
      (id other : ℕ) (h : HypothesisState F) (ns : List (HypothesisNode F))
      → other ≢ id
      → h.id ≡ id
      → (find_node other (set_last id h ns) ≡ find_node other ns)
        × (count_nodes (λ n. n.used && n.active) (set_last id h ns)
            ≡ count_nodes (λ n. n.used && n.active) ns)
  unfolding find_node set_last count_nodes
  find_node-set_last id other h [] ne e = (refl, refl)
  find_node-set_last id other h (n ∷ ns) ne e =
      let (a, b) = find_node-set_last id other h ns ne e in
      elim (Option-cases (last_with id ns)) [
        | inl p ↦ rw (p, set_last) (ground arith, ground arith)
        | inr (g, p) ↦ rw (p, set_last) (rw a refl, rw b refl)
      ]

  find_node-append :
      (id : ℕ) (ns : List (HypothesisNode F)) (m : HypothesisNode F)
      → find_node id ns ≡ none
      → find_node id (ns ++ (m ∷ [])) ≡ (if (m.state.id == id) && m.used then some m else none)
  unfolding find_node
  find_node-append id [] m h = refl
  find_node-append id (n ∷ ns) m h = ground (arith, find_node-append id ns m)

  find_node-append_other :
      (id : ℕ) (ns : List (HypothesisNode F)) (m : HypothesisNode F)
      → m.state.id ≢ id
      → find_node id (ns ++ (m ∷ [])) ≡ find_node id ns
  unfolding find_node
  find_node-append_other id [] m ne = ground arith
  find_node-append_other id (n ∷ ns) m ne = ground (arith, find_node-append_other id ns m ne)

  count_nodes-append :
      (p : HypothesisNode F → Bool) (ns : List (HypothesisNode F)) (m : HypothesisNode F)
      → count_nodes p (ns ++ (m ∷ [])) ≡ count_nodes p ns + (if p m then 1 else 0)
  unfolding count_nodes
  count_nodes-append p [] m = omega arith
  count_nodes-append p (n ∷ ns) m = omega (arith, count_nodes-append p ns m)

  find_node-above :
      (id i : ℕ) (ns : List (HypothesisNode F))
      → ids ns ≡ numbers i (length ns)
      → i + length ns ≤ id
      → find_node id ns ≡ none
  unfolding find_node
  find_node-above id i [] e h = refl
  find_node-above id i (n ∷ ns) e h =
      let first : n.state.id ≡ i = ground arith in
      let rest : ids ns ≡ numbers (i + 1) (length ns) = ground arith in
      ground (arith, find_node-above id (i + 1) ns rest (omega arith))

module _ (fl : FloatOps) where
  open fl use {F, lit, lt, sub}

  -- A merge of two hypotheses leaves the second one, and all but the first, as they were, and the
  -- number of active hypotheses too.
  pub population_merge-get :
      (pop : Population F) (a b other : ℕ)
      → other ≢ a
      → let pop' = (population_merge fl pop a b).0 in
        (population_get pop' other ≡ population_get pop other)
        × (population_active_count pop' ≡ population_active_count pop)
  unfolding population_get population_merge population_active_count merged
  population_merge-get pop a b other ne = elim (Option-cases (last_with a pop.nodes)) [
    | inl p ↦ rw (p, population_merge) (refl, refl)
    | inr (ha, p) ↦ elim (Option-cases (last_with b pop.nodes)) [
      | inl q ↦ rw (p, q, population_merge) (refl, refl)
      | inr (hb, q) ↦
          let (x, y) =
            find_node-set_last a other (merged fl ha hb) pop.nodes ne
              (last_with-id a pop.nodes ha p) in
          rw (p, q, population_merge) (ap state_of x, y)
    ]
  ]

  new_found :
      (pop : Population F) (claim : List ℕ) (prior : F)
      → find_node pop.next_id pop.nodes ≡ none
      → state_of (find_node pop.next_id (pop.nodes ++ (new_node fl pop.next_id claim prior ∷ [])))
        ≡ some ((new_node fl pop.next_id claim prior).state)
  unfolding new_node state_of
  new_found pop claim prior absent =
      ap state_of (find_node-append pop.next_id pop.nodes _ absent) ∙ ground arith

  found_after :
      (pop : Population F) (claim : List ℕ) (prior : F) (other : ℕ)
      → find_node pop.next_id pop.nodes ≡ none
      → let n = new_node fl pop.next_id claim prior in
        state_of (find_node other (pop.nodes ++ (n ∷ [])))
        ≡ (if other == pop.next_id then some n.state else state_of (find_node other pop.nodes))
  unfolding new_node
  found_after pop claim prior other absent = elim (Bool-cases (other == pop.next_id)) [
    | inl same ↦
        let here : pop.next_id ≡ other = ground arith in
        rw same (
          subst
            (λ x.
              state_of (find_node x (pop.nodes ++ (new_node fl pop.next_id claim prior ∷ [])))
              ≡ some ((new_node fl pop.next_id claim prior).state))
            here (new_found pop claim prior absent))
    | inr not_same ↦ rw not_same (
        ap state_of (
          find_node-append_other other pop.nodes (new_node fl pop.next_id claim prior)
            (ground arith)))
  ]

  outside-cases :
      {P : Type 0} (prior : F)
      → outside_unit fl prior ≡ true
      → (lt prior (lit 0 0) ≡ true) ⊎ ((lt (lit 1 0) prior ≡ true) ⊎ P)
  unfolding outside_unit
  outside-cases prior h = elim (Bool-cases (lt prior (lit 0 0))) [
    | inl below ↦ inl below
    | inr not_below ↦ inr (inl (ground arith))
  ]

  -- In a population with the invariant: where the prior is below 0 or above 1, or 40 nodes are there, an
  -- addition returns 0 and changes nothing. Otherwise it returns the next identifier, which is not 0. A
  -- hypothesis is then found under it that has the given claim and prior, the prior's complement as
  -- uncertainty, no support, contradiction or evidence, and is active; every other identifier finds
  -- what it found; and there is one more active hypothesis.
  pub population_add-get :
      (pop : Population F) (claim : List ℕ) (prior : F) (other : ℕ)
      → Inv fl pop
      → let (pop', id) = population_add fl pop (some claim) prior in
        (((lt prior (lit 0 0) ≡ true) ⊎ ((lt (lit 1 0) prior ≡ true) ⊎ (length pop.nodes ≡ 40)))
          × (id ≡ 0)
          × (pop' ≡ pop))
        ⊎ ((lt prior (lit 0 0) ≡ false)
            × (lt (lit 1 0) prior ≡ false)
            × (length pop.nodes < 40)
            × (id ≡ pop.next_id)
            × (id ≢ 0)
            × (population_get pop' other ≡ (
                if other == id
                then some (record {
                  id = id;
                  claim = some claim;
                  prior_score = prior;
                  support = lit 0 0;
                  contradiction = lit 0 0;
                  uncertainty = sub (lit 1 0) prior;
                  support_evidence = none;
                  n_support = 0;
                  contra_evidence = none;
                  n_contra = 0;
                  status = hyp_active;
                })
                else population_get pop other))
            × (population_active_count pop' ≡ population_active_count pop + 1))
  unfolding population_add population_get population_active_count new_node outside_unit
  population_add-get pop claim prior other v = elim (Bool-cases (outside_unit fl prior)) [
    | inl out ↦ rw out (inl (outside-cases prior out, refl, refl))
    | inr unit ↦ elim (Bool-cases (leb pop.capacity (length pop.nodes))) [
      | inl full ↦
          rw (unit, full) (inl (inr (inr (ground (arith, v.room, v.capacity))), refl, refl))
      | inr free ↦
          let absent = find_node-above pop.next_id 1 pop.nodes v.numbered (omega (arith, v.next)) in
          rw (unit, free)
            (inr (
              ground (arith, unit),
              ground (arith, unit),
              ground (arith, free, v.capacity),
              refl,
              (λ z. absurd (ground (arith, v.next))),
              found_after pop claim prior other absent,
              count_nodes-append (λ n. n.used && n.active) pop.nodes _ ∙ ground arith,
            ))
    ]
  ]
