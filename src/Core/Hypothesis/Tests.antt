-- ===== src/Core/Hypothesis/Tests.antt =====
-- The theorems about the population of hypotheses at small populations, with fixed-point scores.
use cautreo.Base.{
  map, if◌then◌else◌, ◌==◌, ◌+◌, ◌<◌, false, ℕ, ◌≡◌, ◌≢◌, ◌⊎◌, refl, true, none, some, List, [],
  ◌∷◌, length, arith,
}
use cautreo.Base.Fixed.{fixed}
use cautreo.Core.Contracts.{EvidencePacket, ev_accept, hyp_active}
use cautreo.Core.Hypothesis.{
  HypothesisNode, Population, population_create, population_get, population_add, population_merge,
  population_active_count, population_normalize, normalize_loop, dedup_loop, near,
  string_similarity, same_text, absorb,
}
use cautreo.Core.Hypothesis.Numbering.{
  Op, add_op, normalize_op, merge_op, prune_op, evidence_op, Inv, run, run-population_create-Inv,
}
use cautreo.Core.Hypothesis.Changes.{population_merge-get, population_add-get}
use cautreo.Core.Hypothesis.Staying.{stays}
use cautreo.Core.Hypothesis.Duplicates.{Deduped, population_normalize-Deduped}

abbrev packet : EvidencePacket ℕ
packet = record {
  id = 3;
  hypothesis_id = 2;
  decision = ev_accept;
  strength = 1005;
  reliability = 1008;
  independence_group = 1;
  reproducible = true;
  method = none;
  observations = none;
}

abbrev history : List (Op fixed)
history =
    add_op (some (97 ∷ 98 ∷ 99 ∷ [])) 1005
    ∷ add_op (some (97 ∷ 98 ∷ 100 ∷ [])) 1007
    ∷ evidence_op (some packet)
    ∷ merge_op 1 2
    ∷ prune_op 1
    ∷ normalize_op
    ∷ []

run-population_create-Inv_example : Inv fixed (run fixed population_create history)
run-population_create-Inv_example = run-population_create-Inv fixed history

-- Two hypotheses with different texts.
abbrev two : Population ℕ
two = record {
  nodes =
      record {
        state = record {
          id = 1;
          claim = some (97 ∷ 98 ∷ []);
          prior_score = 1005;
          support = 1000;
          contradiction = 1000;
          uncertainty = 1005;
          support_evidence = none;
          n_support = 0;
          contra_evidence = none;
          n_contra = 0;
          status = hyp_active;
        };
        branch_depth = 0;
        active = true;
        used = true;
      }
      ∷ record {
        state = record {
          id = 2;
          claim = some (99 ∷ 98 ∷ []);
          prior_score = 1007;
          support = 1000;
          contradiction = 1000;
          uncertainty = 1003;
          support_evidence = none;
          n_support = 0;
          contra_evidence = none;
          n_contra = 0;
          status = hyp_active;
        };
        branch_depth = 0;
        active = true;
        used = true;
      }
      ∷ [];
  capacity = 40;
  next_id = 3;
}

-- The same text twice.
abbrev alike : Population ℕ
alike = record two {
  nodes =
      map
        (λ (n : HypothesisNode ℕ). record n {
          state = record (n.state) { claim = some (97 ∷ 98 ∷ []) };
        })
        two.nodes;
}

-- Only the first stays.
alike_stays : map (λ n. n.used) (population_normalize fixed alike).nodes ≡ true ∷ false ∷ []
unfolding population_normalize normalize_loop dedup_loop near string_similarity same_text absorb
alike_stays = refl

two-Inv : Inv fixed two
two-Inv = record { numbered = refl; next = refl; room = omega arith; capacity = refl }

population_add-get_example :
    let (pop', id) = population_add fixed two (some (100 ∷ [])) 1002 in
    (((fixed.lt 1002 1000 ≡ true) ⊎ ((fixed.lt 1010 1002 ≡ true) ⊎ (length two.nodes ≡ 40)))
      × (id ≡ 0)
      × (pop' ≡ two))
    ⊎ ((fixed.lt 1002 1000 ≡ false)
        × (fixed.lt 1010 1002 ≡ false)
        × (length two.nodes < 40)
        × (id ≡ 3)
        × (id ≢ 0)
        × (population_get pop' 3 ≡ (
            if 3 == id
            then some (record {
              id = id;
              claim = some (100 ∷ []);
              prior_score = 1002;
              support = 1000;
              contradiction = 1000;
              uncertainty = 1008;
              support_evidence = none;
              n_support = 0;
              contra_evidence = none;
              n_contra = 0;
              status = hyp_active;
            })
            else population_get two 3))
        × (population_active_count pop' ≡ population_active_count two + 1))
population_add-get_example = population_add-get fixed two (100 ∷ []) 1002 3 two-Inv

population_merge-get_example :
    let pop' = (population_merge fixed two 1 2).0 in
    (population_get pop' 2 ≡ population_get two 2)
    × (population_active_count pop' ≡ population_active_count two)
population_merge-get_example = population_merge-get fixed two 1 2 2 (λ e. absurd (omega arith))

population_normalize-Deduped_example :
    Deduped fixed (population_normalize fixed alike).nodes
    × (map (λ n. n.used) (population_normalize fixed alike).nodes ≡ stays fixed [] alike.nodes)
population_normalize-Deduped_example = population_normalize-Deduped fixed alike
