-- ===== src/Core/Router/Tests.antt =====
-- The theorems about the router at a small registry, with fixed-point scores.
use cautreo.Base.{
  filter, some, arith, map, take, All, length, min, ℕ, ◌≡◌, refl, true, false, not, ◌&&◌, none, [],
  ◌∷◌, ◌==◌, List,
}
use cautreo.Base.Fixed.{fixed, fixed-IsOrdered}
use cautreo.Core.Select.{Selects, select_loop}
use cautreo.Core.Router.{
  collect_scores, router_rank, ExecutorEntry, Router, router_score, router_select, router_fallback,
}
use cautreo.Core.Router.Choice.{router_fallback-Selects, router_select-Down}
use mathlib.Core.List.{Perm}
use cautreo.Core.Sort.Ranked.{IsRanked}
use cautreo.Core.Router.Rank.{Usable, router_rank-IsRanked}

abbrev entry : ℕ → ℕ → ℕ → ExecutorEntry ℕ
entry id capabilities cost = record {
  meta = record {
    id = id;
    name = none;
    capabilities = capabilities;
    evidence_type = none;
    latency_class = 1000;
    cost_class = cost;
    deterministic = true;
    available = true;
  };
  used = true;
}

abbrev registry : Router ℕ
registry = record {
  executors = entry 4 3 1020 ∷ entry 7 1 1010 ∷ entry 9 1 1040 ∷ [];
  capacity = 16;
}

-- With 7 failed the cheapest of the others is chosen.
fallback_cheapest : router_fallback fixed registry 7 1 ≡ 4
unfolding router_fallback router_score select_loop
fallback_cheapest = refl

router_fallback-Selects_example :
    Selects fixed
      (λ e. e.used && not (e.meta.id == 7))
      (λ e. router_score fixed e.meta 1)
      (λ e. e.meta.id)
      registry.executors
      0
      990
      (router_fallback fixed registry 7 1)
    × Selects fixed
        (λ e. e.used)
        (λ e. router_score fixed e.meta 1)
        (λ e. e.meta.id)
        registry.executors
        0
        990
        (router_select fixed registry 1 true)
router_fallback-Selects_example = router_fallback-Selects fixed fixed-IsOrdered registry 7 1

abbrev down_entry : ExecutorEntry ℕ
down_entry = record (entry 5 1 1010) { meta = record ((entry 5 1 1010).meta) { available = false } }

router_select-Down_example :
    router_select fixed (record { executors = down_entry ∷ []; capacity = 16 }) 1 true ≡ 5
router_select-Down_example =
    router_select-Down fixed (record { executors = down_entry ∷ []; capacity = 16 }) down_entry [] 1
      refl ((refl, refl), tt) refl refl

router_rank-IsRanked_example :
    let (results, n) = router_rank fixed registry 1 2 in
    let key : ExecutorEntry ℕ → ℕ = λ e. router_score fixed e.meta 1 in
    let candidates = filter (λ e. e.used && fixed.lt 1000 (key e)) registry.executors in
    (ranked : List (ExecutorEntry ℕ)) × Perm ranked candidates
    × (results ≡ map (λ e. some e.meta) (take n ranked))
    × IsRanked fixed key n ranked
    × All (Usable fixed 1) ranked
    × (n ≡ min (length candidates) 2)
router_rank-IsRanked_example =
    router_rank-IsRanked fixed 1 fixed-IsOrdered registry 2
      ((omega arith, (omega arith, tt)), ((omega arith, tt), (tt, tt)))

rank_two : (router_rank fixed registry 1 2).1 ≡ 2
unfolding router_rank collect_scores router_score
rank_two = refl
