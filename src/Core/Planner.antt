-- ===== src/Core/Planner.antt =====
-- core/planner/planner.c: which test of a hypothesis to run next, and the budget for tests.
-- Floats are abstract. Neither the planner handle nor the population is null; a null or empty array
-- of tests is the empty list, and a null budget or test is `none`.
pub mod Ranking
pub mod Budget
mod Tests
use cautreo.Base.{
  ℕ, zero, suc, ◌+◌, ◌-◌, ◌%◌, ◌^◌, Bool, true, false, not, ◌&&◌, ◌||◌, Option, none, some, List,
  [], ◌∷◌, length, get_elem?, set, ltb, leb, ◌==◌, if◌then◌else◌, inc32,
}
use cautreo.Base.Float.{FloatOps}
use cautreo.Core.Select.{select_loop}
use cautreo.Core.Sort.{rank_loop}

pub record TestProposal (F : Type 0) : Type 0 where
  pub test_id : ℕ
  pub hypothesis_id : ℕ
  pub description : Option (List ℕ)
  pub expected_uncertainty_reduction : F
  pub discrimination_power : F
  pub evidence_reliability : F
  pub estimated_cost : F
  pub estimated_latency_ms : F
  pub reproducibility : F
  pub risk : F
  pub required_capability : ℕ

pub record TestBudget (F : Type 0) : Type 0 where
  pub max_tests : ℕ
  pub tests_used : ℕ
  pub max_total_cost : F
  pub total_cost_used : F
  pub max_latency_ms : ℕ
  pub latency_used_ms : ℕ

module _ (fl : FloatOps) where
  open fl use {F, lit, neg, add, sub, mul, div, lt, le, trunc}

  unfoldable pub test_utility : TestProposal F → F
  test_utility t =
      let cost = if lt (lit 1 9) t.estimated_cost then t.estimated_cost else lit 1 9 in
      div (mul (mul t.expected_uncertainty_reduction t.discrimination_power) t.evidence_reliability)
        cost

  -- How many of `n` tests to keep: 0 stands for all of them.
  unfoldable pub kept_count : ℕ → ℕ → ℕ
  kept_count max_keep n = if (max_keep == 0) || ltb n max_keep then n else max_keep

  -- The array afterwards, and the returned count.
  unfoldable pub rank_tests : List (TestProposal F) → ℕ → List (TestProposal F) × ℕ
  rank_tests [] max_keep = ([], 0)
  rank_tests (t ∷ ts) max_keep =
      let n = kept_count max_keep (length (t ∷ ts)) in (rank_loop fl test_utility n (t ∷ ts), n)

  -- The test is not passed over for its cost.
  unfoldable pub affordable : Option (TestBudget F) → TestProposal F → Bool
  affordable none t = true
  affordable (some b) t = not (lt (sub b.max_total_cost b.total_cost_used) t.estimated_cost)

  unfoldable pub exhausted : Option (TestBudget F) → Bool
  exhausted none = false
  exhausted (some b) = leb b.max_tests b.tests_used

  unfoldable pub choose_next : List (TestProposal F) → Option (TestBudget F) → ℕ
  choose_next ts budget =
      if exhausted budget
      then 0
      else select_loop fl (affordable budget) test_utility (λ t. t.test_id) ts 0 (neg (lit 1 0))

  over_budget : Option (TestBudget F) → Bool
  over_budget none = false
  over_budget (some b) =
      leb b.max_tests b.tests_used
      || (le b.max_total_cost b.total_cost_used || leb b.max_latency_ms b.latency_used_ms)

  -- `active` is `population_active_count(pop)`; the confidence target is not used.
  unfoldable pub should_stop : ℕ → Option (TestBudget F) → Bool
  unfolding over_budget
  should_stop active budget = over_budget budget || (active == 0)

  unfoldable pub budget_init : ℕ → F → ℕ → TestBudget F
  budget_init max_tests max_cost max_latency = record {
    max_tests = max_tests;
    tests_used = 0;
    max_total_cost = max_cost;
    total_cost_used = lit 0 0;
    max_latency_ms = max_latency;
    latency_used_ms = 0;
  }

  unfoldable pub budget_consume : TestBudget F → Option (TestProposal F) → TestBudget F × Bool
  budget_consume b none = (b, false)
  budget_consume b (some t) =
      if leb b.max_tests b.tests_used
      then (b, false)
      else if lt b.max_total_cost (add b.total_cost_used t.estimated_cost)
      then (b, false)
      else (
        record b {
          tests_used = inc32 b.tests_used;
          total_cost_used = add b.total_cost_used t.estimated_cost;
          latency_used_ms = (b.latency_used_ms + trunc t.estimated_latency_ms) % 2 ^ 64;
        },
        true,
      )
