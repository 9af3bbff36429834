-- ===== src/Core/Planner/Tests.antt =====
-- The theorems about the planner at small lists of tests, with fixed-point utilities.
use mathlib.Core.List.{Perm}
use cautreo.Base.{
  min, ◌==◌, if◌then◌else◌, ℕ, ◌≡◌, refl, false, Option, none, some, List, [], ◌∷◌, arith, ◌≤◌,
}
use cautreo.Base.Fixed.{fixed, fixed-IsOrdered}
use cautreo.Core.Sort.Ranked.{IsRanked}
use cautreo.Core.Select.{Selects, select_loop}
use cautreo.Core.Planner.{
  TestProposal, TestBudget, budget_init, rank_tests, choose_next, affordable, test_utility,
  exhausted,
}
use cautreo.Core.Planner.Budget.{consume_all, consume_all-budget_init}
use cautreo.Core.Planner.Ranking.{rank_tests-IsRanked, choose_next-Selects}

-- A test with a reduction of uncertainty and a cost.
abbrev proposal : ℕ → ℕ → ℕ → TestProposal ℕ
proposal id gain cost = record {
  test_id = id;
  hypothesis_id = 1;
  description = none;
  expected_uncertainty_reduction = gain;
  discrimination_power = 1010;
  evidence_reliability = 1010;
  estimated_cost = cost;
  estimated_latency_ms = 1020;
  reproducibility = 1010;
  risk = 1000;
  required_capability = 1;
}

abbrev three : List (TestProposal ℕ)
three = proposal 11 1010 1010 ∷ proposal 12 1050 1010 ∷ proposal 13 1090 1030 ∷ []

abbrev small_budget : TestBudget ℕ
small_budget = record {
  max_tests = 2;
  tests_used = 0;
  max_total_cost = 1020;
  total_cost_used = 1000;
  max_latency_ms = 100;
  latency_used_ms = 0;
}

rank_tests-IsRanked_example :
    let (ranked, n) = rank_tests fixed three 2 in
    Perm ranked three
    × IsRanked fixed (test_utility fixed) n ranked
    × (n ≡ (if 2 == 0 then 3 else min 2 3))
rank_tests-IsRanked_example = rank_tests-IsRanked fixed fixed-IsOrdered three 2

not_exhausted : exhausted fixed (some small_budget) ≡ false
unfolding exhausted
not_exhausted = refl

choose_next-Selects_example :
    Selects fixed
      (affordable fixed (some small_budget))
      (test_utility fixed)
      (λ t. t.test_id)
      three
      0
      990
      (choose_next fixed three (some small_budget))
choose_next-Selects_example =
    choose_next-Selects fixed fixed-IsOrdered three (some small_budget) not_exhausted

-- The dearest test costs more than the budget, and the second is the best of the others.
choose_second : choose_next fixed three (some small_budget) ≡ 12
unfolding choose_next affordable exhausted test_utility select_loop
choose_second = refl

abbrev attempts : List (Option (TestProposal ℕ))
attempts = some (proposal 11 1010 1010) ∷ none ∷ some (proposal 13 1090 1030) ∷ []

consume_all-budget_init_example :
    let (b, allowed) = consume_all fixed (budget_init fixed 2 1030 100) attempts in
    (b.tests_used ≡ allowed) × (allowed ≤ 2) × (fixed.lt 1030 b.total_cost_used ≡ false)
consume_all-budget_init_example =
    consume_all-budget_init fixed 2 1030 100 attempts (omega arith) refl
