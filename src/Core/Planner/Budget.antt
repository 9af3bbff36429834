-- ===== src/Core/Planner/Budget.antt =====
-- A budget never allows more tests, nor more cost, than it was made for.
use cautreo.Base.{
  ℕ, ◌+◌, ◌^◌, ◌≤◌, ◌<◌, ◌≡◌, refl, ◌∙◌, false, Option, none, some, List, [], ◌∷◌, if◌then◌else◌,
  arith,
}
use cautreo.Base.Float.{FloatOps}
use cautreo.Core.Planner.{TestProposal, TestBudget, budget_init, budget_consume}

module _ (fl : FloatOps) where
  open fl use {F, lit, lt}

  -- Consuming for one test after another; the number is that of the tests that were allowed.
  unfoldable pub consume_all : TestBudget F → List (Option (TestProposal F)) → TestBudget F × ℕ
  consume_all b [] = (b, 0)
  consume_all b (t ∷ ts) =
      let (b', ok) = budget_consume fl b t in
      let (b'', n) = consume_all b' ts in (b'', (if ok then 1 else 0) + n)

  record Within (b : TestBudget F) : Type 0 where
    tests : b.tests_used ≤ b.max_tests
    words : b.max_tests < 2 ^ 32
    cost : lt b.max_total_cost b.total_cost_used ≡ false

  budget_consume-Within :
      (b : TestBudget F) (t : Option (TestProposal F)) → Within b → Within (budget_consume fl b t).0
  unfolding budget_consume
  budget_consume-Within b none w = w
  budget_consume-Within b (some t) w = record {
    tests = ground arith;
    words = ground arith;
    cost = ground arith;
  }

  budget_consume-used :
      (b : TestBudget F) (t : Option (TestProposal F))
      → Within b
      → ((budget_consume fl b t).0.tests_used
          ≡ b.tests_used + (if (budget_consume fl b t).1 then 1 else 0))
        × ((budget_consume fl b t).0.max_tests ≡ b.max_tests)
        × ((budget_consume fl b t).0.max_total_cost ≡ b.max_total_cost)
  unfolding budget_consume
  budget_consume-used b none w = (omega arith, refl, refl)
  budget_consume-used b (some t) w = (ground arith, ground arith, ground arith)

  consume_all-Within :
      (ts : List (Option (TestProposal F))) (b : TestBudget F)
      → Within b
      → Within (consume_all b ts).0
        × ((consume_all b ts).0.tests_used ≡ b.tests_used + (consume_all b ts).1)
        × ((consume_all b ts).0.max_tests ≡ b.max_tests)
        × ((consume_all b ts).0.max_total_cost ≡ b.max_total_cost)
  unfolding consume_all
  consume_all-Within [] b w = (w, omega arith, refl, refl)
  consume_all-Within (t ∷ ts) b w =
      let (used, tests, cost) = budget_consume-used b t w in
      let (w', used', tests', cost') =
        consume_all-Within ts (budget_consume fl b t).0 (budget_consume-Within b t w) in
      (w', omega arith, tests' ∙ tests, cost' ∙ cost)

  -- From a new budget whose number of tests fits in 32 bits and whose cost is not below zero: after
  -- any attempts the tests used are those that were allowed, at most `max_tests`, and the cost used
  -- is not above `max_cost`.
  pub consume_all-budget_init :
      (max_tests : ℕ) (max_cost : F) (max_latency : ℕ) (ts : List (Option (TestProposal F)))
      → max_tests < 2 ^ 32
      → lt max_cost (lit 0 0) ≡ false
      → let (b, allowed) = consume_all (budget_init fl max_tests max_cost max_latency) ts in
        (b.tests_used ≡ allowed) × (allowed ≤ max_tests) × (lt max_cost b.total_cost_used ≡ false)
  unfolding budget_init
  consume_all-budget_init max_tests max_cost max_latency ts small nonneg =
      let (w, used, tests, cost) =
        consume_all-Within ts (budget_init fl max_tests max_cost max_latency)
          (record { tests = omega arith; words = small; cost = nonneg }) in
      (omega arith, omega (arith, w.tests), rw cost at w.cost)
