-- ===== src/Core/Planner/Ranking.antt =====
-- The ranking is a partial selection sort, and the choice of the next test is a maximum.
use mathlib.Core.List.{Perm}
use mathlib.Core.List.Perm
use cautreo.Base.{min, ◌==◌, ℕ, ◌≡◌, false, Option, List, [], ◌∷◌, length, arith, if◌then◌else◌}
use cautreo.Base.Float.{FloatOps, IsOrdered}
use cautreo.Core.Sort.Ranked.{IsRanked, rank_loop-perm, rank_loop-IsRanked}
use cautreo.Core.Select.{Selects, select_loop-Selects}
use cautreo.Core.Planner.{
  exhausted, affordable, choose_next, TestProposal, TestBudget, test_utility, rank_tests,
  kept_count,
}

module _ (fl : FloatOps) (ord : IsOrdered fl) where
  open fl use {F}

  -- When the utilities are ordered (none is a NaN), the ranking permutes the tests, and each of the
  -- first tests, as many as the count that it returns, has no test of greater utility behind it; the
  -- count is that of all the tests for a `max_keep` of 0, and otherwise `max_keep` or that of all the
  -- tests, whichever is less.
  pub rank_tests-IsRanked :
      (ts : List (TestProposal F)) (max_keep : ℕ)
      → let (ranked, n) = rank_tests fl ts max_keep in
        Perm ranked ts
        × IsRanked fl (test_utility fl) n ranked
        × (n ≡ (if max_keep == 0 then length ts else min max_keep (length ts)))
  unfolding rank_tests kept_count
  rank_tests-IsRanked [] max_keep = (Perm.refl [], tt, ground arith)
  rank_tests-IsRanked (t ∷ ts) max_keep = (
    rank_loop-perm fl (test_utility fl) _ (t ∷ ts),
    rank_loop-IsRanked fl (test_utility fl) ord _ (t ∷ ts),
    ground arith,
  )

  -- While the budget allows a test, and the utilities are ordered, the choice is the identifier of a
  -- test that is affordable, whose utility is above -1, and which no affordable test exceeds; or it
  -- is 0, and no affordable test has a utility above -1.
  pub choose_next-Selects :
      (ts : List (TestProposal F)) (budget : Option (TestBudget F))
      → exhausted fl budget ≡ false
      → Selects fl
          (affordable fl budget)
          (test_utility fl)
          (λ t. t.test_id)
          ts
          0
          (fl.neg (fl.lit 1 0))
          (choose_next fl ts budget)
  unfolding choose_next
  choose_next-Selects ts budget open' =
      rw open' (
        select_loop-Selects fl (affordable fl budget) (test_utility fl) (λ t. t.test_id) ord ts 0 _)
