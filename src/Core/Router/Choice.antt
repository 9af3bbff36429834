-- ===== src/Core/Router/Choice.antt =====
-- What `router_select` and `router_fallback` return: a maximum of the scores, which an executor that
-- is not available can be as well.
use cautreo.Base.{ℕ, ◌≡◌, refl, true, false, not, ◌&&◌, List, [], ◌∷◌, ◌==◌, All}
use cautreo.Base.Float.{FloatOps, IsOrdered}
use cautreo.Core.Select.{select_loop, Selects, select_loop-Selects}
use cautreo.Core.Router.{ExecutorEntry, Router, router_score, router_select, router_fallback}

module _ (fl : FloatOps) where
  open fl use {F, lit, neg, lt}

  module _ (ord : IsOrdered fl) (r : Router F) (failed required : ℕ) where
    -- When the scores are ordered (none is a NaN): the fallback is the identifier of an executor in
    -- use, other than the failed one, whose score is above -1 and which no other such executor
    -- exceeds, or it is 0 and none of them has a score above -1; the selection under a contract is
    -- the same with the failed executor admitted.
    pub router_fallback-Selects :
        Selects fl
          (λ e. e.used && not (e.meta.id == failed))
          (λ e. router_score fl e.meta required)
          (λ e. e.meta.id)
          r.executors
          0
          (neg (lit 1 0))
          (router_fallback fl r failed required)
        × Selects fl
            (λ e. e.used)
            (λ e. router_score fl e.meta required)
            (λ e. e.meta.id)
            r.executors
            0
            (neg (lit 1 0))
            (router_select fl r required true)
    unfolding router_fallback router_select
    router_fallback-Selects = (
      select_loop-Selects fl _ _ _ ord r.executors 0 _,
      select_loop-Selects fl _ _ _ ord r.executors 0 _,
    )

  -- An executor that is in use and not available.
  abbrev pub Down : ExecutorEntry F → Type 0
  Down e = (e.used ≡ true) × (e.meta.available ≡ false)

  Down-score :
      (e : ExecutorEntry F) (required : ℕ) → Down e → router_score fl e.meta required ≡ lit 0 0
  unfolding router_score
  Down-score e required d = rw d.1 refl

  select_loop-Down :
      (es : List (ExecutorEntry F)) (required best_id : ℕ)
      → lt (lit 0 0) (lit 0 0) ≡ false
      → All Down es
      → select_loop fl
          (λ e. e.used)
          (λ e. router_score fl e.meta required)
          (λ e. e.meta.id)
          es
          best_id
          (lit 0 0)
        ≡ best_id
  unfolding select_loop
  select_loop-Down [] required best_id irr a = refl
  select_loop-Down (e ∷ es) required best_id irr (d, a) =
      rw (d.0, Down-score e required d, irr) (select_loop-Down es required best_id irr a)

  -- When zero is above -1 and not above itself: if no executor of a router is available, the
  -- selection still returns an executor, the first of them.
  pub router_select-Down :
      (r : Router F) (e : ExecutorEntry F) (es : List (ExecutorEntry F)) (required : ℕ)
      → r.executors ≡ e ∷ es
      → All Down (e ∷ es)
      → lt (neg (lit 1 0)) (lit 0 0) ≡ true
      → lt (lit 0 0) (lit 0 0) ≡ false
      → router_select fl r required true ≡ e.meta.id
  unfolding router_select select_loop
  router_select-Down r e es required h (d, a) above irr =
      rw (h, select_loop, d.0, Down-score e required d, above)
        (select_loop-Down es required e.meta.id irr a)
