-- ===== src/Core/Router.antt =====
-- core/router/router.c: the registry of executors and the choice among them.
-- The router handle is not null; a null metadata or contract argument is `none`. `count` is the
-- length of the list of executors. Strings are lists of bytes.
pub mod Choice
pub mod Registry
pub mod Rank
mod Tests
use Prim.Native.Nat.{bit_and}
use cautreo.Base.{
  ℕ, zero, suc, ◌+◌, ◌*◌, ◌%◌, ◌^◌, Bool, true, false, not, ◌&&◌, ◌||◌, Option, none, some, List,
  [], ◌∷◌, ◌++◌, length, ltb, leb, ◌==◌, if◌then◌else◌, map, take,
}
use cautreo.Base.Float.{FloatOps}
use cautreo.Core.Select.{select_loop}
use cautreo.Core.Sort.{rank_loop}

pub record ExecutorMeta (F : Type 0) : Type 0 where
  pub id : ℕ
  pub name : Option (List ℕ)
  pub capabilities : ℕ
  pub evidence_type : Option (List ℕ)
  pub latency_class : F
  pub cost_class : F
  pub deterministic : Bool
  pub available : Bool

pub record ExecutorEntry (F : Type 0) : Type 0 where
  pub meta : ExecutorMeta F
  pub used : Bool

pub record Router (F : Type 0) : Type 0 where
  pub executors : List (ExecutorEntry F)
  pub capacity : ℕ

-- `strdup(s ? s : "")`.
unfoldable pub or_empty : Option (List ℕ) → Option (List ℕ)
or_empty none = some []
or_empty (some s) = some s

module _ {F : Type 0} where
  unfoldable pub router_create : Router F
  router_create = record { executors = []; capacity = 16 }

  unfoldable pub add_executor : Router F → ExecutorMeta F → Router F
  unfolding or_empty
  add_executor r m = record r {
    executors =
        r.executors
        ++ (record {
          meta = record m {
            name = or_empty m.name;
            evidence_type = or_empty m.evidence_type;
            available = true;
          };
          used = true;
        }
            ∷ []);
  }

  -- `grown` tells whether `realloc` gives a larger array, should it be called.
  unfoldable pub router_register : Bool → Router F → Option (ExecutorMeta F) → Router F × Bool
  router_register grown r none = (r, false)
  router_register grown r (some m) =
      if leb r.capacity (length r.executors)
      then (if grown
          then (add_executor (record r { capacity = r.capacity * 2 % 2 ^ 64 }) m, true)
          else (r, false))
      else (add_executor r m, true)

  -- The loop of `router_mark_unavailable` and `router_mark_available`: the first executor with the
  -- identifier, used or not.
  unfoldable pub mark_loop : Bool → ℕ → List (ExecutorEntry F) → List (ExecutorEntry F) × Bool
  mark_loop available id [] = ([], false)
  mark_loop available id (e ∷ es) =
      let rest = mark_loop available id es in
      if e.meta.id == id
      then (record e { meta = record (e.meta) { available = available } } ∷ es, true)
      else (e ∷ rest.0, rest.1)

  unfoldable pub mark_unavailable : Router F → ℕ → Router F × Bool
  mark_unavailable r id =
      let (es, found) = mark_loop false id r.executors in (record r { executors = es }, found)

  unfoldable pub mark_available : Router F → ℕ → Router F × Bool
  mark_available r id =
      let (es, found) = mark_loop true id r.executors in (record r { executors = es }, found)

-- `scored_t`.
pub record Scored (F : Type 0) : Type 0 where
  pub id : ℕ
  pub score : F

-- The loop that copies the result: the first executor with the identifier, used or not.
unfoldable pub meta_of : {F : Type 0} → List (ExecutorEntry F) → ℕ → Option (ExecutorMeta F)
meta_of [] id = none
meta_of (e ∷ es) id = if e.meta.id == id then some e.meta else meta_of es id

module _ (fl : FloatOps) where
  open fl use {F, lit, neg, mul, div, lt}

  unfoldable pub router_score : ExecutorMeta F → ℕ → F
  router_score m required =
      if not m.available
      then lit 0 0
      else if not (bit_and m.capabilities required == required)
      then lit 0 0
      else div (mul (lit 1 0) (lit 1 0))
          (if lt (lit 1 9) m.cost_class then m.cost_class else lit 1 9)

  -- The contract is only compared with null.
  unfoldable pub router_select : Router F → ℕ → Bool → ℕ
  router_select r required has_contract =
      if has_contract
      then select_loop fl (λ e. e.used) (λ e. router_score e.meta required) (λ e. e.meta.id)
          r.executors 0 (neg (lit 1 0))
      else 0

  unfoldable pub router_fallback : Router F → ℕ → ℕ → ℕ
  router_fallback r failed required =
      select_loop fl (λ e. e.used && not (e.meta.id == failed)) (λ e. router_score e.meta required)
        (λ e. e.meta.id) r.executors 0 (neg (lit 1 0))

  unfoldable pub collect_scores : ℕ → List (ExecutorEntry F) → List (Scored F)
  collect_scores required [] = []
  collect_scores required (e ∷ es) =
      let s = router_score e.meta required in
      let rest = collect_scores required es in
      if e.used && lt (lit 0 0) s then record { id = e.meta.id; score = s } ∷ rest else rest

  -- The entries of `results` that are written, `none` for one that keeps its value, and their number. A
  -- null array of results is that of length 0; the array of scores is given.
  unfoldable pub router_rank : Router F → ℕ → ℕ → List (Option (ExecutorMeta F)) × ℕ
  router_rank r required max_results =
      let scores = collect_scores required r.executors in
      let n = if ltb (length scores) max_results then length scores else max_results in
      let ranked = rank_loop fl (λ s. s.score) n scores in
      (map (λ s. meta_of r.executors s.id) (take n ranked), n)
