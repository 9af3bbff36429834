-- ===== src/Core/Router/Registry.antt =====
-- The availability marks: an executor is found by its identifier, and nothing else changes.
use cautreo.Base.{
  ℕ, ◌≡◌, refl, Bool, true, false, Option, none, some, List, [], ◌∷◌, ◌==◌, if◌then◌else◌, arith,
}
use cautreo.Core.Router.{ExecutorEntry, Router, mark_loop, mark_unavailable, mark_available}

module _ {F : Type 0} where
  -- The first executor with an identifier.
  abbrev pub executor : ℕ → List (ExecutorEntry F) → Option (ExecutorEntry F)
  executor id [] = none
  executor id (e ∷ es) = if e.meta.id == id then some e else executor id es

  abbrev pub marked : Bool → Option (ExecutorEntry F) → Option (ExecutorEntry F)
  marked available none = none
  marked available (some e) = some (record e { meta = record (e.meta) { available = available } })

  abbrev pub found : Option (ExecutorEntry F) → Bool
  found none = false
  found (some e) = true

  mark_loop-executor :
      (available : Bool) (id other : ℕ) (es : List (ExecutorEntry F))
      → (executor other (mark_loop available id es).0
          ≡ (if other == id then marked available (executor other es) else executor other es))
        × ((mark_loop available id es).1 ≡ found (executor id es))
  unfolding mark_loop
  mark_loop-executor available id other [] = (ground arith, refl)
  mark_loop-executor available id other (e ∷ es) =
      let (a, b) = mark_loop-executor available id other es in (ground arith, ground arith)

  -- Marking succeeds exactly when an executor has the identifier; the executor found by it is then
  -- the same with the new availability, and what any other identifier finds is unchanged.
  pub mark-executor :
      (r : Router F) (id other : ℕ)
      → let (down, d) = mark_unavailable r id in
        let (up, u) = mark_available r id in
        (executor other down.executors ≡ (
          if other == id
          then marked false (executor other r.executors)
          else executor other r.executors))
        × (executor other up.executors ≡ (
            if other == id
            then marked true (executor other r.executors)
            else executor other r.executors))
        × (d ≡ found (executor id r.executors))
        × (u ≡ found (executor id r.executors))
  unfolding mark_unavailable mark_available
  mark-executor r id other =
      let (a, b) = mark_loop-executor false id other r.executors in
      let (c, d) = mark_loop-executor true id other r.executors in (a, c, b, d)
