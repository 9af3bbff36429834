-- ===== src/Core/Router/Rank.antt =====
-- What `router_rank` returns.
use Prim.Native.Nat.{bit_and}
use mathlib.Core.List.{Perm}
use cautreo.Base.{
  ℕ, zero, suc, ◌≡◌, ◌≢◌, refl, ap, ◌∙◌, true, Bool, ◌&&◌, some, List, [], ◌∷◌, map, take, length,
  filter, min, ltb, if◌then◌else◌, Bool-cases, All, arith, inl, inr,
}
use cautreo.Base.Float.{FloatOps, IsOrdered}
use cautreo.Core.Sort.{rank_loop}
use cautreo.Core.Sort.Ranked.{IsRanked, rank_loop-perm, rank_loop-IsRanked, rank_loop-All}
use cautreo.Core.Sort.Mapped.{rank_loop-map}
use cautreo.Core.Router.{
  ExecutorEntry, Router, Scored, meta_of, collect_scores, router_rank, router_score,
}

module _ {F : Type 0} where
  -- No two entries have the same identifier.
  abbrev pub Distinct : List (ExecutorEntry F) → Type 0
  Distinct [] = Unit
  Distinct (e ∷ es) = All (λ d. d.meta.id ≢ e.meta.id) es × Distinct es

  -- The entry is the one that its identifier leads to.
  abbrev Found : List (ExecutorEntry F) → ExecutorEntry F → Type 0
  Found es d = meta_of es d.meta.id ≡ some d.meta

  Found-cons :
      (e : ExecutorEntry F) (es ds : List (ExecutorEntry F))
      → All (λ d. d.meta.id ≢ e.meta.id) ds
      → All (Found es) ds
      → All (Found (e ∷ es)) ds
  unfolding meta_of
  Found-cons e es [] a b = tt
  Found-cons e es (d ∷ ds) (ne, a) (q, b) = (ground (arith, ne, q), Found-cons e es ds a b)

  Distinct-Found : (es : List (ExecutorEntry F)) → Distinct es → All (Found es) es
  unfolding meta_of
  Distinct-Found [] h = tt
  Distinct-Found (e ∷ es) (ne, h) = (ground arith, Found-cons e es es ne (Distinct-Found es h))

  map-Found :
      (es ds : List (ExecutorEntry F)) (n : ℕ)
      → All (Found es) ds
      → map (λ d. meta_of es d.meta.id) (take n ds) ≡ map (λ d. some d.meta) (take n ds)
  map-Found es [] zero a = refl
  map-Found es [] (suc n) a = refl
  map-Found es (d ∷ ds) zero a = refl
  map-Found es (d ∷ ds) (suc n) (q, a) = rw q (ap (◌∷◌ (some d.meta)) (map-Found es ds n a))

All-filter {ℓ κ} :
    {A : Type ℓ} (P : A → Type κ) (p : A → Bool) (xs : List A) → All P xs → All P (filter p xs)
All-filter P p [] a = tt
All-filter P p (x ∷ xs) (h, a) = elim (Bool-cases (p x)) [
  | inl holds ↦ rw holds (h, All-filter P p xs a)
  | inr fails ↦ rw fails (All-filter P p xs a)
]

filter-All {ℓ} : {A : Type ℓ} (p : A → Bool) (xs : List A) → All (λ x. p x ≡ true) (filter p xs)
filter-All p [] = tt
filter-All p (x ∷ xs) = elim (Bool-cases (p x)) [
  | inl holds ↦ rw holds (holds, filter-All p xs)
  | inr fails ↦ rw fails (filter-All p xs)
]

All-impl {ℓ κ} :
    {A : Type ℓ} (P Q : A → Type κ) → ((x : A) → P x → Q x) → (xs : List A) → All P xs → All Q xs
All-impl P Q f [] a = tt
All-impl P Q f (x ∷ xs) (h, a) = (f x h, All-impl P Q f xs a)

take-map {ℓ} :
    {A B : Type ℓ} (g : A → B) (n : ℕ) (xs : List A) → take n (map g xs) ≡ map g (take n xs)
take-map g zero xs = refl
take-map g (suc n) [] = refl
take-map g (suc n) (x ∷ xs) = ap (◌∷◌ (g x)) (take-map g n xs)

map-map {ℓ} :
    {A B C : Type ℓ} (f : B → C) (g : A → B) (xs : List A)
    → map f (map g xs) ≡ map (λ x. f (g x)) xs
map-map f g [] = refl
map-map f g (x ∷ xs) = ap (◌∷◌ (f (g x))) (map-map f g xs)

length-map {ℓ} : {A B : Type ℓ} (g : A → B) (xs : List A) → length (map g xs) ≡ length xs
length-map g [] = refl
length-map g (x ∷ xs) = ap suc (length-map g xs)

module _ (fl : FloatOps) (required : ℕ) where
  open fl use {F, lit, lt}

  scored : ExecutorEntry F → Scored F
  scored e = record { id = e.meta.id; score = router_score fl e.meta required }

  abbrev positive : ExecutorEntry F → Bool
  positive e = e.used && lt (lit 0 0) (router_score fl e.meta required)

  collect_scores-filter :
      (es : List (ExecutorEntry F))
      → collect_scores fl required es ≡ map scored (filter positive es)
  unfolding collect_scores scored
  collect_scores-filter [] = refl
  collect_scores-filter (e ∷ es) = ground (arith, collect_scores-filter es)

  -- In use, available and with all that is required.
  abbrev pub Usable : ExecutorEntry F → Type 0
  Usable e =
      (e.used ≡ true)
      × (e.meta.available ≡ true)
      × (bit_and e.meta.capabilities required ≡ required)

  positive-Usable : IsOrdered fl → (e : ExecutorEntry F) → positive e ≡ true → Usable e
  unfolding router_score
  positive-Usable ord e h =
      let zero_not_positive = ord.lt_irrefl (lit 0 0) in
      (ground arith, ground (arith, zero_not_positive), ground (arith, zero_not_positive))

  -- The results, written as those of the executors that are ranked.
  results_lem :
      (es : List (ExecutorEntry F)) (n : ℕ)
      → Distinct es
      → let key : ExecutorEntry F → F = λ e. router_score fl e.meta required in
        map
          (λ s. meta_of es s.id)
          (take n (rank_loop fl (λ s. s.score) n (collect_scores fl required es)))
        ≡ map (λ e. some e.meta) (take n (rank_loop fl key n (filter positive es)))
  unfolding scored
  results_lem es n distinct =
      let key : ExecutorEntry F → F = λ e. router_score fl e.meta required in
      let chosen = rank_loop fl key n (filter positive es) in
      let found : All (Found es) chosen =
        rank_loop-All fl key (Found es) n (filter positive es)
          (All-filter (Found es) positive es (Distinct-Found es distinct)) in
      rw (collect_scores-filter es) (
        rw (rank_loop-map fl scored (λ s. s.score) n (filter positive es)) (
          rw (take-map scored n chosen)
            (map-map (λ s. meta_of es s.id) scored (take n chosen) ∙ map-Found es chosen n found)))

  -- When the scores are ordered (none is a NaN) and no two executors have the same identifier: the
  -- results are the metadata of the first executors of a ranking, in its order, and their number is
  -- that of the ranking or `max_results`, whichever is less. The ranking is a permutation of the
  -- executors in use with a score above zero. All of them are available and have the required
  -- capabilities, and none behind one of the returned ones has a greater score than that.
  pub router_rank-IsRanked :
      (ord : IsOrdered fl) (r : Router F) (max_results : ℕ)
      → Distinct r.executors
      → let (results, n) = router_rank fl r required max_results in
        let key : ExecutorEntry F → F = λ e. router_score fl e.meta required in
        let candidates = filter (λ e. e.used && lt (lit 0 0) (key e)) r.executors in
        (ranked : List (ExecutorEntry F)) × Perm ranked candidates
        × (results ≡ map (λ e. some e.meta) (take n ranked))
        × IsRanked fl key n ranked
        × All Usable ranked
        × (n ≡ min (length candidates) max_results)
  unfolding router_rank
  router_rank-IsRanked ord r max_results distinct =
      let key : ExecutorEntry F → F = λ e. router_score fl e.meta required in
      let candidates = filter positive r.executors in
      let scores = collect_scores fl required r.executors in
      let n = if ltb (length scores) max_results then length scores else max_results in
      let count : length scores ≡ length candidates =
        ap length (collect_scores-filter r.executors) ∙ length-map scored candidates in
      (
        rank_loop fl key n candidates,
        rank_loop-perm fl key n candidates,
        results_lem r.executors n distinct,
        rank_loop-IsRanked fl key ord n candidates,
        rank_loop-All fl key Usable n candidates (
            All-impl (λ e. positive e ≡ true) Usable (positive-Usable ord) candidates
              (filter-All positive r.executors)),
        ground (arith, count),
      )
