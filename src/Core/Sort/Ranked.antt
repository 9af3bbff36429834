-- ===== src/Core/Sort/Ranked.antt =====
-- The partial selection sort permutes the entries and puts the best ones first.
use mathlib.Core.List.{Perm}
use mathlib.Core.List.Perm
use cautreo.Base.{
  ℕ, zero, suc, ◌+◌, ◌≡◌, refl, ◌⊎◌, inl, inr, true, false, some, List, [], ◌∷◌, get_elem?, set,
  Bool-cases, Option-cases, All, arith, subst,
}
use cautreo.Base.Float.{FloatOps, IsOrdered}
use cautreo.Core.Sort.{best_loop, swap_best, rank_loop}

-- To exchange the head of a list with an entry is a permutation.
set-perm {ℓ} :
    {A : Type ℓ} (x y : A) (l : List A) (i : ℕ)
    → get_elem? l i ≡ some y
    → Perm (y ∷ set l i x) (x ∷ l)
set-perm x y [] i h = absurd (ground arith)
set-perm x y (z ∷ l) zero h = let same : z ≡ y = ground arith in rw same (Perm.swap x y l)
set-perm x y (z ∷ l) (suc i) h =
    Perm.trans (Perm.swap z y (set l i x))
      (Perm.trans (Perm.cons z (set-perm x y l i h)) (Perm.swap x z l))

All-set {ℓ κ} :
    {A : Type ℓ} (P : A → Type κ) (l : List A) (i : ℕ) (x : A) → P x → All P l → All P (set l i x)
All-set P [] i x p a = a
All-set P (y ∷ l) zero x p a = (p, a.1)
All-set P (y ∷ l) (suc i) x p a = (a.0, All-set P l i x p a.1)

All-get {ℓ κ} :
    {A : Type ℓ} (P : A → Type κ) (l : List A) (i : ℕ) (y : A)
    → get_elem? l i ≡ some y
    → All P l
    → P y
All-get P [] i y h a = absurd (ground arith)
All-get P (x ∷ l) zero y h a = let same : x ≡ y = cc in subst P same a.0
All-get P (x ∷ l) (suc i) y h a = All-get P l i y h a.1

module _ (fl : FloatOps) {A : Type 0} (key : A → fl.F) where
  open fl use {F, lt}

  swap_best-perm :
      (t : A) (ts : List A) (b : ℕ) → Perm ((swap_best t ts b).0 ∷ (swap_best t ts b).1) (t ∷ ts)
  unfolding swap_best
  swap_best-perm t ts zero = Perm.refl _
  swap_best-perm t ts (suc b) = elim (Option-cases (get_elem? ts b)) [
    | inl e ↦ rw (e, swap_best) (Perm.refl _)
    | inr (u, e) ↦ rw (e, swap_best) (set-perm t u ts b e)
  ]

  pub rank_loop-perm : (n : ℕ) (ts : List A) → Perm (rank_loop fl key n ts) ts
  unfolding rank_loop
  rank_loop-perm zero ts = Perm.refl ts
  rank_loop-perm (suc n) [] = Perm.refl []
  rank_loop-perm (suc n) (t ∷ ts) =
      Perm.trans (Perm.cons _ (rank_loop-perm n _)) (swap_best-perm t ts _)

  swap_best-All {κ} :
      (P : A → Type κ) (t : A) (ts : List A) (b : ℕ)
      → P t
      → All P ts
      → P (swap_best t ts b).0 × All P (swap_best t ts b).1
  unfolding swap_best
  swap_best-All P t ts zero p a = (p, a)
  swap_best-All P t ts (suc b) p a = elim (Option-cases (get_elem? ts b)) [
    | inl e ↦ rw (e, swap_best) (p, a)
    | inr (u, e) ↦ rw (e, swap_best) (All-get P ts b u e a, All-set P ts b t p a)
  ]

  pub rank_loop-All {κ} :
      (P : A → Type κ) (n : ℕ) (ts : List A) → All P ts → All P (rank_loop fl key n ts)
  unfolding rank_loop
  rank_loop-All P zero ts a = a
  rank_loop-All P (suc n) [] a = tt
  rank_loop-All P (suc n) (t ∷ ts) a =
      let (p, q) = swap_best-All P t ts (best_loop fl key 1 ts 0 (key t)) a.0 a.1 in
      (p, rank_loop-All P n _ q)

  -- No entry of the list has a greater key than `m`.
  abbrev pub AtMost : F → List A → Type 0
  AtMost m ts = All (λ z. lt m (key z) ≡ false) ts

  -- Each of the first `n` entries has no entry of greater key behind it.
  abbrev pub IsRanked : ℕ → List A → Type 0
  IsRanked zero ts = Unit {0}
  IsRanked (suc n) [] = Unit {0}
  IsRanked (suc n) (t ∷ ts) = AtMost (key t) ts × IsRanked n ts

  module _ (ord : IsOrdered fl) where
    not_above : (m a b : F) → lt a b ≡ true → lt m b ≡ false → lt m a ≡ false
    not_above m a b p q = elim (Bool-cases (lt m a)) [
      | inl r ↦ absurd (ground (arith, ord.lt_trans m a b r p))
      | inr r ↦ r
    ]

    -- `m` is the key of the best entry, which is the first one or stands in the list.
    best_loop-best :
        (j : ℕ) (ts : List A) (best : ℕ) (best_key : F)
        → (m : F) × (((best_loop fl key j ts best best_key ≡ best) × (m ≡ best_key))
            ⊎ ((k : ℕ) × (e : A) × (best_loop fl key j ts best best_key ≡ j + k)
                × (get_elem? ts k ≡ some e)
                × (m ≡ key e)))
          × (lt m best_key ≡ false)
          × AtMost m ts
    unfolding best_loop
    best_loop-best j [] best best_key = (best_key, inl (refl, refl), ord.lt_irrefl best_key, tt)
    best_loop-best j (t ∷ ts) best best_key = elim (Bool-cases (lt best_key (key t))) [
      | inl up ↦
          let (m, source, top, rest) = best_loop-best (j + 1) ts j (key t) in
          rw up (
            m,
            elim source [
              | inl (a, b) ↦ inr (0, t, (rw a (omega arith)), refl, b)
              | inr (k, e, a, b, c) ↦ inr (suc k, e, (rw a (omega arith)), b, c)
            ],
            not_above m best_key (key t) up top,
            (top, rest),
          )
      | inr down ↦
          let (m, source, top, rest) = best_loop-best (j + 1) ts best best_key in
          rw down (
            m,
            elim source [
              | inl p ↦ inl p
              | inr (k, e, a, b, c) ↦ inr (suc k, e, (rw a (omega arith)), b, c)
            ],
            top,
            (ord.nlt_trans m best_key (key t) top down, rest),
          )
    ]

    swap_best-AtMost :
        (t : A) (ts : List A)
        → let s = swap_best t ts (best_loop fl key 1 ts 0 (key t)) in AtMost (key s.0) s.1
    unfolding swap_best
    swap_best-AtMost t ts =
        let (m, source, top, rest) = best_loop-best 1 ts 0 (key t) in
        elim source [
          | inl (a, b) ↦ rw (a, swap_best) (subst (λ x. AtMost x ts) b rest)
          | inr (k, e, a, b, c) ↦
              let next : best_loop fl key 1 ts 0 (key t) ≡ suc k = omega arith in
              rw (next, swap_best)
                (rw (b, swap_best)
                  (subst (λ x. AtMost x (set ts k t)) c
                    (All-set (λ z. lt m (key z) ≡ false) ts k t top rest)))
        ]

    pub rank_loop-IsRanked : (n : ℕ) (ts : List A) → IsRanked n (rank_loop fl key n ts)
    unfolding rank_loop
    rank_loop-IsRanked zero ts = tt
    rank_loop-IsRanked (suc n) [] = tt
    rank_loop-IsRanked (suc n) (t ∷ ts) = (
      rank_loop-All (λ z. lt (key _) (key z) ≡ false) n _ (swap_best-AtMost t ts),
      rank_loop-IsRanked n _,
    )
