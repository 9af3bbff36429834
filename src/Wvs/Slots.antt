-- ===== src/Wvs/Slots.antt =====
-- Lemmas on the list of slots: those in use, an entry that is put in one, and the probe sequence of a key.
use cautreo.Base.{
  ℕ, zero, suc, ◌+◌, ◌-◌, ◌^◌, ◌≤◌, ◌<◌, ◌≡◌, ◌≢◌, inl, inr, refl, ap, true, false, none, some,
  List, [], ◌∷◌, length, get_elem?, set, if◌then◌else◌, Bool-cases, leb, arith,
}
use cautreo.Wvs.{is_free, probe_index, wvs_hash}

-- The number of slots in use.
abbrev pub used : List (List ℕ) → ℕ
used [] = 0
used (k ∷ ks) = (if is_free k then 0 else 1) + used ks

pub used-le : (ks : List (List ℕ)) → used ks ≤ length ks
used-le [] = omega arith
used-le (k ∷ ks) = ground (arith, used-le ks)

pub used-set :
    (ks : List (List ℕ)) (i : ℕ) (k : List ℕ)
    → get_elem? ks i ≡ some []
    → is_free k ≡ false
    → used (set ks i k) ≡ suc (used ks)
unfolding is_free
used-set [] i k h u = absurd (ground arith)
used-set (x ∷ ks) zero k h u = ground arith
used-set (x ∷ ks) (suc i) k h u = ground (arith, used-set ks i k h u)

pub free_slot :
    (ks : List (List ℕ))
    → used ks < length ks
    → (i : ℕ) × (get_elem? ks i ≡ some []) × (i < length ks)
unfolding is_free
free_slot [] h = absurd (omega arith)
free_slot ([] ∷ ks) h = (0, refl, omega arith)
free_slot ((c ∷ k) ∷ ks) h =
    let (i, free, inside) = free_slot ks (omega arith) in (suc i, free, omega arith)

pub some-get : {A : Type 0} (xs : List A) (i : ℕ) → i < length xs → get_elem? xs i ≢ none
some-get [] i h e = absurd (omega arith)
some-get (x ∷ xs) zero h e = absurd (ground arith)
some-get (x ∷ xs) (suc i) h e = some-get xs i (omega arith) e

pub get-bound : {A : Type 0} (xs : List A) (i : ℕ) (x : A) → get_elem? xs i ≡ some x → i < length xs
get-bound [] i x h = absurd (ground arith)
get-bound (y ∷ xs) zero x h = omega arith
get-bound (y ∷ xs) (suc i) x h = omega (arith, get-bound xs i x h)

-- Every slot is on the probe sequence of every key.
pub reached :
    (cap idx i : ℕ)
    → idx < cap
    → i < cap
    → cap ≤ 2 ^ 31
    → (p : ℕ) × (p < cap) × (probe_index cap idx p ≡ i)
unfolding probe_index
reached cap idx i a b c = elim (Bool-cases (leb idx i)) [
  | inl up ↦ (
    i - idx,
    ground arith,
    (let e : idx + (i - idx) ≡ i = ground arith in rw (e, probe_index) (grind arith)),
  )
  | inr down ↦ (
    i + cap - idx,
    ground arith,
    (let e : idx + (i + cap - idx) ≡ i + cap = ground arith in rw (e, probe_index) (grind arith)),
  )
]

pub empty : (k : List ℕ) → is_free k ≡ true → k ≡ []
unfolding is_free
empty [] h = refl
empty (c ∷ k) h = absurd (ground arith)

pub set_same :
    {A : Type 0} (xs : List A) (i : ℕ) (x : A) → get_elem? xs i ≡ some x → set xs i x ≡ xs
set_same [] i x h = refl
set_same (y ∷ xs) zero x h = ground arith
set_same (y ∷ xs) (suc i) x h = ap (◌∷◌ y) (set_same xs i x h)

pub same_at :
    {A : Type 0} (xs : List A) (i j : ℕ) (x y : A)
    → j ≡ i
    → get_elem? xs j ≡ some x
    → get_elem? xs i ≡ some y
    → x ≡ y
same_at xs i j x y c h g = ground arith

pub wvs_hash-bound : (key : List ℕ) (cap : ℕ) → 1 ≤ cap → wvs_hash key cap < cap
unfolding wvs_hash
wvs_hash-bound key cap h = grind arith

pub probe_index-bound : (cap idx p : ℕ) → 1 ≤ cap → probe_index cap idx p < cap
unfolding probe_index
probe_index-bound cap idx p h = grind arith
