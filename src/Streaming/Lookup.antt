-- ===== src/Streaming/Lookup.antt =====
-- What the loops over the cache return.
use cautreo.Base.{
  ℕ, zero, suc, ◌+◌, ◌≤◌, ◌<◌, ◌≡◌, refl, ◌⊎◌, inl, inr, Bool, true, false, ◌&&◌, Option, none,
  some, List, [], ◌∷◌, take, get_elem?, set, ltb, arith, Bool-cases, All, ap,
}
use cautreo.Streaming.{CacheEntry, first_index, lru_loop}

-- Entry `j` of a list that is counted from `i` is `e`.
abbrev pub At : ℕ → List CacheEntry → ℕ → CacheEntry → Type 0
At i l j e = (k : ℕ) × (j ≡ i + k) × (get_elem? l k ≡ some e)

At-cons :
    (i : ℕ) (x : CacheEntry) (l : List CacheEntry) (j : ℕ) (e : CacheEntry)
    → At (i + 1) l j e
    → At i (x ∷ l) j e
At-cons i x l j e (k, p, q) = (suc k, omega arith, q)

pub get_elem?-take :
    (n : ℕ) (l : List CacheEntry) (k : ℕ) {e : CacheEntry}
    → get_elem? (take n l) k ≡ some e
    → (get_elem? l k ≡ some e) × (k < n)
get_elem?-take zero l k h = cc
get_elem?-take (suc n) [] k h = cc
get_elem?-take (suc n) (x ∷ l) zero h = (h, omega arith)
get_elem?-take (suc n) (x ∷ l) (suc k) h = let (p, q) = get_elem?-take n l k h in (p, omega arith)

-- The index that a search returns holds an entry which passes the test.
pub first_index-At :
    (test : CacheEntry → Bool) (i : ℕ) (l : List CacheEntry) (j : ℕ)
    → first_index test i l ≡ some j
    → (e : CacheEntry) × At i l j e × (test e ≡ true)
unfolding first_index
first_index-At test i [] j h = cc
first_index-At test i (x ∷ l) j h = elim (Bool-cases (test x)) [
  | inl pass ↦ (x, (0, ground arith, refl), pass)
  | inr fail ↦
      let (e, at, pass) = first_index-At test (i + 1) l j (rw fail at h) in
      (e, At-cons i x l j e at, pass)
]

-- A search that returns nothing has met no entry which passes.
pub first_index-none :
    (test : CacheEntry → Bool) (i : ℕ) (l : List CacheEntry)
    → first_index test i l ≡ none
    → All (λ e. test e ≡ false) l
unfolding first_index
first_index-none test i [] h = tt
first_index-none test i (x ∷ l) h = elim (Bool-cases (test x)) [
  | inl pass ↦ absurd (ground arith)
  | inr fail ↦ (fail, first_index-none test (i + 1) l (rw fail at h))
]

-- `m` is the access time of the victim `v`: that of the loop's first victim, or of an entry.
abbrev pub Source : ℕ → List CacheEntry → Option ℕ → ℕ → ℕ → ℕ → Type 0
Source i l victim oldest v m =
    ((victim ≡ some v) × (m ≡ oldest))
    ⊎ ((e : CacheEntry) × At i l v e × (e.valid ≡ true) × (e.last_access_ms ≡ m))

pub lru_loop-least :
    (i : ℕ) (l : List CacheEntry) (victim : Option ℕ) (oldest v : ℕ)
    → lru_loop i l victim oldest ≡ some v
    → (m : ℕ) × Source i l victim oldest v m
      × (m ≤ oldest)
      × All (λ e. e.valid ≡ true → m ≤ e.last_access_ms) l
unfolding lru_loop
lru_loop-least i [] victim oldest v h = (oldest, inl (h, refl), omega arith, tt)
lru_loop-least i (x ∷ l) victim oldest v h =
    elim (Bool-cases (x.valid && ltb x.last_access_ms oldest)) [
      | inl taken ↦
          let (m, source, low, rest) =
            lru_loop-least (i + 1) l (some i) x.last_access_ms v (rw taken at h) in
          (
            m,
            elim source [
              | inl (a, b) ↦ inr (x, (0, ground arith, refl), ground arith, ground arith)
              | inr (e, at, ok, t) ↦ inr (e, At-cons i x l v e at, ok, t)
            ],
            ground arith,
            ((λ _. low), rest),
          )
      | inr skipped ↦
          let (m, source, low, rest) = lru_loop-least (i + 1) l victim oldest v (rw skipped at h) in
          (
            m,
            elim source [
              | inl p ↦ inl p
              | inr (e, at, ok, t) ↦ inr (e, At-cons i x l v e at, ok, t)
            ],
            low,
            ((λ ok. ground arith), rest),
          )
    ]

-- A search skips the entries that fail, and stops at the first that passes.
pub first_index-skip :
    (test : CacheEntry → Bool) (i k : ℕ) (l : List CacheEntry) (e : CacheEntry)
    → All (λ f. test f ≡ false) (take k l)
    → get_elem? l k ≡ some e
    → test e ≡ true
    → first_index test i l ≡ some (i + k)
unfolding first_index
first_index-skip test i k [] e a h p = cc
first_index-skip test i zero (x ∷ l) e a h p = ground arith
first_index-skip test i (suc k) (x ∷ l) e a h p =
    ground (arith, first_index-skip test (i + 1) k l e a.1 h p)

pub first_index_absent :
    (test : CacheEntry → Bool) (i : ℕ) (l : List CacheEntry)
    → All (λ f. test f ≡ false) l
    → first_index test i l ≡ none
unfolding first_index
first_index_absent test i [] a = refl
first_index_absent test i (x ∷ l) a = ground (arith, first_index_absent test (i + 1) l a.1)

-- A write of an entry that fails too keeps a prefix without a match.
pub All-take-set :
    (test : CacheEntry → Bool) (k i : ℕ) (l : List CacheEntry) (x : CacheEntry)
    → test x ≡ false
    → All (λ f. test f ≡ false) (take k l)
    → All (λ f. test f ≡ false) (take k (set l i x))
All-take-set test zero i l x p a = tt
All-take-set test (suc k) i [] x p a = tt
All-take-set test (suc k) zero (y ∷ l) x p a = (p, a.1)
All-take-set test (suc k) (suc i) (y ∷ l) x p a = (a.0, All-take-set test k i l x p a.1)

pub get_elem?-take_below :
    (n : ℕ) (l : List CacheEntry) (k : ℕ) → k < n → get_elem? (take n l) k ≡ get_elem? l k
get_elem?-take_below zero l k h = absurd (omega arith)
get_elem?-take_below (suc n) [] k h = refl
get_elem?-take_below (suc n) (x ∷ l) zero h = refl
get_elem?-take_below (suc n) (x ∷ l) (suc k) h = get_elem?-take_below n l k (omega arith)

pub take-take : (k n : ℕ) (l : List CacheEntry) → k ≤ n → take k (take n l) ≡ take k l
take-take zero n l h = refl
take-take (suc k) zero l h = absurd (omega arith)
take-take (suc k) (suc n) [] h = refl
take-take (suc k) (suc n) (x ∷ l) h = ap (◌∷◌ x) (take-take k n l (omega arith))
