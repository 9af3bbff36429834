-- ===== src/Wvs/Ratings.antt =====
-- What wvs/wvs.c promises: a list of keys and ratings, in which the place of an entry in the table
-- does not show, and the operations on it.
use cautreo.Base.{ℕ, suc, false, none, some, [], ◌∷◌, refl, ap, arith, inl, inr}
use cautreo.Wvs.Table.{wvs_lookup, Inv}
use cautreo.Base.Float.{FloatOps}
use cautreo.Base.Bytes.{bytes_eq, bytes_eq_iff}
use cautreo.Wvs.{Hotness, WvsEntry, Wvs, hot, classify, record_access, is_free, update_all}
use cautreo.Base.{
  arith, ℕ, Option, List, some, none, ◌≡◌, length, if◌then◌else◌, inc64, ltb, false, ◌≤◌, ◌∷◌,
  Bool-cases, ap, inl, suc, inr,
}

-- What the scoreboard says of a key.
pub record Rating (F : Type 0) : Type 0 where
  pub access_count : ℕ
  pub last_access_ms : ℕ
  pub hotness_score : F
  pub hotness : Hotness

abbrev pub rating : {F : Type 0} → WvsEntry F → Rating F
rating e = record {
  access_count = e.access_count;
  last_access_ms = e.last_access_ms;
  hotness_score = e.hotness_score;
  hotness = e.hotness;
}

abbrev pub map_some : {A B : Type 0} → (A → B) → Option A → Option B
map_some f none = none
map_some f (some a) = some (f a)

abbrev pub ratings : {F : Type 0} → Wvs F → List ℕ → Option (Rating F)
ratings w key = map_some rating (wvs_lookup w key)

abbrev pub assoc : {R : Type 0} → List ℕ → List (List ℕ × R) → Option R
assoc key [] = none
assoc key ((k, r) ∷ m) = if bytes_eq key k then some r else assoc key m

-- The rating of the key is changed.
abbrev pub revise : {R : Type 0} → List ℕ → (R → R) → List (List ℕ × R) → List (List ℕ × R)
revise key f [] = []
revise key f ((k, r) ∷ m) = (k, if bytes_eq k key then f r else r) ∷ revise key f m

abbrev pub revise_all : {R : Type 0} → (R → R) → List (List ℕ × R) → List (List ℕ × R)
revise_all f [] = []
revise_all f ((k, r) ∷ m) = (k, f r) ∷ revise_all f m

pub assoc-revise :
    {R : Type 0} (k key : List ℕ) (f : R → R) (m : List (List ℕ × R))
    → assoc k (revise key f m) ≡ (if bytes_eq k key then map_some f (assoc k m) else assoc k m)
assoc-revise k key f [] = ground arith
assoc-revise k key f ((x, r) ∷ m) = elim (Bool-cases (bytes_eq k x)) [
  | inl same ↦ rw same (rw ((bytes_eq_iff k x).0 same) (ground arith))
  | inr other ↦ rw other (assoc-revise k key f m)
]

pub length-revise :
    {R : Type 0} (key : List ℕ) (f : R → R) (m : List (List ℕ × R))
    → length (revise key f m) ≡ length m
length-revise key f [] = refl
length-revise key f ((x, r) ∷ m) = ap suc (length-revise key f m)

pub assoc-revise_all :
    {R : Type 0} (k : List ℕ) (f : R → R) (m : List (List ℕ × R))
    → assoc k (revise_all f m) ≡ map_some f (assoc k m)
assoc-revise_all k f [] = refl
assoc-revise_all k f ((x, r) ∷ m) = ground (arith, assoc-revise_all k f m)

pub length-revise_all :
    {R : Type 0} (f : R → R) (m : List (List ℕ × R)) → length (revise_all f m) ≡ length m
length-revise_all f [] = refl
length-revise_all f ((x, r) ∷ m) = ap suc (length-revise_all f m)

pub data BoardEvent : Type 0 where
  access : ℕ → List ℕ → BoardEvent
  decay : BoardEvent

-- The keys are not empty and fit a slot.
abbrev pub KeysFit : List BoardEvent → Type 0
KeysFit [] = Unit
KeysFit (access now key ∷ es) = (is_free key ≡ false) × (length key ≤ 63) × KeysFit es
KeysFit (decay ∷ es) = KeysFit es

module _ (fl : FloatOps) where
  open fl use {F, lit, add, mul, lt}

  -- A key seen for the first time.
  abbrev pub fresh : ℕ → Rating F
  fresh now = record {
    access_count = 1;
    last_access_ms = now;
    hotness_score = lit 1 0;
    hotness = hot;
  }

  abbrev pub raised : ℕ → Rating F → Rating F
  raised now r =
      let sum = add r.hotness_score (lit 5 2) in
      let score = if lt (lit 1 0) sum then lit 1 0 else sum in
      record {
        access_count = inc64 r.access_count;
        last_access_ms = now;
        hotness_score = score;
        hotness = classify fl score;
      }

  abbrev pub aged : Rating F → Rating F
  aged r =
      let lower = mul r.hotness_score (lit 995 3) in
      let score = if lt lower (lit 1 3) then lit 1 3 else lower in
      record r { hotness_score = score; hotness = classify fl score }

  -- The list has room for `cap` keys.
  abbrev pub spec_access : ℕ → ℕ → List ℕ → List (List ℕ × Rating F) → List (List ℕ × Rating F)
  spec_access cap now key m = elim (assoc key m) [
    | none ↦ if ltb (length m) cap then (key, fresh now) ∷ m else m
    | some r ↦ revise key (raised now) m
  ]

  abbrev pub run_board : List BoardEvent → Wvs F → Wvs F
  run_board [] w = w
  run_board (access now key ∷ es) w = run_board es (record_access fl now w (some key)).0
  run_board (decay ∷ es) w = run_board es (update_all fl w)

  abbrev pub run_spec : ℕ → List BoardEvent → List (List ℕ × Rating F) → List (List ℕ × Rating F)
  run_spec cap [] m = m
  run_spec cap (access now key ∷ es) m = run_spec cap es (spec_access cap now key m)
  run_spec cap (decay ∷ es) m = run_spec cap es (revise_all aged m)

  pub record Shows (cap : ℕ) (w : Wvs F) (m : List (List ℕ × Rating F)) : Type 0 where
    pub inv : Inv w
    pub listed : (k : List ℕ) → ratings w k ≡ assoc k m
    pub counted : w.count ≡ length m
    pub capacity : w.capacity ≡ cap
