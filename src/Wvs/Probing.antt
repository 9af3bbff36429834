-- ===== src/Wvs/Probing.antt =====
-- The probe sequence over the keys of the slots.
use cautreo.Base.{
  ℕ, zero, suc, ◌+◌, ◌≤◌, ◌<◌, ◌≡◌, ◌≢◌, refl, ap, true, false, ◌||◌, Option, none, some, List, [],
  ◌∷◌, length, get_elem?, set, get_elem?-set_self, get_elem?-set_ne, if◌then◌else◌, Bool-cases,
  Option-cases, arith, inl, inr,
}
use cautreo.Base.Bytes.{bytes_eq, bytes_eq_iff}
use cautreo.Wvs.{WvsEntry, is_free, probe_index, probe_loop, free_loop}

abbrev pub keys : {F : Type 0} → List (WvsEntry F) → List (List ℕ)
keys [] = []
keys (e ∷ es) = e.key ∷ keys es

pub get_elem?-keys :
    {F : Type 0} (es : List (WvsEntry F)) (i : ℕ) (e : WvsEntry F)
    → get_elem? es i ≡ some e
    → get_elem? (keys es) i ≡ some e.key
get_elem?-keys [] i e h = absurd (ground arith)
get_elem?-keys (x ∷ es) zero e h = ground arith
get_elem?-keys (x ∷ es) (suc i) e h = get_elem?-keys es i e h

pub get_elem?-keys_none :
    {F : Type 0} (es : List (WvsEntry F)) (i : ℕ)
    → get_elem? es i ≡ none
    → get_elem? (keys es) i ≡ none
get_elem?-keys_none [] i h = refl
get_elem?-keys_none (x ∷ es) zero h = absurd (ground arith)
get_elem?-keys_none (x ∷ es) (suc i) h = get_elem?-keys_none es i h

pub keys-set :
    {F : Type 0} (es : List (WvsEntry F)) (i : ℕ) (e : WvsEntry F)
    → keys (set es i e) ≡ set (keys es) i e.key
keys-set [] i e = refl
keys-set (x ∷ es) zero e = refl
keys-set (x ∷ es) (suc i) e = ap (◌∷◌ x.key) (keys-set es i e)

pub length-keys : {F : Type 0} (es : List (WvsEntry F)) → length (keys es) ≡ length es
length-keys [] = refl
length-keys (e ∷ es) = ap suc (length-keys es)

module _ (key : List ℕ) (cap idx : ℕ) where
  -- The loop of the source, over the keys of the slots.
  unfoldable pub probe_keys : ℕ → ℕ → List (List ℕ) → Option ℕ
  probe_keys zero probe ks = none
  probe_keys (suc n) probe ks = elim (get_elem? ks (probe_index cap idx probe)) [
    | none ↦ none
    | some k ↦
        let rest = probe_keys n (probe + 1) ks in
        if is_free k || bytes_eq k key then some (probe_index cap idx probe) else rest
  ]

  pub probe_loop-keys :
      {F : Type 0} (n probe : ℕ) (es : List (WvsEntry F))
      → probe_loop key cap idx n probe es ≡ probe_keys n probe (keys es)
  unfolding probe_loop probe_keys
  probe_loop-keys zero probe es = refl
  probe_loop-keys (suc n) probe es =
      elim (Option-cases (get_elem? es (probe_index cap idx probe))) [
        | inl h ↦ ground (arith, get_elem?-keys_none es (probe_index cap idx probe) h)
        | inr (e, h) ↦ ground (
          arith,
          get_elem?-keys es (probe_index cap idx probe) e h,
          probe_loop-keys n (probe + 1) es,
        )
      ]

  pub probe_keys_sound :
      (n probe : ℕ) (ks : List (List ℕ)) (i : ℕ)
      → probe_keys n probe ks ≡ some i
      → (k : List ℕ) × (get_elem? ks i ≡ some k) × ((is_free k || bytes_eq k key) ≡ true)
  unfolding probe_keys
  probe_keys_sound zero probe ks i h = absurd (ground arith)
  probe_keys_sound (suc n) probe ks i h =
      elim (Option-cases (get_elem? ks (probe_index cap idx probe))) [
        | inl g ↦ absurd (ground arith)
        | inr (k, g) ↦ elim (Bool-cases (is_free k || bytes_eq k key)) [
          | inl t ↦ (k, ground arith, t)
          | inr t ↦ probe_keys_sound n (probe + 1) ks i (ground arith)
        ]
      ]

  pub probe_keys-set :
      (n probe : ℕ) (ks : List (List ℕ)) (i j : ℕ) (k : List ℕ)
      → get_elem? ks i ≡ some []
      → j ≢ i
      → probe_keys n probe ks ≡ some j
      → probe_keys n probe (set ks i k) ≡ some j
  unfolding probe_keys is_free
  probe_keys-set zero probe ks i j k free ne h = h
  probe_keys-set (suc n) probe ks i j k free ne h =
      let other = get_elem?-set_ne ks i (probe_index cap idx probe) k in
      ground (arith, other, probe_keys-set n (probe + 1) ks i j k free ne)

  pub probe_keys-set_self :
      (n probe : ℕ) (ks : List (List ℕ)) (i : ℕ)
      → get_elem? ks i ≡ some []
      → i < length ks
      → probe_keys n probe ks ≡ some i
      → probe_keys n probe (set ks i key) ≡ some i
  unfolding probe_keys is_free
  probe_keys-set_self zero probe ks i free small h = h
  probe_keys-set_self (suc n) probe ks i free small h =
      let other = get_elem?-set_ne ks i (probe_index cap idx probe) key in
      let self = get_elem?-set_self ks i key small in
      let same = (bytes_eq_iff key key).1 refl in
      ground (arith, other, self, same, probe_keys-set_self n (probe + 1) ks i free small)

  -- A free slot on the way ends the loop.
  pub probe_keys_ends :
      (n probe : ℕ) (ks : List (List ℕ)) (p : ℕ)
      → probe ≤ p
      → p < probe + n
      → get_elem? ks (probe_index cap idx p) ≡ some []
      → ((q : ℕ) → get_elem? ks (probe_index cap idx q) ≢ none)
      → probe_keys n probe ks ≢ none
  unfolding probe_keys is_free
  probe_keys_ends zero probe ks p low high free inside = absurd (omega arith)
  probe_keys_ends (suc n) probe ks p low high free inside =
      ground (arith, inside probe, probe_keys_ends n (probe + 1) ks p)

  -- Where the key is stored nowhere, the loop for a free slot is the same.
  pub free_loop-probe_loop :
      {F : Type 0} (n probe : ℕ) (es : List (WvsEntry F))
      → ((i : ℕ) (e : WvsEntry F) → get_elem? es i ≡ some e → bytes_eq e.key key ≡ false)
      → free_loop cap idx n probe es ≡ probe_loop key cap idx n probe es
  unfolding free_loop probe_loop
  free_loop-probe_loop zero probe es absent = refl
  free_loop-probe_loop (suc n) probe es absent =
      elim (Option-cases (get_elem? es (probe_index cap idx probe))) [
        | inl h ↦ ground arith
        | inr (e, h) ↦ ground (
          arith,
          absent (probe_index cap idx probe) e h,
          free_loop-probe_loop n (probe + 1) es absent,
        )
      ]
