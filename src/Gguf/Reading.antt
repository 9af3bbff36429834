-- ===== src/Gguf/Reading.antt =====
-- Strings and the elements of arrays, read where they were written.
use cautreo.Base.Bytes.{to_bytes, length-to_bytes}
use cautreo.Gguf.Writing.{numbers_bytes, texts_bytes, string_bytes}
use cautreo.Gguf.{value_size, skip_elements, skip_array, read_string, skip_element}
use cautreo.Gguf.Places.{At, seek-At, read_number-At, fread-At, At-next}
use cautreo.Base.{
  ℕ, true, some, [], ◌∷◌, ◌+◌, ◌++◌, ◌^◌, ◌%◌, ◌<◌, ◌≤◌, refl, sym, ap, ◌∙◌, arith, List, length,
  Bool, ◌≡◌, subst, ◌≢◌, length-append, append_assoc,
}

pub At-assoc :
    (file : List ℕ) (pos : ℕ) (a b c : List ℕ)
    → At file pos ((a ++ b) ++ c)
    → At file pos (a ++ (b ++ c))
At-assoc file pos a b c at = subst (At file pos) (append_assoc a b c) at

pub not_text : (t : ℕ) → value_size t ≢ 0 → t ≢ 8
unfolding value_size
not_text t h e = h (ap value_size e)

pub not_array : (t : ℕ) → value_size t ≢ 0 → t ≢ 9
unfolding value_size
not_array t h e = h (ap value_size e)

value_size-bound : (t : ℕ) → value_size t ≤ 8
unfolding value_size
value_size-bound t = ground arith

module _ (file : List ℕ) (small : length file < 2 ^ 63) where
  -- The bytes that are passed over.
  pub skip_numbers-At :
      (t : ℕ) (vs : List ℕ) (pos : ℕ) (rest : List ℕ)
      → value_size t ≢ 0
      → At file pos (numbers_bytes (value_size t) vs ++ rest)
      → At file (skip_elements (length vs) t file pos) rest
  unfolding skip_elements skip_element
  skip_numbers-At t [] pos rest sized at = at
  skip_numbers-At t (v ∷ vs) pos rest sized at =
      let at' =
        At-assoc file pos (to_bytes (value_size t) v) (numbers_bytes (value_size t) vs) rest at in
      let (sought, next) =
        seek-At (value_size t) file pos (to_bytes (value_size t) v)
          (numbers_bytes (value_size t) vs ++ rest) small (length-to_bytes (value_size t) v) at' in
      let stepped : skip_element t file pos ≡ (some (pos + value_size t), pos) =
        ground (arith, sought, not_text t sized) in
      subst (λ p. At file p rest) (sym (ground (arith, stepped)))
        (skip_numbers-At t vs (pos + value_size t) rest sized next)

  length_fits : (a : List ℕ) (pos : ℕ) (rest : List ℕ) → At file pos (a ++ rest) → length a < 2 ^ 63
  length_fits a pos rest at = omega (arith, at.size, length-append a rest, small)

  inner_fits :
      (n pos : ℕ) (a rest : List ℕ)
      → At file pos (to_bytes n (length a) ++ (a ++ rest))
      → length a + n ≤ length file
  inner_fits n pos a rest at = omega (
    arith,
    at.size,
    length-append (to_bytes n (length a)) (a ++ rest),
    length-append a rest,
    length-to_bytes n (length a),
  )

  pub skip_texts-At :
      (ss : List (List ℕ)) (pos : ℕ) (rest : List ℕ)
      → At file pos (texts_bytes ss ++ rest)
      → At file (skip_elements (length ss) 8 file pos) rest
  unfolding skip_elements skip_element
  skip_texts-At [] pos rest at = at
  skip_texts-At (s ∷ ss) pos rest at =
      let at1 = At-assoc file pos (string_bytes s) (texts_bytes ss) rest at in
      let at2 = At-assoc file pos (to_bytes 8 (length s)) s (texts_bytes ss ++ rest) at1 in
      let within = inner_fits 8 pos s (texts_bytes ss ++ rest) at2 in
      let (p, e, at3) =
        read_number-At 8 (length s) file pos (s ++ (texts_bytes ss ++ rest))
          (omega (arith, within, small)) at2 in
      let (sought, next) = seek-At (length s) file p s (texts_bytes ss ++ rest) small refl at3 in
      let stepped : skip_element 8 file pos ≡ (some (p + length s), p) =
        ground (arith, e, sought) in
      subst (λ q. At file q rest) (sym (ground (arith, stepped)))
        (skip_texts-At ss (p + length s) rest next)

  pub skip_array-At :
      (t n : ℕ) (a : List ℕ) (pos : ℕ) (rest : List ℕ)
      → t < 2 ^ 32
      → n < 2 ^ 64
      → ((q : ℕ) → At file q (a ++ rest) → At file (skip_elements n t file q) rest)
      → At file pos ((to_bytes 4 t ++ (to_bytes 8 n ++ a)) ++ rest)
      → At file (skip_array file pos) rest
  unfolding skip_array
  skip_array-At t n a pos rest ht hn skips at =
      let at1 = At-assoc file pos (to_bytes 4 t) (to_bytes 8 n ++ a) rest at in
      let (p, e, at2) =
        read_number-At 4 t file pos ((to_bytes 8 n ++ a) ++ rest) (omega (arith, ht)) at1 in
      let (q, f, at3) =
        read_number-At 8 n file p (a ++ rest) (omega (arith, hn))
          (At-assoc file p (to_bytes 8 n) a rest at2) in
      subst (λ x. At file x rest) (sym (ground (arith, e, f))) (skips q at3)

  module _ (alloc : ℕ → Bool) (gives : (n : ℕ) → n ≤ length file → alloc n ≡ true) where
    pub read_string-At :
        (s : List ℕ) (pos : ℕ) (rest : List ℕ)
        → At file pos (string_bytes s ++ rest)
        → (p : ℕ) × (read_string alloc file pos ≡ (some s, p)) × At file p rest
    unfolding read_string
    read_string-At s pos rest at =
        let at1 = At-assoc file pos (to_bytes 8 (length s)) s rest at in
        let within = inner_fits 8 pos s rest at1 in
        let (p, e, at2) =
          read_number-At 8 (length s) file pos (s ++ rest) (omega (arith, within, small)) at1 in
        let size : (length s + 1) % 2 ^ 64 ≡ length s + 1 = omega (arith, within, small) in
        let given : alloc ((length s + 1) % 2 ^ 64) ≡ true =
          ap alloc size ∙ gives (length s + 1) (omega (arith, within)) in
        (
          p + length s,
          ground (arith, e, given, fread-At file p s rest at2),
          At-next file p s rest at2,
        )
