-- ===== src/Gguf/Entries.antt =====
-- The entries of the metadata and of the index of tensors, read where they were written.
use cautreo.Gguf.Reading.{
  not_text, not_array, skip_array-At, read_string-At, skip_numbers-At, skip_texts-At, At-assoc,
}
use cautreo.Base.Bytes.{to_bytes, length-to_bytes}
use cautreo.Gguf.Places.{At, read_number-At}
use cautreo.Gguf.Writing.{
  numbers_bytes, texts_bytes, Value, ValueFits, string_bytes, value_bytes, value_type, value_number,
  number, value_str, flag, text, numbers, texts, pair_bytes, PairsFit, Fit, Tensor, kept_kv,
  pairs_bytes, TensorFits, TensorsFit, tensor_bytes, tensors_bytes, kept_tensor,
}
use cautreo.Gguf.{
  value_size, read_value, skip_elements, skip_array, read_kv, read_kvs, read_dims, read_place,
  read_tensor_info, read_tensor_infos, TensorInfo,
}
use cautreo.Base.{
  ℕ, true, false, some, [], ◌∷◌, ◌++◌, ◌^◌, ◌%◌, ◌<◌, ◌≤◌, refl, arith, ltb, List, ◌≢◌, length,
  Bool, ◌≡◌, length-append, if◌then◌else◌, map,
}

numeric-byte : (t : ℕ) → value_size t ≢ 0 → t < 256
unfolding value_size
numeric-byte t h = ground (arith, h)

value_type-byte : (v : Value) → ValueFits v → value_type v < 256
value_type-byte (number t v) ((sized, not_flag), fits) = numeric-byte t sized
value_type-byte (flag b) fits = omega arith
value_type-byte (text s) fits = omega arith
value_type-byte (numbers t vs) fits = omega arith
value_type-byte (texts ss) fits = omega arith

numeric-small : (t : ℕ) → value_size t ≢ 0 → t < 2 ^ 32
unfolding value_size
numeric-small t h = ground (arith, h)

count-numbers : (size : ℕ) (vs : List ℕ) → size ≢ 0 → length vs ≤ length (numbers_bytes size vs)
count-numbers size [] h = omega arith
count-numbers size (v ∷ vs) h = omega (
  arith,
  h,
  count-numbers size vs h,
  length-append (to_bytes size v) (numbers_bytes size vs),
  length-to_bytes size v,
)

count-texts : (ss : List (List ℕ)) → length ss ≤ length (texts_bytes ss)
count-texts [] = omega arith
count-texts (s ∷ ss) = omega (
  arith,
  count-texts ss,
  length-append (string_bytes s) (texts_bytes ss),
  length-append (to_bytes 8 (length s)) s,
  length-to_bytes 8 (length s),
)

module _ (file : List ℕ) (small : length file < 2 ^ 63) where
  behind :
      (a b : List ℕ) (pos : ℕ) (rest : List ℕ) → At file pos ((a ++ b) ++ rest) → length b < 2 ^ 63
  behind a b pos rest at =
      omega (arith, at.size, small, length-append (a ++ b) rest, length-append a b)

  array-At :
      (t n : ℕ) (a : List ℕ) (pos : ℕ) (rest : List ℕ)
      → t < 2 ^ 32
      → n ≤ length a
      → ((q : ℕ) → At file q (a ++ rest) → At file (skip_elements n t file q) rest)
      → At file pos ((to_bytes 4 t ++ (to_bytes 8 n ++ a)) ++ rest)
      → At file (skip_array file pos) rest
  array-At t n a pos rest ht hn skips at =
      let inner = behind (to_bytes 4 t) (to_bytes 8 n ++ a) pos rest at in
      skip_array-At file small t n a pos rest ht
        (omega (arith, hn, inner, length-append (to_bytes 8 n) a)) skips at

  module _ (alloc : ℕ → Bool) (gives : (n : ℕ) → n ≤ length file → alloc n ≡ true) where
    read_value-At :
        (v : Value) (pos : ℕ) (rest : List ℕ)
        → ValueFits v
        → At file pos (value_bytes v ++ rest)
        → (p : ℕ) × (read_value alloc (value_type v) file pos ≡ ((value_number v, value_str v), p))
          × At file p rest
    unfolding read_value value_size
    read_value-At (number t v) pos rest ((sized, not_flag), fits) at =
        let (p, e, next) = read_number-At (value_size t) v file pos rest fits at in
        (p, ground (arith, e, not_text t sized, not_array t sized), next)
    read_value-At (flag false) pos rest fits at =
        let (p, e, next) = read_number-At 1 0 file pos rest (omega arith) at in
        (p, ground (arith, e), next)
    read_value-At (flag true) pos rest fits at =
        let (p, e, next) = read_number-At 1 1 file pos rest (omega arith) at in
        (p, ground (arith, e), next)
    read_value-At (text s) pos rest fits at =
        let (p, e, next) = read_string-At file small alloc gives s pos rest at in
        (p, ground (arith, e), next)
    read_value-At (numbers t vs) pos rest (sized, fits) at =
        let size = value_size t in
        (
          skip_array file pos,
          refl,
          array-At t (length vs) (numbers_bytes (value_size t) vs) pos rest (numeric-small t sized)
              (count-numbers (value_size t) vs sized)
              (λ q. skip_numbers-At file small t vs q rest sized) at,
        )
    read_value-At (texts ss) pos rest fits at = (
      skip_array file pos,
      refl,
      array-At 8 (length ss) (texts_bytes ss) pos rest (omega arith) (count-texts ss)
          (λ q. skip_texts-At file small ss q rest) at,
    )

    value_type-small : (v : Value) → ValueFits v → value_type v < 2 ^ 32
    value_type-small (number t v) ((sized, not_flag), fits) = numeric-small t sized
    value_type-small (flag b) fits = omega arith
    value_type-small (text s) fits = omega arith
    value_type-small (numbers t vs) fits = omega arith
    value_type-small (texts ss) fits = omega arith

    read_kv-At :
        (key : List ℕ) (v : Value) (pos : ℕ) (rest : List ℕ)
        → ValueFits v
        → At file pos (pair_bytes (key, v) ++ rest)
        → (p : ℕ) × (read_kv alloc file pos ≡ (kept_kv (key, v), p, true)) × At file p rest
    unfolding read_kv
    read_kv-At key v pos rest fits at =
        let at1 =
          At-assoc file pos (string_bytes key) (to_bytes 4 (value_type v) ++ value_bytes v) rest
            at in
        let (p, e, at2) =
          read_string-At file small alloc gives key pos
            ((to_bytes 4 (value_type v) ++ value_bytes v) ++ rest) at1 in
        let type_small = value_type-small v fits in
        let (q, f, at3) =
          read_number-At 4 (value_type v) file p (value_bytes v ++ rest) (omega (arith, type_small))
            (At-assoc file p (to_bytes 4 (value_type v)) (value_bytes v) rest at2) in
        let (r, g, next) = read_value-At v q rest fits at3 in
        let byte : value_type v % 256 ≡ value_type v = omega (arith, value_type-byte v fits) in
        (r, ground (arith, e, f, g, byte), next)

    pub read_kvs-At :
        (kvs : List (List ℕ × Value)) (pos : ℕ) (rest : List ℕ)
        → PairsFit kvs
        → At file pos (pairs_bytes kvs ++ rest)
        → (p : ℕ) × (read_kvs alloc (length kvs) file pos ≡ (map kept_kv kvs, p)) × At file p rest
    unfolding read_kvs
    read_kvs-At [] pos rest fit at = (pos, refl, at)
    read_kvs-At ((key, v) ∷ kvs) pos rest (fits, fit) at =
        let (p, e, at1) =
          read_kv-At key v pos (pairs_bytes kvs ++ rest) fits
            (At-assoc file pos (pair_bytes (key, v)) (pairs_bytes kvs) rest at) in
        let (q, f, next) = read_kvs-At kvs p rest fit at1 in
        (q, rw (e, read_kvs) (rw (f, read_kvs) refl), next)

    read_dims-At :
        (ds : List ℕ) (pos : ℕ) (rest : List ℕ)
        → Fit 8 ds
        → At file pos (numbers_bytes 8 ds ++ rest)
        → (p : ℕ) × (read_dims (length ds) file pos ≡ (ds, p)) × At file p rest
    unfolding read_dims
    read_dims-At [] pos rest fit at = (pos, refl, at)
    read_dims-At (d ∷ ds) pos rest (fits, fit) at =
        let (p, e, at1) =
          read_number-At 8 d file pos (numbers_bytes 8 ds ++ rest) fits
            (At-assoc file pos (to_bytes 8 d) (numbers_bytes 8 ds) rest at) in
        let (q, f, next) = read_dims-At ds p rest fit at1 in (q, ground (arith, e, f), next)

    read_place-At :
        (t : TensorInfo) (type offset : ℕ) (pos : ℕ) (rest : List ℕ)
        → type < 2 ^ 32
        → offset < 2 ^ 64
        → At file pos ((to_bytes 4 type ++ to_bytes 8 offset) ++ rest)
        → (p : ℕ) × (read_place file t pos ≡ (record t { type = type; offset = offset }, p, true))
          × At file p rest
    unfolding read_place
    read_place-At t type offset pos rest a b at =
        let (p, e, at1) =
          read_number-At 4 type file pos (to_bytes 8 offset ++ rest) (omega (arith, a))
            (At-assoc file pos (to_bytes 4 type) (to_bytes 8 offset) rest at) in
        let (q, f, next) = read_number-At 8 offset file p rest (omega (arith, b)) at1 in
        (q, ground (arith, e, f), next)

    read_tensor_info-At :
        (t : Tensor) (pos : ℕ) (rest : List ℕ)
        → TensorFits t
        → At file pos (tensor_bytes t ++ rest)
        → (p : ℕ) × (read_tensor_info alloc file pos ≡ (kept_tensor t, p, true)) × At file p rest
    unfolding read_tensor_info
    read_tensor_info-At t pos rest (few, fit, a, b) at =
        let place = to_bytes 4 t.type ++ to_bytes 8 t.offset in
        let dims = numbers_bytes 8 t.dims ++ place in
        let (p, e, at1) =
          read_string-At file small alloc gives t.name pos
            ((to_bytes 4 (length t.dims) ++ dims) ++ rest)
            (At-assoc file pos (string_bytes t.name) (to_bytes 4 (length t.dims) ++ dims) rest
              at) in
        let (q, f, at2) =
          read_number-At 4 (length t.dims) file p (dims ++ rest) (omega (arith, few))
            (At-assoc file p (to_bytes 4 (length t.dims)) dims rest at1) in
        let (r, g, at3) =
          read_dims-At t.dims q (place ++ rest) fit
            (At-assoc file q (numbers_bytes 8 t.dims) place rest at2) in
        let n_dims : (if ltb 4 (length t.dims) then 4 else length t.dims) ≡ length t.dims =
          ground (arith, few) in
        let (s, h, next) =
          read_place-At
            (record {
              name = some t.name;
              n_dims = length t.dims;
              dims = t.dims;
              type = 0;
              offset = 0;
            })
            t.type t.offset r rest a b at3 in
        (s, ground (arith, e, f, g, n_dims, h), next)

    pub read_tensor_infos-At :
        (ts : List Tensor) (pos : ℕ) (rest : List ℕ)
        → TensorsFit ts
        → At file pos (tensors_bytes ts ++ rest)
        → (p : ℕ) × (read_tensor_infos alloc (length ts) file pos ≡ (map kept_tensor ts, p))
          × At file p rest
    unfolding read_tensor_infos
    read_tensor_infos-At [] pos rest fit at = (pos, refl, at)
    read_tensor_infos-At (t ∷ ts) pos rest (fits, fit) at =
        let (p, e, at1) =
          read_tensor_info-At t pos (tensors_bytes ts ++ rest) fits
            (At-assoc file pos (tensor_bytes t) (tensors_bytes ts) rest at) in
        let (q, f, next) = read_tensor_infos-At ts p rest fit at1 in
        (q, rw (e, read_tensor_infos) (rw (f, read_tensor_infos) refl), next)
