-- ===== src/Gguf/Model.antt =====
-- A whole model file, and the alignment of its data.
use native.Mathlib.Nat.{mod-lt, mod-add-mod, mod_self}
use cautreo.Base.{◌-◌, Bool-cases}
use cautreo.Gguf.Entries.{read_kvs-At, read_tensor_infos-At}
use cautreo.Gguf.{align_up, gguf_open, read_body, alignment}
use cautreo.Gguf.Places.{At, At-next}
use cautreo.Gguf.Writing.{
  string_bytes, Value, Tensor, pairs_bytes, tensors_bytes, model_bytes, pair_bytes, tensor_bytes,
  value_type, numbers_bytes, PairsFit, value_bytes, TensorsFit, kept_kv, kept_tensor,
}
use cautreo.Base.Bytes.{of_bytes, to_bytes, length-to_bytes, of_bytes-to_bytes}
use cautreo.Base.{
  ℕ, true, false, some, [], ◌∷◌, ◌+◌, ◌++◌, ◌^◌, ◌%◌, ◌<◌, ◌≤◌, refl, sym, ap, ◌∙◌, arith, inl, inr,
  ltb, ◌==◌, List, length, take, length-append, ◌≡◌, Bool, subst, append_assoc, drop,
  take-append_length, map, ◌||◌,
}

word_at : (n v : ℕ) (rest : List ℕ) → v < 256 ^ n → of_bytes (take n (to_bytes n v ++ rest)) ≡ v
word_at n v rest small =
    let e : take n (to_bytes n v ++ rest) ≡ to_bytes n v =
      ap (λ k. take k (to_bytes n v ++ rest)) (sym (length-to_bytes n v))
      ∙ take-append_length (to_bytes n v) rest in
    ap of_bytes e ∙ of_bytes-to_bytes n v small

count-strings : (s b : List ℕ) → 1 ≤ length (string_bytes s ++ b)
count-strings s b = omega (
  arith,
  length-append (string_bytes s) b,
  length-append (to_bytes 8 (length s)) s,
  length-to_bytes 8 (length s),
)

count-pairs : (kvs : List (List ℕ × Value)) → length kvs ≤ length (pairs_bytes kvs)
count-pairs [] = omega arith
count-pairs ((key, v) ∷ kvs) = omega (
  arith,
  count-pairs kvs,
  length-append (pair_bytes (key, v)) (pairs_bytes kvs),
  count-strings key (to_bytes 4 (value_type v) ++ value_bytes v),
)

count-tensors : (ts : List Tensor) → length ts ≤ length (tensors_bytes ts)
count-tensors [] = omega arith
count-tensors (t ∷ ts) = omega (
  arith,
  count-tensors ts,
  length-append (tensor_bytes t) (tensors_bytes ts),
  count-strings t.name (
      to_bytes 4 (length t.dims)
      ++ (numbers_bytes 8 t.dims ++ (to_bytes 4 t.type ++ to_bytes 8 t.offset))),
)

word-next :
    (n v : ℕ) (file : List ℕ) (pos : ℕ) (rest : List ℕ)
    → At file pos (to_bytes n v ++ rest)
    → At file (pos + n) rest
word-next n v file pos rest at =
    subst (λ k. At file (pos + k) rest) (length-to_bytes n v)
      (At-next file pos (to_bytes n v) rest at)

module _ (version : ℕ) (kvs : List (List ℕ × Value)) (ts : List Tensor) (rest : List ℕ) where
  abbrev whole : List ℕ
  whole = model_bytes version kvs ts ++ rest

  body : List ℕ
  body = pairs_bytes kvs ++ (tensors_bytes ts ++ rest)

  counts : List ℕ
  counts = to_bytes 8 (length ts) ++ (to_bytes 8 (length kvs) ++ body)

  -- The file as the reader comes to its parts.
  parted : whole ≡ to_bytes 4 0x46554747 ++ (to_bytes 4 version ++ counts)
  unfolding body counts
  parted = simp append_assoc refl

  at0 : At whole 0 (to_bytes 4 0x46554747 ++ (to_bytes 4 version ++ counts))
  at0 = record { left = parted; size = omega (arith, ap length parted) }

  at4 : At whole 4 (to_bytes 4 version ++ counts)
  at4 = word-next 4 0x46554747 whole 0 (to_bytes 4 version ++ counts) at0

  at8 : At whole 8 counts
  at8 = word-next 4 version whole 4 counts at4

  at16 : At whole 16 (to_bytes 8 (length kvs) ++ body)
  unfolding counts
  at16 = word-next 8 (length ts) whole 8 (to_bytes 8 (length kvs) ++ body) at8

  at24 : At whole 24 body
  at24 = word-next 8 (length kvs) whole 16 body at16

  module _ (known : (1 ≤ version) × (version ≤ 3)) (small : length whole < 2 ^ 63) where
    few : (length kvs < 2 ^ 64) × (length ts < 2 ^ 64)
    unfolding body
    few =
        let size = at24.size in
        let parts = length-append (pairs_bytes kvs) (tensors_bytes ts ++ rest) in
        (
          omega (arith, size, small, parts, count-pairs kvs),
          omega
              (arith, size, small, parts, length-append (tensors_bytes ts) rest, count-tensors ts),
        )

    magic_read : of_bytes (take 4 whole) ≡ 0x46554747
    magic_read =
        ap (λ x. of_bytes (take 4 x)) at0.left
        ∙ word_at 4 0x46554747 (to_bytes 4 version ++ counts) (omega arith)

    version_read : of_bytes (take 4 (drop 4 whole)) ≡ version
    version_read =
        ap (λ x. of_bytes (take 4 x)) at4.left ∙ word_at 4 version counts (omega (arith, known.1))

    n_tensors_read : of_bytes (take 8 (drop 8 whole)) ≡ length ts
    unfolding counts
    n_tensors_read =
        ap (λ x. of_bytes (take 8 x)) at8.left
        ∙ word_at 8 (length ts) (to_bytes 8 (length kvs) ++ body) (omega (arith, few.1))

    n_kv_read : of_bytes (take 8 (drop 16 whole)) ≡ length kvs
    n_kv_read =
        ap (λ x. of_bytes (take 8 x)) at16.left ∙ word_at 8 (length kvs) body (omega (arith, few.0))

    header_present : ltb (length whole) 24 ≡ false
    header_present = ground (arith, at24.size)

    module _ (alloc alloc_kv alloc_tensors : ℕ → Bool)
        (gives : (n : ℕ) → n ≤ length whole → alloc n ≡ true) where
      opened :
          gguf_open alloc alloc_kv alloc_tensors (some whole)
          ≡ read_body alloc alloc_kv alloc_tensors whole version (length ts) (length kvs)
      unfolding gguf_open
      opened =
          let supported : (ltb version 1 || ltb 3 version) ≡ false =
            ground (arith, known.0, known.1) in
          rw (header_present, gguf_open)
            (rw (magic_read, gguf_open)
              (rw (version_read, gguf_open)
                (rw (supported, gguf_open)
                  (rw (n_tensors_read, gguf_open) (rw (n_kv_read, gguf_open) refl)))))

      -- Take a file that begins with the header, the metadata and the tensor index of the format, of a version from 1 to 3, with any
      -- bytes behind: values of every type but arrays of arrays, the numbers within their sizes, tensors of
      -- at most four dimensions. Where the file has less than 2⁶³ bytes, `malloc` gives every size up to the file's
      -- and `calloc` the two arrays, it is opened with exactly the version, the counts, the keys with their types and values
      -- (arrays without their elements) and the tensors that were written, in order, and its data offset is the end of the index, aligned.
      pub gguf_open-model_bytes :
          alloc_kv (length kvs) ≡ true
          → alloc_tensors (length ts) ≡ true
          → PairsFit kvs
          → TensorsFit ts
          → gguf_open alloc alloc_kv alloc_tensors (some whole)
            ≡ some (record {
              file = whole;
              version = version;
              n_tensors = length ts;
              n_kv = length kvs;
              kv = map kept_kv kvs;
              tensors = map kept_tensor ts;
              data_offset =
                  align_up (alignment (map kept_kv kvs)) (length (model_bytes version kvs ts));
            })
      unfolding read_body body
      gguf_open-model_bytes kv_given tensors_given fit_kvs fit_ts =
          let (p, e, at1) =
            read_kvs-At whole small alloc gives kvs 24 (tensors_bytes ts ++ rest) fit_kvs at24 in
          let (q, f, at2) = read_tensor_infos-At whole small alloc gives ts p rest fit_ts at1 in
          let end : q ≡ length (model_bytes version kvs ts) =
            omega (arith, at2.size, length-append (model_bytes version kvs ts) rest) in
          opened
          ∙ rw (kv_given, read_body)
              (rw (tensors_given, read_body) (rw (e, read_body) (rw (f, read_body) (rw end refl))))

-- For an alignment of at least one the position is rounded up to a multiple of it, to one that is not below the
-- position and less than one alignment above it.
pub align_up_lem :
    (align pos : ℕ)
    → 1 ≤ align
    → (align_up align pos % align ≡ 0)
      × (pos ≤ align_up align pos)
      × (align_up align pos < pos + align)
unfolding align_up
align_up_lem align pos positive =
    let below : pos % align < align = mod-lt pos positive in
    let round : (pos % align + (align - pos % align)) % align
        ≡ (pos + (align - pos % align)) % align =
      mod-add-mod pos align (align - pos % align) in
    let turn : pos % align + (align - pos % align) ≡ align = omega (arith, below) in
    let zero_left : align % align ≡ 0 = mod_self align in
    let total : (pos + (align - pos % align)) % align ≡ 0 =
      sym round ∙ ap (λ x. x % align) turn ∙ zero_left in
    elim (Bool-cases (pos % align == 0)) [
      | inl at ↦ rw (at, align_up) (ground (arith, at), omega arith, omega (arith, positive))
      | inr off ↦ rw (off, align_up) (total, omega arith, ground (arith, below, off))
    ]
