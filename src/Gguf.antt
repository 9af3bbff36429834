-- ===== src/Gguf.antt =====
-- gguf/gguf.c: the reader of model files, with the header, the metadata and the index of tensors, and the
-- model that is split over several files.
-- A file is the list of its bytes, and `pos` the position of the stream in it. `alloc` says which
-- sizes `malloc` gives, `alloc_kv` and `alloc_tensors` which arrays `calloc` gives. A signed integer is its 64 bits in
-- two's complement. What a number that the end of the file cuts leaves behind in the index is not modelled.
pub mod Index
pub mod Split
pub mod Places
pub mod Writing
pub mod Reading
pub mod Entries
pub mod Model
pub mod Merge
mod Tests
use cautreo.Base.{
  ℕ, zero, suc, ◌+◌, ◌-◌, ◌*◌, ◌%◌, ◌^◌, Bool, true, false, not, ◌&&◌, ◌||◌, Option, none, some,
  List, [], ◌∷◌, length, take, drop, ltb, leb, ◌==◌, if◌then◌else◌,
}
use cautreo.Base.Bytes.{bytes_eq, of_bytes}

-- `type` is a `uint8_t`. `number` holds the bits of a value that is not a string, and `str` the string: the
-- union is read by its type alone. The fields that are not read are zero.
pub record Kv : Type 0 where
  pub key : Option (List ℕ)
  pub type : ℕ
  pub number : ℕ
  pub str : Option (List ℕ)

pub record TensorInfo : Type 0 where
  pub name : Option (List ℕ)
  pub n_dims : ℕ
  pub dims : List ℕ
  pub type : ℕ
  pub offset : ℕ

-- `kv` and `tensors` are the entries that the loops came to; those behind them have null names.
pub record Gguf : Type 0 where
  pub file : List ℕ
  pub version : ℕ
  pub n_tensors : ℕ
  pub n_kv : ℕ
  pub kv : List Kv
  pub tensors : List TensorInfo
  pub data_offset : ℕ

-- `fread` of `n` bytes: all of them, or what is left and the failure. A read of no bytes succeeds
-- everywhere, behind the end of the file too.
unfoldable pub fread : ℕ → List ℕ → ℕ → Option (List ℕ) × ℕ
fread n file pos =
    if (n == 0) || leb (pos + n) (length file)
    then (some (take n (drop pos file)), pos + n)
    else (none, if ltb pos (length file) then length file else pos)

unfoldable pub read_number : ℕ → List ℕ → ℕ → Option ℕ × ℕ
unfolding fread
read_number n file pos = elim (fread n file pos).0 [
  | none ↦ (none, (fread n file pos).1)
  | some bytes ↦ (some (of_bytes bytes), (fread n file pos).1)
]

-- `fseek(fp, (long)v, SEEK_CUR)`, with the new position if it succeeds.
unfoldable pub seek : ℕ → ℕ → Option ℕ
seek v pos =
    if ltb v (2 ^ 63)
    then (if ltb (pos + v) (2 ^ 63) then some (pos + v) else none)
    else (if leb (2 ^ 64) (pos + v) then some (pos + v - 2 ^ 64) else none)

-- The bytes of a value of the type, 0 for those of no fixed size.
unfoldable pub value_size : ℕ → ℕ
value_size t =
    if t == 0 || (t == 1 || t == 7)
    then 1
    else if t == 2 || t == 3
    then 2
    else if t == 4 || (t == 5 || t == 6)
    then 4
    else if t == 10 || (t == 11 || t == 12)
    then 8
    else 0

-- One element of an array; `none` ends the value.
unfoldable pub skip_element : ℕ → List ℕ → ℕ → Option ℕ × ℕ
skip_element et file pos =
    if et == 8
    then elim (read_number 8 file pos).0 [
      | none ↦ (none, (read_number 8 file pos).1)
      | some sl ↦ (seek sl (read_number 8 file pos).1, (read_number 8 file pos).1)
    ]
    else (seek (value_size et) pos, pos)

unfoldable pub skip_elements : ℕ → ℕ → List ℕ → ℕ → ℕ
skip_elements zero et file pos = pos
skip_elements (suc n) et file pos = elim (skip_element et file pos).0 [
  | none ↦ (skip_element et file pos).1
  | some next ↦ skip_elements n et file next
]

unfoldable pub skip_array : List ℕ → ℕ → ℕ
skip_array file pos = elim (read_number 4 file pos).0 [
  | none ↦ (read_number 4 file pos).1
  | some et ↦
      let p = (read_number 4 file pos).1 in
      elim (read_number 8 file p).0 [
        | none ↦ (read_number 8 file p).1
        | some n ↦ skip_elements n et file (read_number 8 file p).1
      ]
]

-- `strcmp` sees a string up to its first zero.
unfoldable pub c_string : List ℕ → List ℕ
c_string [] = []
c_string (c ∷ s) = if c == 0 then [] else c ∷ c_string s

unfoldable pub has_name : Option (List ℕ) → List ℕ → Bool
has_name none name = false
has_name (some s) name = bytes_eq (c_string s) name

-- The dimensions, until one cannot be read.
unfoldable pub read_dims : ℕ → List ℕ → ℕ → List ℕ × ℕ
read_dims zero file pos = ([], pos)
read_dims (suc n) file pos =
    let next = read_number 8 file pos in
    let rest = read_dims n file next.1 in
    elim next.0 [ none ↦ ([], next.1) | some d ↦ (d ∷ rest.0, rest.1) ]

-- What follows the dimensions.
unfoldable pub read_place : List ℕ → TensorInfo → ℕ → TensorInfo × ℕ × Bool
read_place file t pos = elim (read_number 4 file pos).0 [
  | none ↦ (t, (read_number 4 file pos).1, false)
  | some ty ↦
      let p = (read_number 4 file pos).1 in
      elim (read_number 8 file p).0 [
        | none ↦ (record t { type = ty }, (read_number 8 file p).1, false)
        | some offset ↦ (record t { type = ty; offset = offset }, (read_number 8 file p).1, true)
      ]
]

module _ (alloc : ℕ → Bool) where
  -- A length of eight bytes, `malloc` of one byte more, and the string.
  unfoldable pub read_string : List ℕ → ℕ → Option (List ℕ) × ℕ
  read_string file pos = elim (read_number 8 file pos).0 [
    | none ↦ (none, (read_number 8 file pos).1)
    | some n ↦
        if alloc ((n + 1) % 2 ^ 64)
        then fread n file (read_number 8 file pos).1
        else (none, (read_number 8 file pos).1)
  ]

  -- The value of the type, and the position behind it. A value that cannot be read is left zero, and the
  -- bytes of an unknown type are not skipped.
  unfoldable pub read_value : ℕ → List ℕ → ℕ → (ℕ × Option (List ℕ)) × ℕ
  read_value t file pos =
      if t == 8
      then ((0, (read_string file pos).0), (read_string file pos).1)
      else if t == 9
      then ((0, none), skip_array file pos)
      else if value_size t == 0
      then ((0, none), pos)
      else elim (read_number (value_size t) file pos).0 [
        | none ↦ ((0, none), (read_number (value_size t) file pos).1)
        | some v ↦ (
          (if t == 7 then (if v == 0 then 0 else 1) else v, none),
          (read_number (value_size t) file pos).1,
        )
      ]

  -- One round of the loop over the metadata; the last component says whether it goes on.
  unfoldable pub read_kv : List ℕ → ℕ → Kv × ℕ × Bool
  read_kv file pos = elim (read_string file pos).0 [
    | none ↦
        (record { key = none; type = 0; number = 0; str = none }, (read_string file pos).1, false)
    | some key ↦
        let p = (read_string file pos).1 in
        elim (read_number 4 file p).0 [
          | none ↦ (
            record { key = some key; type = 0; number = 0; str = none },
            (read_number 4 file p).1,
            false,
          )
          | some t ↦
              let value = read_value t file (read_number 4 file p).1 in
              (
                record { key = some key; type = t % 256; number = value.0.0; str = value.0.1 },
                value.1,
                true,
              )
        ]
  ]

  unfoldable pub read_kvs : ℕ → List ℕ → ℕ → List Kv × ℕ
  read_kvs zero file pos = ([], pos)
  read_kvs (suc n) file pos =
      let (kv, next, goes_on) = read_kv file pos in
      let rest = read_kvs n file next in if goes_on then (kv ∷ rest.0, rest.1) else (kv ∷ [], next)

  unfoldable pub read_tensor_info : List ℕ → ℕ → TensorInfo × ℕ × Bool
  read_tensor_info file pos = elim (read_string file pos).0 [
    | none ↦ (
      record { name = none; n_dims = 0; dims = []; type = 0; offset = 0 },
      (read_string file pos).1,
      false,
    )
    | some name ↦
        let p = (read_string file pos).1 in
        elim (read_number 4 file p).0 [
          | none ↦ (
            record { name = some name; n_dims = 0; dims = []; type = 0; offset = 0 },
            (read_number 4 file p).1,
            false,
          )
          | some n ↦
              let n_dims = if ltb 4 n then 4 else n in
              let dims = read_dims n_dims file (read_number 4 file p).1 in
              read_place file
                (record { name = some name; n_dims = n_dims; dims = dims.0; type = 0; offset = 0 })
                dims.1
        ]
  ]

  unfoldable pub read_tensor_infos : ℕ → List ℕ → ℕ → List TensorInfo × ℕ
  read_tensor_infos zero file pos = ([], pos)
  read_tensor_infos (suc n) file pos =
      let (t, next, goes_on) = read_tensor_info file pos in
      let rest = read_tensor_infos n file next in
      if goes_on then (t ∷ rest.0, rest.1) else (t ∷ [], next)

unfoldable pub find_kv : List Kv → List ℕ → Option Kv
find_kv [] key = none
find_kv (kv ∷ kvs) key = if has_name kv.key key then some kv else find_kv kvs key

-- "general.alignment".
abbrev pub alignment_key : List ℕ
alignment_key =
    103 ∷ 101 ∷ 110 ∷ 101 ∷ 114 ∷ 97 ∷ 108 ∷ 46 ∷ 97 ∷ 108 ∷ 105 ∷ 103 ∷ 110 ∷ 109 ∷ 101 ∷ 110 ∷ 116
    ∷ []

unfoldable pub alignment : List Kv → ℕ
alignment kvs = elim (find_kv kvs alignment_key) [
  | none ↦ 32
  | some kv ↦ if kv.type == 4 then (if kv.number == 0 then 32 else kv.number) else 32
]

unfoldable pub align_up : ℕ → ℕ → ℕ
align_up align pos = if pos % align == 0 then pos else pos + (align - pos % align)

module _ (alloc alloc_kv alloc_tensors : ℕ → Bool) where
  -- The file behind the header.
  unfoldable pub read_body : List ℕ → ℕ → ℕ → ℕ → Option Gguf
  read_body file version n_tensors n_kv =
      if not (alloc_kv n_kv)
      then none
      else if not (alloc_tensors n_tensors)
      then none
      else let kvs = read_kvs alloc n_kv file 24 in
        let infos = read_tensor_infos alloc n_tensors file kvs.1 in
        some (record {
          file = file;
          version = version;
          n_tensors = n_tensors;
          n_kv = n_kv;
          kv = kvs.0;
          tensors = infos.0;
          data_offset = align_up (alignment kvs.0) infos.1;
        })

  -- `none` is a file that cannot be opened. The magic number is "GGUF".
  unfoldable pub gguf_open : Option (List ℕ) → Option Gguf
  gguf_open none = none
  gguf_open (some file) =
      if ltb (length file) 24
      then none
      else if not (of_bytes (take 4 file) == 0x46554747)
      then none
      else let version = of_bytes (take 4 (drop 4 file)) in
        if ltb version 1 || ltb 3 version
        then none
        else read_body file version (of_bytes (take 8 (drop 8 file)))
            (of_bytes (take 8 (drop 16 file)))
