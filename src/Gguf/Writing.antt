-- ===== src/Gguf/Writing.antt =====
-- The format of a model file: what a writer puts down, and what a reader is to make of it.
use cautreo.Gguf.{Kv, TensorInfo, value_size}
use cautreo.Base.Bytes.{to_bytes}
use cautreo.Base.{
  ℕ, none, some, [], ◌∷◌, ◌++◌, ◌^◌, ◌<◌, ◌≤◌, Bool, List, if◌then◌else◌, Option, length, ◌≢◌,
}

-- A number with its type and bits, a truth value, a text, and arrays of numbers of one type and of texts.
pub data Value : Type 0 where
  number : ℕ → ℕ → Value
  flag : Bool → Value
  text : List ℕ → Value
  numbers : ℕ → List ℕ → Value
  texts : List (List ℕ) → Value

abbrev pub string_bytes : List ℕ → List ℕ
string_bytes s = to_bytes 8 (length s) ++ s

abbrev pub numbers_bytes : ℕ → List ℕ → List ℕ
numbers_bytes size [] = []
numbers_bytes size (v ∷ vs) = to_bytes size v ++ numbers_bytes size vs

abbrev pub texts_bytes : List (List ℕ) → List ℕ
texts_bytes [] = []
texts_bytes (s ∷ ss) = string_bytes s ++ texts_bytes ss

abbrev pub value_type : Value → ℕ
value_type (number t v) = t
value_type (flag b) = 7
value_type (text s) = 8
value_type (numbers t vs) = 9
value_type (texts ss) = 9

abbrev pub value_bytes : Value → List ℕ
value_bytes (number t v) = to_bytes (value_size t) v
value_bytes (flag b) = to_bytes 1 (if b then 1 else 0)
value_bytes (text s) = string_bytes s
value_bytes (numbers t vs) =
    to_bytes 4 t ++ (to_bytes 8 (length vs) ++ numbers_bytes (value_size t) vs)
value_bytes (texts ss) = to_bytes 4 8 ++ (to_bytes 8 (length ss) ++ texts_bytes ss)

abbrev pub pair_bytes : List ℕ × Value → List ℕ
pair_bytes (key, v) = string_bytes key ++ (to_bytes 4 (value_type v) ++ value_bytes v)

abbrev pub pairs_bytes : List (List ℕ × Value) → List ℕ
pairs_bytes [] = []
pairs_bytes (kv ∷ kvs) = pair_bytes kv ++ pairs_bytes kvs

pub record Tensor : Type 0 where
  pub name : List ℕ
  pub dims : List ℕ
  pub type : ℕ
  pub offset : ℕ

abbrev pub tensor_bytes : Tensor → List ℕ
tensor_bytes t =
    string_bytes t.name
    ++ (to_bytes 4 (length t.dims)
        ++ (numbers_bytes 8 t.dims ++ (to_bytes 4 t.type ++ to_bytes 8 t.offset)))

abbrev pub tensors_bytes : List Tensor → List ℕ
tensors_bytes [] = []
tensors_bytes (t ∷ ts) = tensor_bytes t ++ tensors_bytes ts

-- The header, the metadata and the index of tensors.
abbrev pub model_bytes : ℕ → List (List ℕ × Value) → List Tensor → List ℕ
model_bytes version kvs ts =
    to_bytes 4 0x46554747
    ++ (to_bytes 4 version
        ++ (to_bytes 8 (length ts)
            ++ (to_bytes 8 (length kvs) ++ (pairs_bytes kvs ++ tensors_bytes ts))))

-- What a reader keeps.
abbrev pub value_number : Value → ℕ
value_number (number t v) = v
value_number (flag b) = if b then 1 else 0
value_number (text s) = 0
value_number (numbers t vs) = 0
value_number (texts ss) = 0

abbrev pub value_str : Value → Option (List ℕ)
value_str (number t v) = none
value_str (flag b) = none
value_str (text s) = some s
value_str (numbers t vs) = none
value_str (texts ss) = none

abbrev pub kept_kv : List ℕ × Value → Kv
kept_kv (key, v) = record {
  key = some key;
  type = value_type v;
  number = value_number v;
  str = value_str v;
}

abbrev pub kept_tensor : Tensor → TensorInfo
kept_tensor t = record {
  name = some t.name;
  n_dims = length t.dims;
  dims = t.dims;
  type = t.type;
  offset = t.offset;
}

-- The numbers fit their size.
abbrev pub Fit : ℕ → List ℕ → Type 0
Fit size [] = Unit
Fit size (v ∷ vs) = (v < 256 ^ size) × Fit size vs

-- A type of a number, but not the one of truth values.
abbrev pub IsNumeric : ℕ → Type 0
IsNumeric t = (value_size t ≢ 0) × (t ≢ 7)

abbrev pub ValueFits : Value → Type 0
ValueFits (number t v) = IsNumeric t × (v < 256 ^ value_size t)
ValueFits (flag b) = Unit
ValueFits (text s) = Unit
ValueFits (numbers t vs) = (value_size t ≢ 0) × Fit (value_size t) vs
ValueFits (texts ss) = Unit

abbrev pub PairsFit : List (List ℕ × Value) → Type 0
PairsFit [] = Unit
PairsFit ((key, v) ∷ kvs) = ValueFits v × PairsFit kvs

abbrev pub TensorFits : Tensor → Type 0
TensorFits t = (length t.dims ≤ 4) × Fit 8 t.dims × (t.type < 2 ^ 32) × (t.offset < 2 ^ 64)

abbrev pub TensorsFit : List Tensor → Type 0
TensorsFit [] = Unit
TensorsFit (t ∷ ts) = TensorFits t × TensorsFit ts
