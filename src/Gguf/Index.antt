-- ===== src/Gguf/Index.antt =====
-- Lookups in an opened file, reads of tensors and the parameters of the model.
use cautreo.Gguf.{Kv, Gguf, TensorInfo, find_kv, has_name, fread, c_string}
use cautreo.Base.{
  ℕ, none, some, [], ◌∷◌, ◌+◌, ◌-◌, ◌%◌, ◌^◌, if◌then◌else◌, List, ltb, Option, not, ◌++◌, ◌==◌,
  ◌||◌,
}

-- `(int64_t)` of a signed number of `w` bits.
unfoldable pub sign_extend : ℕ → ℕ → ℕ
sign_extend w v = if ltb v (2 ^ (w - 1)) then v else v + 2 ^ 64 - 2 ^ w

-- The value by its type, as the 64 bits of an `int64_t`.
unfoldable pub kv_int : Kv → Option ℕ
kv_int kv =
    if kv.type == 0
      || (kv.type == 2 || (kv.type == 4 || (kv.type == 7 || (kv.type == 10 || kv.type == 11))))
    then some kv.number
    else if kv.type == 1
    then some (sign_extend 8 kv.number)
    else if kv.type == 3
    then some (sign_extend 16 kv.number)
    else if kv.type == 5
    then some (sign_extend 32 kv.number)
    else none

unfoldable pub get_int : Gguf → List ℕ → ℕ → ℕ
get_int g key def = elim (find_kv g.kv key) [
  | none ↦ def
  | some kv ↦ elim (kv_int kv) [ none ↦ def | some v ↦ v ]
]

unfoldable pub get_string : Gguf → List ℕ → Option (List ℕ) → Option (List ℕ)
get_string g key def = elim (find_kv g.kv key) [
  | none ↦ def
  | some kv ↦
      if kv.type == 8 then (elim kv.str [ none ↦ def | some s ↦ some (c_string s) ]) else def
]

-- `float32` and `float64` are what the bits stand for, and `narrow` is `(float)` of a double.
unfoldable pub get_float : {F D : Type 0} → (ℕ → F) → (ℕ → D) → (D → F) → Gguf → List ℕ → F → F
get_float float32 float64 narrow g key def = elim (find_kv g.kv key) [
  | none ↦ def
  | some kv ↦
      if kv.type == 6
      then float32 kv.number
      else if kv.type == 12
      then narrow (float64 kv.number)
      else def
]

unfoldable pub find_tensor : List TensorInfo → List ℕ → Option TensorInfo
find_tensor [] name = none
find_tensor (t ∷ ts) name = if has_name t.name name then some t else find_tensor ts name

-- The sum is a `uint64_t`, and `fseeko` refuses a negative position.
unfoldable pub read_from : Gguf → TensorInfo → ℕ → ℕ → Option (List ℕ)
read_from g t size byte_offset =
    let pos = (g.data_offset + t.offset + byte_offset) % 2 ^ 64 in
    if ltb pos (2 ^ 63) then (fread size g.file pos).0 else none

unfoldable pub read_tensor_at : Gguf → List ℕ → ℕ → ℕ → Option (List ℕ)
read_tensor_at g name size byte_offset = elim (find_tensor g.tensors name) [
  | none ↦ none
  | some t ↦ read_from g t size byte_offset
]

unfoldable pub read_tensor : Gguf → List ℕ → ℕ → Option (List ℕ)
read_tensor g name size = read_tensor_at g name size 0

-- The value under the first of three keys at which it is not zero, as a `uint32_t`; the last value if it is zero
-- at all.
unfoldable pub first_of : Gguf → List ℕ → List ℕ → List ℕ → ℕ
first_of g a b c =
    let va = get_int g a 0 % 2 ^ 32 in
    let vb = get_int g b 0 % 2 ^ 32 in
    if not (va == 0) then va else if not (vb == 0) then vb else get_int g c 0 % 2 ^ 32

-- The keys are texts: `suffix` follows the name of the architecture and a dot.
abbrev pub deepseek4 : List ℕ
deepseek4 = 100 ∷ 101 ∷ 101 ∷ 112 ∷ 115 ∷ 101 ∷ 101 ∷ 107 ∷ 52 ∷ 46 ∷ []

abbrev pub deepseek2 : List ℕ
deepseek2 = 100 ∷ 101 ∷ 101 ∷ 112 ∷ 115 ∷ 101 ∷ 101 ∷ 107 ∷ 50 ∷ 46 ∷ []

abbrev pub llama : List ℕ
llama = 108 ∷ 108 ∷ 97 ∷ 109 ∷ 97 ∷ 46 ∷ []

unfoldable pub model_param : Gguf → List ℕ → ℕ
model_param g suffix = first_of g (deepseek4 ++ suffix) (deepseek2 ++ suffix) (llama ++ suffix)

-- "block_count".
unfoldable pub gguf_n_layers : Gguf → ℕ
gguf_n_layers g = model_param g (98 ∷ 108 ∷ 111 ∷ 99 ∷ 107 ∷ 95 ∷ 99 ∷ 111 ∷ 117 ∷ 110 ∷ 116 ∷ [])

-- "embedding_length".
unfoldable pub gguf_n_embd : Gguf → ℕ
gguf_n_embd g = model_param g (
    101 ∷ 109 ∷ 98 ∷ 101 ∷ 100 ∷ 100 ∷ 105 ∷ 110 ∷ 103 ∷ 95 ∷ 108 ∷ 101 ∷ 110 ∷ 103 ∷ 116 ∷ 104
    ∷ [])

-- "attention.head_count".
unfoldable pub gguf_n_head : Gguf → ℕ
gguf_n_head g = model_param g (
    97 ∷ 116 ∷ 116 ∷ 101 ∷ 110 ∷ 116 ∷ 105 ∷ 111 ∷ 110 ∷ 46 ∷ 104 ∷ 101 ∷ 97 ∷ 100 ∷ 95 ∷ 99 ∷ 111
    ∷ 117 ∷ 110 ∷ 116 ∷ [])

-- "attention.head_count_kv".
unfoldable pub gguf_n_head_kv : Gguf → ℕ
gguf_n_head_kv g = model_param g (
    97 ∷ 116 ∷ 116 ∷ 101 ∷ 110 ∷ 116 ∷ 105 ∷ 111 ∷ 110 ∷ 46 ∷ 104 ∷ 101 ∷ 97 ∷ 100 ∷ 95 ∷ 99 ∷ 111
    ∷ 117 ∷ 110 ∷ 116 ∷ 95 ∷ 107 ∷ 118 ∷ [])

-- "context_length".
unfoldable pub gguf_n_ctx : Gguf → ℕ
gguf_n_ctx g =
    model_param g
      (99 ∷ 111 ∷ 110 ∷ 116 ∷ 101 ∷ 120 ∷ 116 ∷ 95 ∷ 108 ∷ 101 ∷ 110 ∷ 103 ∷ 116 ∷ 104 ∷ [])

-- "expert_count".
unfoldable pub gguf_n_experts : Gguf → ℕ
gguf_n_experts g =
    model_param g (101 ∷ 120 ∷ 112 ∷ 101 ∷ 114 ∷ 116 ∷ 95 ∷ 99 ∷ 111 ∷ 117 ∷ 110 ∷ 116 ∷ [])
