-- ===== src/Gguf/Tests.antt =====
-- The theorems about the reader of model files at a small file.
use cautreo.Gguf.Merge.{read_first, split_read_tensor_at-read_first}
use cautreo.Gguf.Model.{gguf_open-model_bytes, align_up_lem}
use cautreo.Gguf.Index.{find_tensor, read_from}
use cautreo.Gguf.Split.{split_read_tensor_at, split_of}
use cautreo.Gguf.{
  align_up, Gguf, alignment_key, value_size, has_name, gguf_open, c_string, fread, alignment,
}
use cautreo.Base.Bytes.{to_bytes, bytes_eq}
use cautreo.Gguf.Writing.{
  Value, Tensor, number, texts, model_bytes, flag, text, kept_kv, numbers, kept_tensor,
}
use cautreo.Base.{
  ℕ, true, none, some, [], ◌∷◌, ◌+◌, ◌++◌, ◌%◌, ◌<◌, ◌≤◌, refl, arith, List, Bool, replicate, ◌≡◌,
  map, length,
}

-- "general.alignment" is 16, and "a" an array of two texts.
abbrev small_kvs : List (List ℕ × Value)
small_kvs =
    (alignment_key, number 4 16)
    ∷ (97 ∷ [], texts ((98 ∷ []) ∷ [] ∷ []))
    ∷ (99 ∷ [], flag true)
    ∷ (100 ∷ [], text (101 ∷ 102 ∷ []))
    ∷ (103 ∷ [], numbers 5 (1 ∷ 2 ∷ []))
    ∷ []

-- "w", of two dimensions.
abbrev small_tensors : List Tensor
small_tensors = record { name = 119 ∷ []; dims = 2 ∷ 3 ∷ []; type = 1; offset = 0 } ∷ []

abbrev small_data : List ℕ
small_data = replicate 40 7

abbrev always : ℕ → Bool
always n = true

gguf_open-model_bytes_example :
    gguf_open always always always (some (model_bytes 3 small_kvs small_tensors ++ small_data))
    ≡ some (record {
      file = model_bytes 3 small_kvs small_tensors ++ small_data;
      version = 3;
      n_tensors = 1;
      n_kv = 5;
      kv = map kept_kv small_kvs;
      tensors = map kept_tensor small_tensors;
      data_offset =
          align_up
            (alignment (map kept_kv small_kvs))
            (length (model_bytes 3 small_kvs small_tensors));
    })
unfolding to_bytes value_size
gguf_open-model_bytes_example =
    gguf_open-model_bytes 3 small_kvs small_tensors small_data (omega arith, omega arith)
      (omega arith) always always always (λ n h. refl) refl refl
      (
        (((λ e. absurd (omega (arith, e))), (λ e. absurd (omega (arith, e)))), omega arith),
        (
          record {},
          (
            record {},
            (
              record {},
              (
                ((λ e. absurd (omega (arith, e))), (omega arith, (omega arith, record {}))),
                record {},
              ),
            ),
          ),
        ),
      )
      ((omega arith, (omega arith, (omega arith, record {})), omega arith, omega arith), record {})

align_up_lem_example :
    (align_up 32 205 % 32 ≡ 0) × (205 ≤ align_up 32 205) × (align_up 32 205 < 205 + 32)
align_up_lem_example = align_up_lem 32 205 (omega arith)

abbrev part : ℕ → ℕ → Gguf
part name fill = record {
  file = replicate 8 fill;
  version = 3;
  n_tensors = 1;
  n_kv = 0;
  kv = [];
  tensors =
      record { name = some (name ∷ []); n_dims = 1; dims = 4 ∷ []; type = 0; offset = 2 } ∷ [];
  data_offset = 1;
}

split_read_tensor_at-read_first_example :
    split_read_tensor_at (split_of (some (part 97 5) ∷ none ∷ some (part 98 6) ∷ [])) (98 ∷ []) 3 1
    ≡ read_first (some (part 97 5) ∷ none ∷ some (part 98 6) ∷ []) (98 ∷ []) 3 1
split_read_tensor_at-read_first_example =
    split_read_tensor_at-read_first (some (part 97 5) ∷ none ∷ some (part 98 6) ∷ []) (98 ∷ []) 3 1

read_first_run :
    read_first (some (part 97 5) ∷ none ∷ some (part 98 6) ∷ []) (98 ∷ []) 3 1
    ≡ some (6 ∷ 6 ∷ 6 ∷ [])
unfolding find_tensor has_name c_string bytes_eq read_from fread
read_first_run = refl
