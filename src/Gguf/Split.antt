-- ===== src/Gguf/Split.antt =====
-- A model in several files: the merged index of tensors, and reads from the part that a tensor is in.
use cautreo.Gguf.Index.{read_from, find_tensor}
use cautreo.Gguf.{Gguf, TensorInfo, has_name, gguf_open}
use cautreo.Base.{
  ℕ, none, some, [], ◌∷◌, ◌+◌, List, Option, Bool, if◌then◌else◌, ◌++◌, map, get_elem?,
}

pub record SplitEntry : Type 0 where
  pub part_idx : ℕ
  pub tensor_idx : ℕ

-- `none` is a part that could not be opened.
pub record Split : Type 0 where
  pub parts : List (Option Gguf)
  pub entries : List SplitEntry
  pub tensors : List TensorInfo

-- The loop over `j`, for so many tensors from index `j` on; behind the entries that were read the names are null.
unfoldable pub part_entries : ℕ → ℕ → List TensorInfo → List (SplitEntry × TensorInfo)
part_entries part j [] = []
part_entries part j (t ∷ ts) =
    (record { part_idx = part; tensor_idx = j }, t) ∷ part_entries part (j + 1) ts

unfoldable pub merge_loop : ℕ → List (Option Gguf) → List (SplitEntry × TensorInfo)
merge_loop i [] = []
merge_loop i (none ∷ ps) = merge_loop (i + 1) ps
merge_loop i (some g ∷ ps) = part_entries i 0 g.tensors ++ merge_loop (i + 1) ps

unfoldable pub split_of : List (Option Gguf) → Split
split_of parts = record {
  parts = parts;
  entries = map (λ (e : SplitEntry × TensorInfo). e.0) (merge_loop 0 parts);
  tensors = map (λ (e : SplitEntry × TensorInfo). e.1) (merge_loop 0 parts);
}

unfoldable pub split_primary : Split → Option Gguf
split_primary s = elim s.parts [ [] ↦ none | p ∷ ps ↦ p ]

-- The rounds of the loop over the merged tensors.
unfoldable pub split_read_loop :
    List (Option Gguf) → List SplitEntry → List TensorInfo → List ℕ → ℕ → ℕ → Option (List ℕ)
split_read_loop parts [] ts name size byte_offset = none
split_read_loop parts (e ∷ es) [] name size byte_offset = none
split_read_loop parts (e ∷ es) (t ∷ ts) name size byte_offset =
    let rest = split_read_loop parts es ts name size byte_offset in
    if has_name t.name name
    then elim (get_elem? parts e.part_idx) [
      | none ↦ none
      | some part ↦ elim part [ none ↦ none | some g ↦ read_from g t size byte_offset ]
    ]
    else rest

unfoldable pub split_read_tensor_at : Split → List ℕ → ℕ → ℕ → Option (List ℕ)
split_read_tensor_at s name size byte_offset =
    split_read_loop s.parts s.entries s.tensors name size byte_offset

unfoldable pub split_read_tensor : Split → List ℕ → ℕ → Option (List ℕ)
split_read_tensor s name size = split_read_tensor_at s name size 0

unfoldable pub split_find_tensor : Split → List ℕ → Option TensorInfo
split_find_tensor s name = find_tensor s.tensors name

-- The model's parameters are those of the first part, and 0 where it could not be opened.
unfoldable pub split_param : (Gguf → ℕ) → Split → ℕ
split_param param s = elim (split_primary s) [ none ↦ 0 | some g ↦ param g ]

unfoldable pub total_tensors : List (Option Gguf) → ℕ
total_tensors [] = 0
total_tensors (none ∷ ps) = total_tensors ps
total_tensors (some g ∷ ps) = g.n_tensors + total_tensors ps

module _ (alloc alloc_kv alloc_tensors : ℕ → Bool) where
  unfoldable pub open_parts : List (Option (List ℕ)) → List (Option Gguf)
  open_parts [] = []
  open_parts (f ∷ fs) = gguf_open alloc alloc_kv alloc_tensors f ∷ open_parts fs

  -- `alloc_merged` says whether the arrays for so many tensors are given.
  unfoldable pub split_open : (ℕ → Bool) → List (Option (List ℕ)) → Option Split
  split_open alloc_merged [] = none
  split_open alloc_merged (f ∷ fs) =
      let parts = open_parts (f ∷ fs) in
      if alloc_merged (total_tensors parts) then some (split_of parts) else none
