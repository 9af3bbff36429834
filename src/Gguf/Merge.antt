-- ===== src/Gguf/Merge.antt =====
-- A read through the merged index against a search of one part after the other.
use cautreo.Gguf.Index.{find_tensor, read_from}
use cautreo.Gguf.Split.{
  split_read_tensor_at, split_read_loop, split_of, SplitEntry, part_entries, merge_loop,
}
use cautreo.Gguf.{Gguf, TensorInfo}
use cautreo.Base.{
  ℕ, suc, none, some, [], ◌∷◌, ◌+◌, refl, ap, ◌∙◌, arith, List, Option, ◌≡◌, map, get_elem?, ◌++◌,
}

-- The first part that has the tensor, and what a read of it there gives.
abbrev pub read_first : List (Option Gguf) → List ℕ → ℕ → ℕ → Option (List ℕ)
read_first [] name size byte_offset = none
read_first (none ∷ ps) name size byte_offset = read_first ps name size byte_offset
read_first (some g ∷ ps) name size byte_offset = elim (find_tensor g.tensors name) [
  | none ↦ read_first ps name size byte_offset
  | some t ↦ read_from g t size byte_offset
]

abbrev find_first : List (Option Gguf) → List ℕ → Option TensorInfo
find_first [] name = none
find_first (none ∷ ps) name = find_first ps name
find_first (some g ∷ ps) name = elim (find_tensor g.tensors name) [
  | none ↦ find_first ps name
  | some t ↦ some t
]

module _ (name : List ℕ) (size byte_offset : ℕ) (all : List (Option Gguf)) where
  abbrev run_merged : List (SplitEntry × TensorInfo) → Option (List ℕ)
  unfolding split_read_loop
  run_merged m =
      split_read_loop all (map (λ (e : SplitEntry × TensorInfo). e.0) m)
        (map (λ (e : SplitEntry × TensorInfo). e.1) m) name size byte_offset

  run-part_entries :
      (i j : ℕ) (g : Gguf) (ts : List TensorInfo) (m : List (SplitEntry × TensorInfo))
      → get_elem? all i ≡ some (some g)
      → run_merged (part_entries i j ts ++ m) ≡ (elim (find_tensor ts name) [
        | none ↦ run_merged m
        | some t ↦ read_from g t size byte_offset
      ])
  unfolding run_merged split_read_loop part_entries find_tensor
  run-part_entries i j g [] m h = refl
  run-part_entries i j g (t ∷ ts) m h = ground (arith, h, run-part_entries i (j + 1) g ts m h)

  run-merge_loop :
      (i : ℕ) (ps : List (Option Gguf))
      → ((k : ℕ) → get_elem? all (i + k) ≡ get_elem? ps k)
      → run_merged (merge_loop i ps) ≡ read_first ps name size byte_offset
  unfolding run_merged split_read_loop merge_loop
  run-merge_loop i [] here = refl
  run-merge_loop i (none ∷ ps) here =
      run-merge_loop (i + 1) ps (λ k. ap (get_elem? all) (omega arith) ∙ here (suc k))
  run-merge_loop i (some g ∷ ps) here =
      run-part_entries i 0 g g.tensors (merge_loop (i + 1) ps)
        (ap (get_elem? all) (omega arith) ∙ here 0)
      ∙ ground
          (arith, run-merge_loop (i + 1) ps (λ k. ap (get_elem? all) (omega arith) ∙ here (suc k)))

-- A read through the merged index gives, for any parts, missing ones included, any name, size and offset, what a search through the parts in order gives: the
-- read from the first part that has a tensor of the name, or the failure if none has.
pub split_read_tensor_at-read_first :
    (parts : List (Option Gguf)) (name : List ℕ) (size byte_offset : ℕ)
    → split_read_tensor_at (split_of parts) name size byte_offset
      ≡ read_first parts name size byte_offset
unfolding split_read_tensor_at split_of run_merged
split_read_tensor_at-read_first parts name size byte_offset =
    run-merge_loop name size byte_offset parts 0 parts (λ k. ap (get_elem? parts) (omega arith))
