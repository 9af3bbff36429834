-- ===== src/Core/Memory.antt =====
-- core/memory/memory.c: the associative memory, with four layers of patterns.
-- The memory is not null. `count` is the length of a layer's list; a vector is a list of `dim`
-- entries. `sqrt` is that of the C library, and `of_char` the conversion of a `char`, whose sign the
-- platform decides. `grown` tells whether `realloc` gives a larger array, should it be called; the
-- other memory is given.
pub mod Layers
pub mod Recall
pub mod Verified
mod Tests
use cautreo.Base.{
  ℕ, zero, suc, ◌+◌, ◌*◌, ◌%◌, ◌^◌, Bool, true, false, not, ◌&&◌, ◌||◌, Option, none, some, List,
  [], ◌∷◌, ◌++◌, length, get_elem?, set, take, replicate, min, ltb, leb, ◌==◌, if◌then◌else◌,
}
use cautreo.Base.Float.{FloatOps}
use cautreo.Core.Contracts.{
  MemoryLayer, mem_episodic, mem_pattern, mem_rule, mem_counterexample, MemoryRecord,
}

pub record MemoryPattern (F : Type 0) : Type 0 where
  pub input : List F
  pub output : List F
  pub weight : F
  pub confidence : F
  pub dim : ℕ

pub record LayerStore (F : Type 0) : Type 0 where
  pub patterns : List (MemoryPattern F)
  pub capacity : ℕ

pub record Memory (F : Type 0) : Type 0 where
  pub dim : ℕ
  pub episodic : LayerStore F
  pub pattern : LayerStore F
  pub rule : LayerStore F
  pub counterexample : LayerStore F

unfoldable pub initial_capacity : MemoryLayer → ℕ
initial_capacity mem_episodic = 256
initial_capacity mem_pattern = 256
initial_capacity mem_rule = 128
initial_capacity mem_counterexample = 128

module _ {F : Type 0} where
  unfoldable pub layer_create : ℕ → LayerStore F
  layer_create capacity = record {
    patterns = [];
    capacity = if ltb 0 capacity then capacity else 64;
  }

  unfoldable pub layer_add : Bool → LayerStore F → MemoryPattern F → LayerStore F × Bool
  layer_add grown l p =
      if leb l.capacity (length l.patterns)
      then (if grown
          then (
            record { patterns = l.patterns ++ (p ∷ []); capacity = l.capacity * 2 % 2 ^ 64 },
            true,
          )
          else (l, false))
      else (record l { patterns = l.patterns ++ (p ∷ []) }, true)

  unfoldable pub memory_create : ℕ → Option (Memory F)
  unfolding layer_create
  memory_create zero = none
  memory_create (suc d) = some (record {
    dim = suc d;
    episodic = layer_create 256;
    pattern = layer_create 256;
    rule = layer_create 128;
    counterexample = layer_create 128;
  })

  unfoldable pub layer_of : Memory F → MemoryLayer → LayerStore F
  layer_of m mem_episodic = m.episodic
  layer_of m mem_pattern = m.pattern
  layer_of m mem_rule = m.rule
  layer_of m mem_counterexample = m.counterexample

  unfoldable pub with_layer : Memory F → MemoryLayer → LayerStore F → Memory F
  with_layer m mem_episodic l = record m { episodic = l }
  with_layer m mem_pattern l = record m { pattern = l }
  with_layer m mem_rule l = record m { rule = l }
  with_layer m mem_counterexample l = record m { counterexample = l }

  unfoldable pub add_to : Bool → Memory F → MemoryLayer → MemoryPattern F → Memory F × Bool
  add_to grown m layer p =
      let r = layer_add grown (layer_of m layer) p in (with_layer m layer r.0, r.1)

  unfoldable pub memory_write :
      Bool → Memory F → MemoryLayer → Option (MemoryPattern F) → Memory F × Bool
  memory_write grown m layer none = (m, false)
  memory_write grown m layer (some p) =
      if not (p.dim == m.dim) then (m, false) else add_to grown m layer p

  unfoldable pub memory_store_pattern : Bool → Memory F → Option (MemoryPattern F) → Memory F × Bool
  memory_store_pattern grown m p = memory_write grown m mem_pattern p

  unfoldable pub memory_count : Memory F → MemoryLayer → ℕ
  memory_count m layer = length ((layer_of m layer).patterns)

  unfoldable pub memory_clear : Memory F → MemoryLayer → Memory F
  memory_clear m layer = with_layer m layer (layer_create (initial_capacity layer))

  -- The loop of `memory_retrieve_verified` from index `i` on: the array, and `verified`.
  unfoldable pub compact_loop :
      (MemoryPattern F → Bool) → ℕ → ℕ → List (MemoryPattern F) → ℕ → List (MemoryPattern F) × ℕ
  compact_loop keep zero i cs verified = (cs, verified)
  compact_loop keep (suc n) i cs verified = elim (get_elem? cs i) [
    | none ↦ (cs, verified)
    | some c ↦
        if keep c
        then compact_loop keep n (i + 1) (set cs verified c) (verified + 1)
        else compact_loop keep n (i + 1) cs verified
  ]

module _ (fl : FloatOps) where
  open fl use {F, lit, neg, add, sub, mul, div, lt, le}

  unfoldable pub dot_loop : List F → List F → F → F
  dot_loop (x ∷ a) (y ∷ b) s = dot_loop a b (add s (mul x y))
  dot_loop _ _ s = s

  unfoldable pub vec_dot : List F → List F → F
  vec_dot a b = dot_loop a b (lit 0 0)

  -- `-1e9`.
  unfoldable pub lowest : F
  lowest = neg (lit 1000000000 0)

  -- The scan of the scores from index `j` on.
  unfoldable pub best_scan : ℕ → List F → ℕ → F → ℕ × F
  best_scan j [] best best_score = (best, best_score)
  best_scan j (s ∷ ss) best best_score =
      let up = lt best_score s in
      best_scan (j + 1) ss (if up then j else best) (if up then s else best_score)

  -- The indices of the candidates, in at most `n` rounds.
  unfoldable pub recall_loop : ℕ → List F → List ℕ
  recall_loop zero scores = []
  recall_loop (suc n) scores =
      let b = best_scan 0 scores 0 lowest in
      let rest = recall_loop n (set scores b.0 lowest) in
      if lt b.1 (lit 1 2) then [] else b.0 ∷ rest

  unfoldable pub patterns_at : List (MemoryPattern F) → List ℕ → List (MemoryPattern F)
  patterns_at ps [] = []
  patterns_at ps (i ∷ is) = elim (get_elem? ps i) [
    | none ↦ patterns_at ps is
    | some p ↦ p ∷ patterns_at ps is
  ]

  module _ (sqrt : F → F) where
    unfoldable pub vec_norm : List F → F
    vec_norm v = sqrt (vec_dot v v)

    unfoldable pub divided : F → List F → List F
    divided n [] = []
    divided n (x ∷ v) = div x n ∷ divided n v

    unfoldable pub vec_normalize : List F → List F
    vec_normalize v = if lt (lit 1 12) (vec_norm v) then divided (vec_norm v) v else v

    unfoldable pub pattern_score : List F → MemoryPattern F → F
    pattern_score query p =
        let sim = vec_dot query p.input in
        let nq = vec_norm query in
        let np = vec_norm p.input in
        mul (if lt (lit 1 12) nq && lt (lit 1 12) np then div sim (mul nq np) else sim) p.weight

    unfoldable pub pattern_scores : List F → List (MemoryPattern F) → List F
    pattern_scores query [] = []
    pattern_scores query (p ∷ ps) = pattern_score query p ∷ pattern_scores query ps

    -- A null array of candidates is that of length 0; the result is the list of the candidates.
    unfoldable pub memory_recall : Memory F → Option (List F) → ℕ → List (MemoryPattern F)
    memory_recall m none max_candidates = []
    memory_recall m (some query) max_candidates =
        let ps = m.pattern.patterns in
        if not (length query == m.dim) || (max_candidates == 0)
        then []
        else patterns_at ps (recall_loop (min max_candidates (length ps)) (pattern_scores query ps))

    unfoldable pub memory_retrieve_verified :
        Memory F → Option (List F) → ℕ → List (MemoryPattern F)
    memory_retrieve_verified m query max_candidates =
        let cs = memory_recall m query max_candidates in
        let r = compact_loop (λ c. le (lit 3 1) c.confidence) (length cs) 0 cs 0 in take r.1 r.0

    module _ (of_char : ℕ → F) where
      -- `v[i % dim] ±= (double)s[i] / 256.0`, with `combine` for the operation.
      unfoldable pub hash_text : (F → F → F) → ℕ → List ℕ → ℕ → List F → List F
      hash_text combine dim [] i v = v
      hash_text combine dim (c ∷ s) i v = elim (get_elem? v (i % dim)) [
        | none ↦ hash_text combine dim s (i + 1) v
        | some x ↦
            hash_text combine dim s (i + 1)
              (set v (i % dim) (combine x (div (of_char c) (lit 256 0))))
      ]

      unfoldable pub text_or_empty : Option (List ℕ) → List ℕ
      text_or_empty none = []
      text_or_empty (some s) = s

      unfoldable pub signature_pattern : (F → F → F) → Memory F → MemoryRecord F → MemoryPattern F
      signature_pattern combine m r = record {
        input = vec_normalize (
            hash_text combine m.dim (text_or_empty r.problem_signature) 0
              (replicate m.dim (lit 0 0)));
        output = replicate m.dim (lit 0 0);
        weight = r.confidence;
        confidence = r.confidence;
        dim = m.dim;
      }

      unfoldable pub memory_store_episode :
          Bool → Memory F → Option (MemoryRecord F) → Memory F × Bool
      memory_store_episode grown m none = (m, false)
      memory_store_episode grown m (some r) =
          add_to grown m mem_episodic (signature_pattern add m r)

      unfoldable pub memory_store_counterexample :
          Bool → Memory F → Option (MemoryRecord F) → Memory F × Bool
      memory_store_counterexample grown m none = (m, false)
      memory_store_counterexample grown m (some r) =
          add_to grown m mem_counterexample (signature_pattern sub m r)

      unfoldable pub memory_store_rule :
          Bool → Memory F → Option (List ℕ) → Option (List ℕ) → Memory F × Bool
      memory_store_rule grown m none conditions = (m, false)
      memory_store_rule grown m (some rule) conditions = add_to grown m mem_rule (record {
        input = vec_normalize (hash_text add m.dim rule 0 (replicate m.dim (lit 0 0)));
        output =
            vec_normalize
              (hash_text add m.dim (text_or_empty conditions) 0 (replicate m.dim (lit 0 0)));
        weight = lit 1 0;
        confidence = lit 5 1;
        dim = m.dim;
      })
