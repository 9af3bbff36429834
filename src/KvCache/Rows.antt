-- ===== src/KvCache/Rows.antt =====
-- Rows of the flat arrays: one for each layer and token position, none overlapping another.
use native.Mathlib.Decide.{dec_lt}
use cautreo.Base.{
  ℕ, ◌+◌, ◌*◌, ◌^◌, ◌≤◌, ◌<◌, ◌≡◌, ap, ◌≢◌, ◌⊎◌, inl, inr, List, length, take, length-take, arith,
}
use cautreo.Base.Blocks.{length-splice, slice-splice_block, slice-splice_other, length-slice_block}
use cautreo.KvCache.{KvConfig, kv_stride, kv_offset, write_row, read_row}

-- The arrays are as long as the configuration says, and that number does not wrap.
pub record Holds {F : Type 0} (cfg : KvConfig F) (size : ℕ) : Type 0 where
  pub in_memory : cfg.n_layers * cfg.max_ctx * kv_stride cfg < 2 ^ 64
  pub allocated : cfg.n_layers * cfg.max_ctx * kv_stride cfg ≤ size

row_below : (l t n m : ℕ) → l < n → t < m → l * m + t < n * m
row_below l t n m p q = grind arith

row_times : (l t m s : ℕ) → (l * m + t) * s ≡ l * m * s + t * s
row_times l t m s = omega arith

row_le : (r rows s : ℕ) → r < rows → r * s ≤ rows * s
row_le r rows s h = grind arith

same_layer : (l t l' t' m : ℕ) → t < m → t' < m → l * m + t ≡ l' * m + t' → l ≡ l'
same_layer l t l' t' m p q e = elim (dec_lt l l') [
  | yes h ↦ absurd (omega (arith, row_below l t l' m h p))
  | no h ↦ elim (dec_lt l' l) [
    | yes h' ↦ absurd (omega (arith, row_below l' t' l m h' q))
    | no h' ↦ omega arith
  ]
]

row_injective : (l t l' t' m : ℕ) → t < m → t' < m → (l ≢ l') ⊎ (t ≢ t') → l * m + t ≢ l' * m + t'
row_injective l t l' t' m p q (inl h) e = h (same_layer l t l' t' m p q e)
row_injective l t l' t' m p q (inr h) e =
    h (omega (arith, ap (λ (x : ℕ). x * m) (same_layer l t l' t' m p q e)))

module _ {F : Type 0} (cfg : KvConfig F) where
  open cfg use {n_layers, max_ctx}

  pub kv_offset-row :
      (l t : ℕ)
      → cfg.n_layers * cfg.max_ctx * kv_stride cfg < 2 ^ 64
      → l < n_layers
      → t < max_ctx
      → kv_offset cfg l t ≡ (l * max_ctx + t) * kv_stride cfg
  unfolding kv_offset
  kv_offset-row l t small p q = omega (
    arith,
    row_times l t max_ctx (kv_stride cfg),
    row_le (l * max_ctx + t) (n_layers * max_ctx) (kv_stride cfg)
        (row_below l t n_layers max_ctx p q),
  )

  pub length-write_row :
      (l t : ℕ) (row array : List F) → length (write_row cfg l t row array) ≡ length array
  unfolding write_row
  length-write_row l t row array = length-splice _ _ array

  module _ (l t : ℕ) (array : List F) (held : Holds cfg (length array)) (in_l : l < n_layers)
      (in_t : t < max_ctx) where
    -- A row that is written is read back.
    pub read_row-write_row_self :
        (row : List F)
        → kv_stride cfg ≤ length row
        → read_row cfg l t (write_row cfg l t row array) ≡ take (kv_stride cfg) row
    unfolding read_row write_row
    read_row-write_row_self row h = rw (kv_offset-row l t held.in_memory in_l in_t) (
        slice-splice_block (kv_stride cfg) (n_layers * max_ctx) (l * max_ctx + t) _ array
          (omega (arith, length-take (kv_stride cfg) row))
          (row_below l t n_layers max_ctx in_l in_t) held.allocated)

    pub length-read_row : length (read_row cfg l t array) ≡ kv_stride cfg
    unfolding read_row
    length-read_row = rw (kv_offset-row l t held.in_memory in_l in_t) (
        length-slice_block (kv_stride cfg) (n_layers * max_ctx) (l * max_ctx + t) array
          (row_below l t n_layers max_ctx in_l in_t) held.allocated)

    -- No other row is touched.
    pub read_row-write_row_ne :
        (l' t' : ℕ) (row : List F)
        → kv_stride cfg ≤ length row
        → l' < n_layers
        → t' < max_ctx
        → (l ≢ l') ⊎ (t ≢ t')
        → read_row cfg l' t' (write_row cfg l t row array) ≡ read_row cfg l' t' array
    unfolding read_row write_row
    read_row-write_row_ne l' t' row h in_l' in_t' other =
        rw
          (
            kv_offset-row l t held.in_memory in_l in_t,
            kv_offset-row l' t' held.in_memory in_l' in_t',
          )
          (slice-splice_other (kv_stride cfg) (n_layers * max_ctx) (l * max_ctx + t)
            (l' * max_ctx + t') _ array (omega (arith, length-take (kv_stride cfg) row))
            (row_injective l t l' t' max_ctx in_t in_t' other))
