-- ===== src/KvCache/Access.antt =====
-- The invariant of the cache, and what can be read after an append.
use cautreo.Base.{
  ℕ, ◌^◌, ◌≤◌, ◌<◌, ◌≡◌, ◌≢◌, ◌↔◌, ◌⊎◌, true, false, Option, none, some, List, length, take, arith,
}
use cautreo.KvCache.{KvCache, kv_stride, kv_append, kv_get}
use cautreo.KvCache.Rows.{Holds, length-write_row, read_row-write_row_self, read_row-write_row_ne}

pub record Inv {F : Type 0} (c : KvCache F) : Type 0 where
  pub keys : Holds c.cfg (length c.k)
  pub values : Holds c.cfg (length c.v)
  pub tokens : c.n_tokens ≤ c.cfg.max_ctx
  pub context : c.cfg.max_ctx < 2 ^ 32

module _ {F : Type 0} (c : KvCache F) (l t : ℕ) where
  -- The cache after an append within the bounds.
  abbrev pub appended : List F → List F → KvCache F
  appended k v = (kv_append c l t (some k) (some v)).0

  -- An append, refused or not, keeps the arrays as large as the configuration says and the number of
  -- tokens within the context.
  pub kv_append-Inv : (k v : Option (List F)) → Inv c → Inv (kv_append c l t k v).0
  unfolding kv_append
  kv_append-Inv none v inv = inv
  kv_append-Inv (some k) none inv = inv
  kv_append-Inv (some k) (some v) inv = record {
    keys = ground (arith, inv.keys, length-write_row c.cfg l t k c.k);
    values = ground (arith, inv.values, length-write_row c.cfg l t v c.v);
    tokens = ground (arith, inv.tokens, inv.context);
    context = ground (arith, inv.context);
  }

  -- An append of two rows succeeds exactly when the layer and the position are within the bounds, and
  -- a refused one changes nothing.
  pub kv_append_refused :
      (k v : List F)
      → (((kv_append c l t (some k) (some v)).1 ≡ true)
          ↔ ((l < c.cfg.n_layers) × (t < c.cfg.max_ctx)))
        × ((kv_append c l t (some k) (some v)).1 ≡ false → appended k v ≡ c)
  unfolding kv_append
  kv_append_refused k v = ((λ h. ground arith, λ h. ground arith), λ h. ground arith)

  module _ (inv : Inv c) (in_l : l < c.cfg.n_layers) (in_t : t < c.cfg.max_ctx) (k v : List F)
      (wide_k : kv_stride c.cfg ≤ length k) (wide_v : kv_stride c.cfg ≤ length v) where
    -- In a valid cache an append within the bounds, of rows that are wide enough, succeeds; its row is
    -- read back, and every other row that could be read before is read as before.
    pub kv_get-append :
        ((kv_append c l t (some k) (some v)).1 ≡ true)
        × (kv_get (appended k v) l t ≡ some (take (kv_stride c.cfg) k, take (kv_stride c.cfg) v))
        × ((l' t' : ℕ)
            → l' < c.cfg.n_layers
            → t' < c.n_tokens
            → (l ≢ l') ⊎ (t ≢ t')
            → kv_get (appended k v) l' t' ≡ kv_get c l' t')
    unfolding kv_append kv_get
    kv_get-append = (
      ground arith,
      ground (
        arith,
        inv.context,
        read_row-write_row_self c.cfg l t c.k inv.keys in_l in_t k wide_k,
        read_row-write_row_self c.cfg l t c.v inv.values in_l in_t v wide_v,
      ),
      λ l' t' in_l' in_t' other.
          let fits : t' < c.cfg.max_ctx = omega (arith, inv.tokens) in
          ground (
            arith,
            inv.context,
            read_row-write_row_ne c.cfg l t c.k inv.keys in_l in_t l' t' k wide_k in_l' fits other,
            read_row-write_row_ne c.cfg l t c.v inv.values in_l in_t l' t' v wide_v in_l' fits
                other,
          ),
    )
