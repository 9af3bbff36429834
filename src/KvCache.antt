-- ===== src/KvCache.antt =====
-- kv_cache/kv_cache.c: keys and values of each layer and token position, in two flat arrays.
-- Floats are an abstract type. `malloc` and `calloc` succeed. A pointer argument that may be null is
-- an `Option`; the cache handle is not null. Array sizes are `size_t`, so they wrap at 2^64.
pub mod Rows
pub mod Access
pub mod Compress
pub mod Checkpoint
mod Tests
use cautreo.Base.{
  ℕ, zero, suc, ◌+◌, ◌-◌, ◌*◌, ◌%◌, ◌^◌, ◌≤◌, ◌<◌, Bool, true, false, not, ◌&&◌, ◌||◌, Option, none,
  some, List, [], ◌∷◌, ◌++◌, length, take, drop, replicate, ltb, leb, ◌==◌, if◌then◌else◌, inc64,
}
use cautreo.Base.Blocks.{slice, splice, put}
use cautreo.Base.Float.{FloatOps}

pub record KvConfig (F : Type 0) : Type 0 where
  pub n_layers : ℕ
  pub n_kv_heads : ℕ
  pub head_dim : ℕ
  pub max_ctx : ℕ
  pub compress_ratio : F

pub record KvCache (F : Type 0) : Type 0 where
  pub cfg : KvConfig F
  pub k : List F
  pub v : List F
  pub n_tokens : ℕ
  pub n_compressed : ℕ
  pub n_appends : ℕ
  pub n_reads : ℕ

-- `uint32_t step = (uint32_t)ratio; if (step < 2) step = 2;`
unfoldable pub compress_step : ℕ → ℕ
compress_step ratio = if ltb ratio 2 then 2 else ratio

module _ {F : Type 0} where
  unfoldable pub kv_stride : KvConfig F → ℕ
  kv_stride cfg = cfg.n_kv_heads * cfg.head_dim % 2 ^ 64

  -- `n_layers * max_ctx * stride`, the number of floats in each array.
  unfoldable pub kv_total : KvConfig F → ℕ
  kv_total cfg = cfg.n_layers * cfg.max_ctx * kv_stride cfg % 2 ^ 64

  -- `layer * max_ctx * stride + token_pos * stride`.
  unfoldable pub kv_offset : KvConfig F → ℕ → ℕ → ℕ
  kv_offset cfg layer token_pos =
      (layer * cfg.max_ctx * kv_stride cfg + token_pos * kv_stride cfg) % 2 ^ 64

  -- `memcpy` of one row of `stride` floats, to an array and from it.
  unfoldable pub write_row : KvConfig F → ℕ → ℕ → List F → List F → List F
  write_row cfg layer token_pos row array =
      splice (kv_offset cfg layer token_pos) (take (kv_stride cfg) row) array

  unfoldable pub read_row : KvConfig F → ℕ → ℕ → List F → List F
  read_row cfg layer token_pos array = slice (kv_offset cfg layer token_pos) (kv_stride cfg) array

  unfoldable pub kv_append :
      KvCache F → ℕ → ℕ → Option (List F) → Option (List F) → KvCache F × Bool
  kv_append c layer token_pos (some k) (some v) =
      if leb c.cfg.n_layers layer
      then (c, false)
      else if leb c.cfg.max_ctx token_pos
      then (c, false)
      else (
        record c {
          k = write_row c.cfg layer token_pos k c.k;
          v = write_row c.cfg layer token_pos v c.v;
          n_tokens = if leb c.n_tokens token_pos then (token_pos + 1) % 2 ^ 32 else c.n_tokens;
          n_appends = inc64 c.n_appends;
        },
        true,
      )
  kv_append c layer token_pos _ _ = (c, false)

  -- `none` is the result false; both output buffers are given.
  unfoldable pub kv_get : KvCache F → ℕ → ℕ → Option (List F × List F)
  kv_get c layer token_pos =
      if leb c.cfg.n_layers layer || leb c.n_tokens token_pos
      then none
      else some (read_row c.cfg layer token_pos c.k, read_row c.cfg layer token_pos c.v)

  unfoldable pub kv_reset : KvCache F → KvCache F
  kv_reset c = record c { n_tokens = 0; n_compressed = 0 }

  -- The inner loop of the compression: the row at `src` of every layer goes to `dst`. `memmove`
  -- reads all of the row before it writes.
  unfoldable pub move_rows : KvConfig F → ℕ → ℕ → ℕ → List F → List F
  move_rows cfg zero src dst array = array
  move_rows cfg (suc layers) src dst array =
      let before = move_rows cfg layers src dst array in
      write_row cfg layers dst (read_row cfg layers src before) before

  -- `for (t = 0; t < n_tokens; t += step)` with the counter `new_len`; as long as `t`
  -- does not wrap each round raises it, so `n_tokens` rounds are enough. The two arrays are moved alike, one by one.
  unfoldable pub compress_loop : ℕ → KvConfig F → ℕ → ℕ → ℕ → ℕ → List F → ℕ × List F
  compress_loop zero cfg step n_tokens t new_len array = (new_len, array)
  compress_loop (suc fuel) cfg step n_tokens t new_len array =
      let next =
        compress_loop fuel cfg step n_tokens ((t + step) % 2 ^ 32) (new_len + 1)
          (if t == new_len then array else move_rows cfg cfg.n_layers t new_len array) in
      if ltb t n_tokens then next else (new_len, array)

  -- `le_one` is `ratio <= 1.0f` and `ratio` the conversion of the float to `uint32_t`.
  unfoldable pub kv_compress : KvCache F → Bool → ℕ → KvCache F × Bool
  kv_compress c le_one ratio =
      let (new_len, k) = compress_loop c.n_tokens c.cfg (compress_step ratio) c.n_tokens 0 0 c.k in
      let (_, v) = compress_loop c.n_tokens c.cfg (compress_step ratio) c.n_tokens 0 0 c.v in
      if le_one || ltb c.n_tokens 2 then (c, false) else (
        record c {
          k = k;
          v = v;
          n_compressed = (c.n_compressed + (c.n_tokens - new_len)) % 2 ^ 32;
          n_tokens = new_len;
        },
        true,
      )

  unfoldable pub kv_bytes_used : KvCache F → ℕ
  kv_bytes_used c = c.n_tokens * c.cfg.n_layers * kv_stride c.cfg * 4 * 2 % 2 ^ 64

-- `ct_kv_create`: defaults for a missing context length and a missing ratio.
module _ (fl : FloatOps) where
  open fl use {F, lit, eq}

  unfoldable pub kv_defaults : Option (KvConfig F) → KvConfig F
  kv_defaults none = record {
    n_layers = 0;
    n_kv_heads = 0;
    head_dim = 0;
    max_ctx = 2048;
    compress_ratio = lit 1 0;
  }
  kv_defaults (some cfg) = record cfg {
    max_ctx = if cfg.max_ctx == 0 then 2048 else cfg.max_ctx;
    compress_ratio = if eq cfg.compress_ratio (lit 0 0) then lit 1 0 else cfg.compress_ratio;
  }

  unfoldable pub kv_create : Option (KvConfig F) → KvCache F
  kv_create given =
      let cfg = kv_defaults given in
      let floats = if kv_total cfg == 0 then 1 else kv_total cfg in
      record {
        cfg = cfg;
        k = replicate floats (lit 0 0);
        v = replicate floats (lit 0 0);
        n_tokens = 0;
        n_compressed = 0;
        n_appends = 0;
        n_reads = 0;
      }
