-- ===== src/KvCache/Checkpoint.antt =====
-- kv_cache/kv_cache.c: saving a cache to a file and loading it. The header is kept as the fields that
-- `fwrite` puts out, `none` where the file ends before; the body is a list of floats. Files open.
use cautreo.Base.{
  ℕ, ◌<◌, ◌≡◌, refl, ap, Bool, true, false, Option, none, some, List, [], ◌∷◌, ◌++◌, length, take,
  drop, take_all, take-append_length, drop-append_length, arith, ◌≢◌,
}
use cautreo.Base.Blocks.{put}
use cautreo.KvCache.{KvConfig, KvCache, kv_total, kv_get}

pub record CheckpointFile (F : Type 0) : Type 0 where
  pub cfg : Option (KvConfig F)
  pub n_tokens : Option ℕ
  pub n_compressed : Option ℕ
  pub floats : List F

module _ {F : Type 0} where
  unfoldable pub kv_save : KvCache F → CheckpointFile F
  kv_save c = record {
    cfg = some c.cfg;
    n_tokens = some c.n_tokens;
    n_compressed = some c.n_compressed;
    floats = take (kv_total c.cfg) c.k ++ take (kv_total c.cfg) c.v;
  }

  -- The reads of the body are unchecked: what is there goes to the front of the arrays. The size is
  -- that of the cache; the configuration in the file is read and not used.
  unfoldable pub load_body : KvCache F → List F → KvCache F
  load_body c floats = record c {
    k = put (take (kv_total c.cfg) floats) c.k;
    v = put (take (kv_total c.cfg) (drop (kv_total c.cfg) floats)) c.v;
  }

  load_compressed : KvCache F → Option ℕ → List F → KvCache F × Bool
  load_compressed c none floats = (c, false)
  load_compressed c (some n) floats = (load_body (record c { n_compressed = n }) floats, true)

  load_tokens : KvCache F → Option ℕ → Option ℕ → List F → KvCache F × Bool
  unfolding load_compressed
  load_tokens c none n floats = (c, false)
  load_tokens c (some t) n floats = load_compressed (record c { n_tokens = t }) n floats

  load_config : KvCache F → Option (KvConfig F) → Option ℕ → Option ℕ → List F → KvCache F × Bool
  unfolding load_tokens
  load_config c none t n floats = (c, false)
  load_config c (some cfg) t n floats = load_tokens c t n floats

  unfoldable pub kv_load : KvCache F → CheckpointFile F → KvCache F × Bool
  unfolding load_config load_body
  kv_load c file = load_config c file.cfg file.n_tokens file.n_compressed file.floats

  put_all : (xs ys : List F) → length xs ≡ length ys → put xs ys ≡ xs
  unfolding put
  put_all [] [] h = refl
  put_all [] (y ∷ ys) h = absurd (omega arith)
  put_all (x ∷ xs) [] h = absurd (omega arith)
  put_all (x ∷ xs) (y ∷ ys) h = ap (◌∷◌ x) (put_all xs ys (omega arith))

  -- Loading what a cache of the same configuration saved succeeds and gives its arrays and its two
  -- token counts back, if the arrays of both have the size that the configuration says.
  pub kv_load-kv_save :
      (c d : KvCache F)
      → d.cfg ≡ c.cfg
      → length c.k ≡ kv_total c.cfg
      → length c.v ≡ kv_total c.cfg
      → length d.k ≡ kv_total c.cfg
      → length d.v ≡ kv_total c.cfg
      → kv_load d (kv_save c) ≡ (
        record d { k = c.k; v = c.v; n_tokens = c.n_tokens; n_compressed = c.n_compressed },
        true,
      )
  unfolding kv_load kv_save
  kv_load-kv_save c d e ck cv dk dv =
      let n = kv_total c.cfg in
      ground (
        arith,
        take_all c.k n (omega arith),
        take_all c.v n (omega arith),
        front,
        back,
        put_all c.k d.k (omega arith),
        put_all c.v d.v (omega arith),
      )
    where
      front : take (kv_total c.cfg) (c.k ++ c.v) ≡ c.k
      front = rw (← ck) (take-append_length c.k c.v)

      back : drop (kv_total c.cfg) (c.k ++ c.v) ≡ c.v
      back = rw (← ck) (drop-append_length c.k c.v)

  -- The configuration in the file is not compared: a complete checkpoint with more tokens than the
  -- cache has room for is accepted, and the cache, if it has a layer, then serves a position beyond
  -- its context.
  pub kv_load_overfull :
      (d : KvCache F) (file : CheckpointFile F) (cfg : KvConfig F) (t n : ℕ)
      → file.cfg ≡ some cfg
      → file.n_tokens ≡ some t
      → file.n_compressed ≡ some n
      → d.cfg.max_ctx < t
      → 0 < d.cfg.n_layers
      → let (e, loaded) = kv_load d file in
        (loaded ≡ true) × (e.cfg ≡ d.cfg) × (kv_get e 0 d.cfg.max_ctx ≢ none)
  unfolding kv_load kv_get
  kv_load_overfull d file cfg t n p q r big layers = (ground arith, ground arith, λ h. ground arith)
