-- ===== src/KvCache/Tests.antt =====
-- The theorems about the KV cache at small caches, and runs of its operations.
use cautreo.Base.{
  ℕ, ◌<◌, ◌≤◌, ◌*◌, ◌%◌, ◌^◌, ◌+◌, ◌-◌, ◌≡◌, ◌≢◌, ◌⊎◌, refl, true, none, some, [], ◌∷◌, arith,
}
use cautreo.Base.Blocks.{slice, splice, put}
use cautreo.KvCache.{
  KvConfig, KvCache, kv_stride, kv_total, kv_offset, read_row, write_row, move_rows, compress_loop,
  kv_append, kv_get, kv_compress, compress_step,
}
use cautreo.KvCache.Access.{Inv, kv_get-append, appended}
use cautreo.KvCache.Compress.{kv_compress_lem, compressed}
use cautreo.KvCache.Checkpoint.{CheckpointFile, kv_save, kv_load, kv_load-kv_save, kv_load_overfull}

abbrev small_cfg : KvConfig ℕ
small_cfg = record { n_layers = 2; n_kv_heads = 1; head_dim = 2; max_ctx = 3; compress_ratio = 1 }

-- Two layers with three positions of two floats each.
abbrev full : KvCache ℕ
full = record {
  cfg = small_cfg;
  k = 1 ∷ 2 ∷ 3 ∷ 4 ∷ 5 ∷ 6 ∷ 7 ∷ 8 ∷ 9 ∷ 10 ∷ 11 ∷ 12 ∷ [];
  v = 21 ∷ 22 ∷ 23 ∷ 24 ∷ 25 ∷ 26 ∷ 27 ∷ 28 ∷ 29 ∷ 30 ∷ 31 ∷ 32 ∷ [];
  n_tokens = 3;
  n_compressed = 0;
  n_appends = 6;
  n_reads = 0;
}

full-Inv : Inv full
unfolding kv_stride
full-Inv = record {
  keys = omega arith;
  values = omega arith;
  tokens = omega arith;
  context = omega arith;
}

kv_get-append_example :
    ((kv_append full 1 2 (some (70 ∷ 71 ∷ [])) (some (80 ∷ 81 ∷ []))).1 ≡ true)
    × (kv_get (appended full 1 2 (70 ∷ 71 ∷ []) (80 ∷ 81 ∷ [])) 1 2
        ≡ some (70 ∷ 71 ∷ [], 80 ∷ 81 ∷ []))
    × ((l' t' : ℕ)
        → l' < 2
        → t' < 3
        → (◌≢◌ {A = ℕ} 1 l') ⊎ (◌≢◌ {A = ℕ} 2 t')
        → kv_get (appended full 1 2 (70 ∷ 71 ∷ []) (80 ∷ 81 ∷ [])) l' t' ≡ kv_get full l' t')
unfolding kv_stride
kv_get-append_example =
    kv_get-append full 1 2 full-Inv (omega arith) (omega arith) (70 ∷ 71 ∷ []) (80 ∷ 81 ∷ [])
      (omega arith) (omega arith)

kv_compress_lem_example :
    let n = (compressed full 2).n_tokens in
    (3 ≤ n * compress_step 2)
    × ((l j : ℕ)
        → l < 2
        → j < n
        → (j * compress_step 2 < 3)
          × (kv_get (compressed full 2) l j ≡ kv_get full l (j * compress_step 2)))
    × ((compressed full 2).n_compressed ≡ (0 + (3 - n)) % 2 ^ 32)
unfolding compress_step
kv_compress_lem_example = kv_compress_lem full 2 full-Inv (omega arith) (omega arith)

compressed_run : kv_get (compressed full 2) 1 1 ≡ some (11 ∷ 12 ∷ [], 31 ∷ 32 ∷ [])
unfolding kv_compress kv_get read_row write_row move_rows compress_loop kv_offset kv_stride
    compress_step slice splice put
compressed_run = refl

kv_load-kv_save_example : kv_load full (kv_save full) ≡ (full, true)
unfolding kv_total kv_stride
kv_load-kv_save_example = kv_load-kv_save full full refl refl refl refl refl

abbrev overfull : CheckpointFile ℕ
overfull = record {
  cfg = some (record small_cfg { max_ctx = 9 });
  n_tokens = some 7;
  n_compressed = some 0;
  floats = [];
}

kv_load_overfull_example :
    ((kv_load full overfull).1 ≡ true)
    × ((kv_load full overfull).0.cfg ≡ small_cfg)
    × (kv_get (kv_load full overfull).0 0 3 ≢ none)
kv_load_overfull_example =
    kv_load_overfull full overfull (record small_cfg { max_ctx = 9 }) 7 0 refl refl refl
      (omega arith) (omega arith)
