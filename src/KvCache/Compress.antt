-- ===== src/KvCache/Compress.antt =====
-- Compression keeps every `step`-th position of every layer.
use native.Mathlib.Decide.{dec_lt}
use cautreo.Base.{
  ℕ, zero, suc, ◌+◌, ◌-◌, ◌*◌, ◌%◌, ◌^◌, ◌≤◌, ◌<◌, ◌≡◌, refl, sym, ◌∙◌, ◌≢◌, inl, inr, false, List,
  length, take_all, ltb, ◌==◌, if◌then◌else◌, Bool-cases, arith,
}
use cautreo.KvCache.{
  KvConfig, KvCache, kv_stride, read_row, move_rows, compress_loop, compress_step, kv_compress,
  kv_get,
}
use cautreo.KvCache.Rows.{
  Holds, length-write_row, length-read_row, read_row-write_row_self, read_row-write_row_ne,
}
use cautreo.KvCache.Access.{Inv}

le_times : (n s : ℕ) → 1 ≤ s → n ≤ n * s
le_times n s h = grind arith

module _ {F : Type 0} (cfg : KvConfig F) where
  length-move_rows :
      (n src dst : ℕ) (array : List F) → length (move_rows cfg n src dst array) ≡ length array
  unfolding move_rows
  length-move_rows zero src dst array = refl
  length-move_rows (suc n) src dst array =
      length-write_row cfg n dst _ _ ∙ length-move_rows n src dst array

  module _ (src dst : ℕ) (array : List F) (held : Holds cfg (length array))
      (in_src : src < cfg.max_ctx) (in_dst : dst < cfg.max_ctx) (other : src ≢ dst) where
    moved_held : (n : ℕ) → Holds cfg (length (move_rows cfg n src dst array))
    moved_held n = rw (length-move_rows n src dst array) held

    row_wide :
        (n : ℕ)
        → n < cfg.n_layers
        → kv_stride cfg ≤ length (read_row cfg n src (move_rows cfg n src dst array))
    row_wide n h = omega (arith, length-read_row cfg n src _ (moved_held n) h in_src)

    -- Positions other than the target stay as they are.
    move_rows-other :
        (n l t : ℕ)
        → n ≤ cfg.n_layers
        → l < cfg.n_layers
        → t < cfg.max_ctx
        → t ≢ dst
        → read_row cfg l t (move_rows cfg n src dst array) ≡ read_row cfg l t array
    unfolding move_rows
    move_rows-other zero l t b p q ne = refl
    move_rows-other (suc n) l t b p q ne =
        read_row-write_row_ne cfg n dst _ (moved_held n) (omega arith) in_dst l t _
          (row_wide n (omega arith)) p q (inr (λ e. ne (sym e)))
        ∙ move_rows-other n l t (omega arith) p q ne

    -- At the target stands the source's row, in every layer.
    move_rows-target :
        (n l : ℕ)
        → n ≤ cfg.n_layers
        → l < n
        → read_row cfg l dst (move_rows cfg n src dst array) ≡ read_row cfg l src array
    unfolding move_rows
    move_rows-target zero l b p = absurd (omega arith)
    move_rows-target (suc n) l b p = elim (dec_lt l n) [
      | yes h ↦
          read_row-write_row_ne cfg n dst _ (moved_held n) (omega arith) in_dst l dst _
            (row_wide n (omega arith)) (omega arith) in_dst (inl (omega arith))
          ∙ move_rows-target n l (omega arith) h
      | no h ↦
          let same : n ≡ l = omega arith in
          rw (← same) (
            read_row-write_row_self cfg n dst _ (moved_held n) (omega arith) in_dst _
              (row_wide n (omega arith))
            ∙ (take_all _ _
                  (omega (arith, length-read_row cfg n src _ (moved_held n) (omega arith) in_src))
                ∙ move_rows-other n n src (omega arith) (omega arith) in_src other))
    ]

  -- What the loop has done when it returns `r`, from `new` kept rows on.
  pub record Kept (step n_tokens new : ℕ) (array : List F) (r : ℕ × List F) : Type 0 where
    pub grows : new ≤ r.0
    pub reaches : n_tokens ≤ r.0 * step
    pub within : (j : ℕ) → new ≤ j → j < r.0 → j * step < n_tokens
    pub before :
        (l j : ℕ) → l < cfg.n_layers → j < new → read_row cfg l j r.1 ≡ read_row cfg l j array
    pub moved :
        (l j : ℕ)
        → l < cfg.n_layers
        → new ≤ j
        → j < r.0
        → read_row cfg l j r.1 ≡ read_row cfg l (j * step) array
    pub size : length r.1 ≡ length array

  -- The array after the body of one round.
  round : ℕ → ℕ → List F → List F
  round t new array = if t == new then array else move_rows cfg cfg.n_layers t new array

  module _ (t new : ℕ) (array : List F) (held : Holds cfg (length array)) (in_t : t < cfg.max_ctx)
      (le : new ≤ t) where
    length-round : length (round t new array) ≡ length array
    unfolding round
    length-round = ground (arith, length-move_rows cfg.n_layers t new array)

    round-target :
        (l : ℕ) → l < cfg.n_layers → read_row cfg l new (round t new array) ≡ read_row cfg l t array
    unfolding round
    round-target l h = elim (Bool-cases (t == new)) [
      | inl e ↦ let same : t ≡ new = ground arith in rw (e, same)
      | inr e ↦ rw e (
          move_rows-target t new array held in_t (omega arith) (ground arith) cfg.n_layers l
            (omega arith) h)
    ]

    round-other :
        (l j : ℕ)
        → l < cfg.n_layers
        → j < cfg.max_ctx
        → j ≢ new
        → read_row cfg l j (round t new array) ≡ read_row cfg l j array
    unfolding round
    round-other l j h q ne = elim (Bool-cases (t == new)) [
      | inl e ↦ rw e
      | inr e ↦ rw e (
          move_rows-other t new array held in_t (omega arith) (ground arith) cfg.n_layers l j
            (omega arith) h q ne)
    ]

  module _ (step n_tokens : ℕ) (forward : 1 ≤ step) (bound : n_tokens ≤ cfg.max_ctx)
      (no_wrap : n_tokens + step ≤ 2 ^ 32) where
    Kept-round :
        (t new : ℕ) (array : List F) (r : ℕ × List F)
        → t ≡ new * step
        → t < n_tokens
        → Holds cfg (length array)
        → Kept step n_tokens (new + 1) (round t new array) r
        → Kept step n_tokens new array r
    Kept-round t new array r e more held k = record {
      grows = omega (arith, k.grows);
      reaches = k.reaches;
      within = λ j a b. elim (dec_lt new j) [
        | yes h ↦ k.within j (omega arith) b
        | no h ↦ let same : j ≡ new = omega arith in rw same (omega arith)
      ];
      before = λ l j a b.
          k.before l j a (omega arith)
          ∙ round-other t new array held in_t low l j a (omega (arith, low)) (omega arith);
      moved = λ l j a b d. elim (dec_lt new j) [
        | yes h ↦
            k.moved l j a (omega arith) d
            ∙ round-other t new array held in_t low l (j * step) a
                (omega (arith, k.within j (omega arith) d)) (omega (arith, le_times j step forward))
        | no h ↦
            let same : j ≡ new = omega arith in
            rw (same, ← e)
              (k.before l new a (omega arith) ∙ round-target t new array held in_t low l a)
      ];
      size = k.size ∙ length-round t new array held in_t low;
    }
      where
        in_t : t < cfg.max_ctx
        in_t = omega arith

        low : new ≤ t
        low = omega (arith, le_times new step forward)

    pub compress_loop-Kept :
        (fuel t new : ℕ) (array : List F)
        → t ≡ new * step
        → n_tokens ≤ fuel + t
        → Holds cfg (length array)
        → Kept step n_tokens new array (compress_loop fuel cfg step n_tokens t new array)
    unfolding compress_loop round
    compress_loop-Kept zero t new array e f held = record {
      grows = omega arith;
      reaches = omega arith;
      within = λ j a b. absurd (omega arith);
      before = λ l j a b. refl;
      moved = λ l j a b d. absurd (omega arith);
      size = refl;
    }
    compress_loop-Kept (suc fuel) t new array e f held = elim (Bool-cases (ltb t n_tokens)) [
      | inr done ↦ rw done (record {
        grows = omega arith;
        reaches = ground arith;
        within = λ j a b. absurd (omega arith);
        before = λ l j a b. refl;
        moved = λ l j a b d. absurd (omega arith);
        size = refl;
      })
      | inl more ↦
          let below : t < n_tokens = ground arith in
          let next : (t + step) % 2 ^ 32 ≡ t + step = omega arith in
          rw (more, next)
            (Kept-round t new array _ e below held (
              compress_loop-Kept fuel (t + step) (new + 1) (round t new array) (omega arith)
                (omega arith)
                (rw
                  (length-round t new array held (omega arith)
                    (omega (arith, le_times new step forward)))
                  held)))
    ]

-- The two arrays are cut to the same number of rows.
compress_loop-len :
    {F : Type 0} (cfg : KvConfig F) (step n_tokens fuel t new : ℕ) (a b : List F)
    → (compress_loop fuel cfg step n_tokens t new a).0
      ≡ (compress_loop fuel cfg step n_tokens t new b).0
unfolding compress_loop round
compress_loop-len cfg step n_tokens zero t new a b = refl
compress_loop-len cfg step n_tokens (suc fuel) t new a b = ground (
  arith,
  compress_loop-len cfg step n_tokens fuel ((t + step) % 2 ^ 32) (new + 1) (round cfg t new a)
      (round cfg t new b),
)

module _ {F : Type 0} (c : KvCache F) (ratio : ℕ) where
  abbrev pub compressed : KvCache F
  compressed = (kv_compress c false ratio).0

  loop_of : List F → ℕ × List F
  loop_of array = compress_loop c.n_tokens c.cfg (compress_step ratio) c.n_tokens 0 0 array

  compressed-eq :
      2 ≤ c.n_tokens
      → compressed ≡ record c {
        k = (loop_of c.k).1;
        v = (loop_of c.v).1;
        n_compressed = (c.n_compressed + (c.n_tokens - (loop_of c.k).0)) % 2 ^ 32;
        n_tokens = (loop_of c.k).0;
      }
  unfolding kv_compress loop_of
  compressed-eq h = ground arith

  step_forward : 1 ≤ compress_step ratio
  unfolding compress_step
  step_forward = ground arith

  -- In a valid cache, where the loop counter cannot wrap, a compression of two tokens or more by a
  -- ratio above one keeps every `step`-th position, where
  -- `step` is the ratio without its fraction and at least 2: position `j` then holds in every layer
  -- what stood at `j * step`, as many positions are left as multiples of `step` lie below the old
  -- number of tokens, and the dropped ones are counted.
  pub kv_compress_lem :
      Inv c
      → 2 ≤ c.n_tokens
      → c.n_tokens + compress_step ratio ≤ 2 ^ 32
      → let step = compress_step ratio in
        let n = compressed.n_tokens in
        (c.n_tokens ≤ n * step)
        × ((l j : ℕ)
            → l < c.cfg.n_layers
            → j < n
            → (j * step < c.n_tokens) × (kv_get compressed l j ≡ kv_get c l (j * step)))
        × (compressed.n_compressed ≡ (c.n_compressed + (c.n_tokens - n)) % 2 ^ 32)
  unfolding kv_get loop_of
  kv_compress_lem inv some_tokens no_wrap =
      let kept_k = kept c.k inv.keys in
      let kept_v = kept c.v inv.values in
      let same : (loop_of c.k).0 ≡ (loop_of c.v).0 =
        compress_loop-len c.cfg (compress_step ratio) c.n_tokens c.n_tokens 0 0 c.k c.v in
      rw (compressed-eq some_tokens) (
        kept_k.reaches,
        λ l j in_l in_j. (
          kept_k.within j (omega arith) in_j,
          ground (
            arith,
            kept_k.within j (omega arith) in_j,
            kept_k.moved l j in_l (omega arith) in_j,
            kept_v.moved l j in_l (omega arith) (rw (← same) in_j),
          ),
        ),
        refl,
      )
    where
      kept :
          (array : List F)
          → Holds c.cfg (length array)
          → Kept c.cfg (compress_step ratio) c.n_tokens 0 array (loop_of array)
      kept array held =
          compress_loop-Kept c.cfg (compress_step ratio) c.n_tokens step_forward inv.tokens no_wrap
            c.n_tokens 0 0 array (omega arith) (omega arith) held
