-- ===== src/Speculative.antt =====
-- speculative/speculative.c: draft tokens are proposed, and the main model accepts a prefix of them.
-- A context handle is not null. The draft is the placeholder of the source: tokens 1, 2, … with the
-- confidence 0.8; the hidden state is not used.
pub mod Prefix
mod Tests
use cautreo.Base.{
  ℕ, zero, suc, ◌+◌, ◌-◌, ◌%◌, ◌^◌, Bool, true, false, ◌&&◌, Option, none, some, List, [], ◌∷◌,
  length, replicate, ltb, ◌==◌, if◌then◌else◌, inc64,
}
use cautreo.Base.Float.{FloatOps}

pub record SpecConfig (F : Type 0) : Type 0 where
  pub max_draft_tokens : ℕ
  pub confidence_threshold : F
  pub strict : Bool

pub record SpecStats (F : Type 0) : Type 0 where
  pub n_drafts : ℕ
  pub n_accepted : ℕ
  pub n_rejected : ℕ
  pub acceptance_rate : F
  pub n_verification_passes : ℕ

pub record SpecContext (F : Type 0) : Type 0 where
  pub cfg : SpecConfig F
  pub stats : SpecStats F

-- `n_tokens` is the length of both arrays. A token is the bit pattern of an `int32_t`.
pub record SpecDraft (F : Type 0) : Type 0 where
  pub tokens : List ℕ
  pub confidences : List F
  pub n_tokens : ℕ

-- `draft->tokens[i] = (int32_t)(i + 1)` for `n` rounds from `i` on.
unfoldable pub draft_tokens : ℕ → ℕ → List ℕ
draft_tokens zero i = []
draft_tokens (suc n) i = ((i + 1) % 2 ^ 32) ∷ draft_tokens n (i + 1)

module _ (fl : FloatOps) where
  open fl use {F, lit, add, div, le, eq, of_ℕ}

  unfoldable pub spec_create : Option (SpecConfig F) → SpecContext F
  spec_create given = record {
    cfg = config given;
    stats = record {
      n_drafts = 0;
      n_accepted = 0;
      n_rejected = 0;
      acceptance_rate = lit 0 0;
      n_verification_passes = 0;
    };
  }
    where
      defaults : SpecConfig F → SpecConfig F
      defaults cfg = record {
        max_draft_tokens = if cfg.max_draft_tokens == 0 then 5 else cfg.max_draft_tokens;
        confidence_threshold =
            if eq cfg.confidence_threshold (lit 0 0) then lit 7 1 else cfg.confidence_threshold;
        strict = cfg.strict;
      }

      config : Option (SpecConfig F) → SpecConfig F
      config none =
          defaults (record { max_draft_tokens = 0; confidence_threshold = lit 0 0; strict = false })
      config (some cfg) = defaults cfg

  -- `none` is the result false; the draft buffer is given.
  unfoldable pub spec_draft : SpecContext F → SpecContext F × Option (SpecDraft F)
  spec_draft ctx =
      let n = ctx.cfg.max_draft_tokens in
      if ctx.cfg.strict then (ctx, none) else (
        record ctx { stats = record (ctx.stats) { n_drafts = inc64 ctx.stats.n_drafts } },
        some (record {
          tokens = draft_tokens n 0;
          confidences = replicate n (lit 8 1);
          n_tokens = n;
        }),
      )

  -- The loop over `i < limit`, with its `break`; an array that ends earlier ends the loop.
  unfoldable pub accept_loop : ℕ → F → List ℕ → List F → List ℕ → ℕ → ℕ
  accept_loop zero threshold ts cs gs accepted = accepted
  accept_loop (suc n) threshold (t ∷ ts) (c ∷ cs) (g ∷ gs) accepted =
      let next = accept_loop n threshold ts cs gs (accepted + 1) in
      if le threshold c && (t == g) then next else accepted
  accept_loop (suc n) threshold _ _ _ accepted = accepted

  unfoldable pub record_pass : SpecContext F → ℕ → ℕ → SpecStats F
  record_pass ctx n_tokens accepted =
      let a = (ctx.stats.n_accepted + accepted) % 2 ^ 64 in
      let r = (ctx.stats.n_rejected + (n_tokens - accepted)) % 2 ^ 64 in
      record {
        n_drafts = ctx.stats.n_drafts;
        n_accepted = a;
        n_rejected = r;
        acceptance_rate =
            if ltb 0 ctx.stats.n_drafts
            then div (of_ℕ a) (of_ℕ ((a + r) % 2 ^ 64))
            else ctx.stats.acceptance_rate;
        n_verification_passes = inc64 ctx.stats.n_verification_passes;
      }

  -- `n_target` is the length of the target array.
  unfoldable pub spec_verify :
      SpecContext F → Option (SpecDraft F) → Option (List ℕ) → SpecContext F × ℕ
  spec_verify ctx none target = (ctx, 0)
  spec_verify ctx (some draft) none = (ctx, 0)
  spec_verify ctx (some draft) (some target) =
      let limit = if ltb draft.n_tokens (length target) then draft.n_tokens else length target in
      let accepted =
        accept_loop limit ctx.cfg.confidence_threshold draft.tokens draft.confidences target 0 in
      (record ctx { stats = record_pass ctx draft.n_tokens accepted }, accepted)
