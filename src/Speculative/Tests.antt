-- ===== src/Speculative/Tests.antt =====
-- The theorems about speculative decoding at a draft of three tokens, with fixed-point confidences.
use cautreo.Base.{ℕ, ◌≡◌, ◌≤◌, ◌↔◌, refl, false, some, List, [], ◌∷◌, length}
use cautreo.Base.Fixed.{fixed}
use cautreo.Speculative.{SpecContext, SpecDraft, spec_verify, accept_loop}
use cautreo.Speculative.Prefix.{Agree, verified, spec_verify-longest}

-- The target agrees in two places.
abbrev target : List ℕ
target = 1 ∷ 2 ∷ 7 ∷ []

abbrev context : SpecContext ℕ
context = record {
  cfg = record { max_draft_tokens = 3; confidence_threshold = 1007; strict = false };
  stats = record {
    n_drafts = 1;
    n_accepted = 0;
    n_rejected = 0;
    acceptance_rate = 1000;
    n_verification_passes = 0;
  };
}

abbrev drafted : SpecDraft ℕ
drafted = record { tokens = 1 ∷ 2 ∷ 3 ∷ []; confidences = 1008 ∷ 1008 ∷ 1008 ∷ []; n_tokens = 3 }

accepts_two : (spec_verify fixed context (some drafted) (some target)).1 ≡ 2
unfolding spec_verify accept_loop
accepts_two = refl

spec_verify-longest_example :
    (verified fixed context drafted target).1 ≤ 3
    × (verified fixed context drafted target).1 ≤ length target
    × ((k : ℕ)
        → k ≤ 3
        → k ≤ length target
        → (k ≤ (verified fixed context drafted target).1)
          ↔ Agree fixed 1007 k (1 ∷ 2 ∷ 3 ∷ []) (1008 ∷ 1008 ∷ 1008 ∷ []) target)
spec_verify-longest_example = spec_verify-longest fixed context drafted target
