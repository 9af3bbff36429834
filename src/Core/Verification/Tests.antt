-- ===== src/Core/Verification/Tests.antt =====
-- The theorems about the layers of verification at two pieces of evidence.
use cautreo.Base.{ℕ, ◌≡◌, ◌↔◌, true, false, none, some, [], ◌∷◌}
use cautreo.Base.Fixed.{fixed}
use cautreo.Core.Contracts.{EvidencePacket, EvidenceDecision, ev_accept, ev_downgrade, has_text}
use cautreo.Core.Verification.{funnel_verify}
use cautreo.Core.Verification.Decision.{Sound, funnel_verify-Sound}

abbrev packet : EvidenceDecision → EvidencePacket ℕ
packet d = record {
  id = 3;
  hypothesis_id = 8;
  decision = d;
  strength = 1008;
  reliability = 1009;
  independence_group = 1;
  reproducible = true;
  method = some (115 ∷ 109 ∷ 116 ∷ []);
  observations = none;
}

funnel_verify-Sound_example :
    let r = funnel_verify fixed (some (packet ev_accept)) in
    ((r.decision ≡ ev_accept) ↔ (
      Sound fixed (packet ev_accept)
      × (has_text (some (115 ∷ 109 ∷ 116 ∷ [])) ≡ true)
      × (ev_accept ≡ ev_accept)))
    × ((r.decision ≡ ev_downgrade)
        ↔ (Sound fixed (packet ev_accept) × (has_text (some (115 ∷ 109 ∷ 116 ∷ [])) ≡ false)))
    × (r.constraints_satisfied ≡ r.valid_structure)
funnel_verify-Sound_example = funnel_verify-Sound fixed (packet ev_accept)
