-- ===== src/Core/Verification.antt =====
-- core/verification/verification.c: the six layers that a piece of evidence passes.
-- A null evidence is `none`. The funnel and the population are not used by `funnel_verify`; the
-- funnel that `funnel_score` makes is given.
pub mod Decision
pub mod Conflict
mod Tests
use cautreo.Base.{ℕ, Bool, true, false, not, ◌&&◌, ◌||◌, Option, none, some, ◌==◌, if◌then◌else◌}
use cautreo.Base.Float.{FloatOps}
use cautreo.Core.Contracts.{
  is_accept, is_reject, EvidenceDecision, ev_accept, ev_reject, ev_downgrade, ev_request_retest,
  EvidencePacket, has_text, outside_unit, evidence_packet_valid,
}

pub data ConflictType : Type 0 where
  conflict_none conflict_hyp_evidence conflict_evidence_evidence conflict_assumption
        conflict_temporal :
      ConflictType

-- The texts that `reason` is set to, one constructor for each.
pub data Reason : Type 0 where
  structural_failed constraint_failed missing_provenance accepted rejected needs_retest : Reason

pub record VerificationResult (F : Type 0) : Type 0 where
  pub decision : EvidenceDecision
  pub valid_structure : Bool
  pub constraints_satisfied : Bool
  pub provenance_ok : Bool
  pub reproducible : Bool
  pub independence_group : ℕ
  pub conflict : ConflictType
  pub reason : Reason
  pub score : F

pub record Funnel (F : Type 0) : Type 0 where
  pub w_spectral : F
  pub w_coherence : F
  pub w_support : F
  pub w_constraint : F
  pub w_contradiction : F
  pub w_cost : F

-- Layer 6.
unfoldable pub decide : EvidenceDecision → EvidenceDecision × Reason
decide ev_accept = (ev_accept, accepted)
decide ev_reject = (ev_reject, rejected)
decide _ = (ev_request_retest, needs_retest)

-- One decides for the hypothesis and the other against it.
unfoldable pub opposed : EvidenceDecision → EvidenceDecision → Bool
opposed a b = (is_accept a && is_reject b) || (is_reject a && is_accept b)

unfoldable pub detect_conflict :
    {F : Type 0} → Option (EvidencePacket F) → Option (EvidencePacket F) → ConflictType
detect_conflict none b = conflict_none
detect_conflict (some a) none = conflict_none
detect_conflict (some a) (some b) =
    if not (a.hypothesis_id == b.hypothesis_id)
    then conflict_none
    else if opposed a.decision b.decision
    then conflict_evidence_evidence
    else conflict_none

unfoldable pub are_independent :
    {F : Type 0} → Option (EvidencePacket F) → Option (EvidencePacket F) → Bool
are_independent none b = true
are_independent (some a) none = true
are_independent (some a) (some b) = not (a.independence_group == b.independence_group)

unfoldable pub provenance : {F : Type 0} → Option (EvidencePacket F) → Bool
provenance none = false
provenance (some e) = has_text e.method

module _ (fl : FloatOps) where
  open fl use {F, lit, add, sub, mul}

  unfoldable pub funnel_create : Funnel F
  funnel_create = record {
    w_spectral = lit 2 1;
    w_coherence = lit 2 1;
    w_support = lit 3 1;
    w_constraint = lit 2 1;
    w_contradiction = lit 2 1;
    w_cost = lit 1 1;
  }

  unfoldable pub structural : Option (EvidencePacket F) → Bool
  structural e = evidence_packet_valid fl e

  unfoldable pub constraint : Option (EvidencePacket F) → Bool
  constraint none = false
  constraint (some e) = not (outside_unit fl e.strength) && not (outside_unit fl e.reliability)

  unfoldable pub score_of : EvidencePacket F → F → F
  unfolding funnel_create is_reject
  score_of e spectral_mass =
      let f = funnel_create in
      let base =
        add (add (mul f.w_spectral spectral_mass) (mul f.w_support e.strength))
          (mul f.w_constraint e.reliability) in
      let against =
        if is_reject e.decision then sub base (mul f.w_contradiction e.strength) else base in
      if not e.reproducible then sub against f.w_cost else against

  unfoldable pub funnel_score : Option (EvidencePacket F) → F → F
  funnel_score none spectral_mass = lit 0 0
  funnel_score (some e) spectral_mass = score_of e spectral_mass

  -- The result after `= {0}`, whose decision is 0, that is ACCEPT; no text is set yet, and every
  -- return sets one, so that it is an argument.
  unfoldable pub failed : EvidenceDecision → Reason → VerificationResult F
  failed d why = record {
    decision = d;
    valid_structure = false;
    constraints_satisfied = false;
    provenance_ok = false;
    reproducible = false;
    independence_group = 0;
    conflict = conflict_none;
    reason = why;
    score = lit 0 0;
  }

  unfoldable pub funnel_verify : Option (EvidencePacket F) → VerificationResult F
  unfolding failed
  -- The first layer rejects a null evidence.
  funnel_verify none = failed ev_reject structural_failed
  funnel_verify (some e) =
      if not (structural (some e))
      then failed ev_reject structural_failed
      else if not (constraint (some e))
      then record (failed ev_reject constraint_failed) { valid_structure = true }
      else if not (provenance (some e))
      then record (failed ev_downgrade missing_provenance) {
        valid_structure = true;
        constraints_satisfied = true;
        reproducible = e.reproducible;
      }
      else (record {
        decision = (decide e.decision).0;
        valid_structure = true;
        constraints_satisfied = true;
        provenance_ok = true;
        reproducible = e.reproducible;
        independence_group = e.independence_group;
        conflict = conflict_none;
        reason = (decide e.decision).1;
        score = funnel_score (some e) (lit 5 1);
      })
