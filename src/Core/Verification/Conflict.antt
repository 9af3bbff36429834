-- ===== src/Core/Verification/Conflict.antt =====
-- When two pieces of evidence are in conflict.
use cautreo.Base.{◌≡◌, ◌⊎◌, inl, inr, ◌↔◌, true, some, arith}
use cautreo.Core.Contracts.{
  is_accept, is_reject, EvidenceDecision, ev_accept, ev_reject, ev_downgrade, ev_request_retest,
  ev_request_independent, ev_escalate, EvidencePacket,
}
use cautreo.Core.Verification.{conflict_evidence_evidence, opposed, detect_conflict}

abbrev pub Opposed : EvidenceDecision → EvidenceDecision → Type 0
Opposed a b = ((a ≡ ev_accept) × (b ≡ ev_reject)) ⊎ ((a ≡ ev_reject) × (b ≡ ev_accept))

is_accept_lem : (d : EvidenceDecision) → (is_accept d ≡ true) ↔ (d ≡ ev_accept)
unfolding is_accept
is_accept_lem ev_accept = ground arith
is_accept_lem ev_reject = ground arith
is_accept_lem ev_downgrade = ground arith
is_accept_lem ev_request_retest = ground arith
is_accept_lem ev_request_independent = ground arith
is_accept_lem ev_escalate = ground arith

is_reject_lem : (d : EvidenceDecision) → (is_reject d ≡ true) ↔ (d ≡ ev_reject)
unfolding is_reject
is_reject_lem ev_accept = ground arith
is_reject_lem ev_reject = ground arith
is_reject_lem ev_downgrade = ground arith
is_reject_lem ev_request_retest = ground arith
is_reject_lem ev_request_independent = ground arith
is_reject_lem ev_escalate = ground arith

opposed-Opposed : (a b : EvidenceDecision) → (opposed a b ≡ true) ↔ Opposed a b
unfolding opposed
opposed-Opposed a b =
    let (p, p') = is_accept_lem a in
    let (q, q') = is_reject_lem a in
    let (r, r') = is_accept_lem b in
    let (s, s') = is_reject_lem b in
    (
      λ h. ground arith,
      λ h. elim h [
        | inl (x, y) ↦ ground (arith, p' x, s' y)
        | inr (x, y) ↦ ground (arith, q' x, r' y)
      ],
    )

opposed_comm : (a b : EvidenceDecision) → opposed a b ≡ opposed b a
unfolding opposed
opposed_comm a b = ground arith

module _ {F : Type 0} (a b : EvidencePacket F) where
  -- Two pieces of evidence are in conflict exactly when they are about one hypothesis and one of them
  -- accepts it while the other rejects it; the order of the two does not matter.
  pub detect_conflict-Opposed :
      ((detect_conflict (some a) (some b) ≡ conflict_evidence_evidence)
        ↔ ((a.hypothesis_id ≡ b.hypothesis_id) × Opposed a.decision b.decision))
      × (detect_conflict (some a) (some b) ≡ detect_conflict (some b) (some a))
  unfolding detect_conflict
  detect_conflict-Opposed =
      let (to, from) = opposed-Opposed a.decision b.decision in
      let comm = opposed_comm a.decision b.decision in
      (
        (λ h. (ground arith, to (ground arith)), λ (same, h). let o = from h in ground arith),
        ground arith,
      )
