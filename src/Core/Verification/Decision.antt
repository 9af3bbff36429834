-- ===== src/Core/Verification/Decision.antt =====
-- What the six layers decide.
use cautreo.Base.{
  ◌≡◌, ◌≢◌, refl, ◌⊎◌, inl, inr, ◌↔◌, true, false, some, Bool-cases, arith, sym, ◌∙◌,
}
use cautreo.Base.Float.{FloatOps}
use cautreo.Core.Contracts.{
  EvidenceDecision, ev_accept, ev_reject, ev_downgrade, ev_request_retest, ev_request_independent,
  ev_escalate, EvidencePacket, has_text, outside_unit, evidence_packet_valid,
}
use cautreo.Core.Verification.{structural, constraint, provenance, decide, funnel_verify}

decide_lem :
    (d : EvidenceDecision)
    → (((decide d).0 ≡ ev_accept) ↔ (d ≡ ev_accept)) × ((decide d).0 ≢ ev_downgrade)
unfolding decide
decide_lem ev_accept = ground arith
decide_lem ev_reject = ground arith
decide_lem ev_downgrade = ground arith
decide_lem ev_request_retest = ground arith
decide_lem ev_request_independent = ground arith
decide_lem ev_escalate = ground arith

module _ (fl : FloatOps) (e : EvidencePacket fl.F) where
  open fl use {F, lit, lt}

  -- The evidence has its identifiers, and its numbers are not outside of 0 to 1.
  abbrev pub Sound : Type 0
  Sound =
      (e.id ≢ 0)
      × (e.hypothesis_id ≢ 0)
      × (lt e.strength (lit 0 0) ≡ false)
      × (lt (lit 1 0) e.strength ≡ false)
      × (lt e.reliability (lit 0 0) ≡ false)
      × (lt (lit 1 0) e.reliability ≡ false)

  structural-Sound : (structural fl (some e) ≡ true) ↔ Sound
  unfolding structural evidence_packet_valid outside_unit
  structural-Sound = (
    λ h. (ground arith, ground arith, ground arith, ground arith, ground arith, ground arith),
    λ (a, b, c, d, f, g). ground arith,
  )

  constraint-structural : structural fl (some e) ≡ true → constraint fl (some e) ≡ true
  unfolding structural constraint evidence_packet_valid
  constraint-structural h = ground arith

  -- What the layers before the last do with the evidence.
  funnel_verify-cases :
      let r = funnel_verify fl (some e) in
      ((structural fl (some e) ≡ false)
        × (r.decision ≡ ev_reject)
        × (r.constraints_satisfied ≡ false)
        × (r.valid_structure ≡ false))
      ⊎ ((structural fl (some e) ≡ true)
          × (r.constraints_satisfied ≡ true)
          × (r.valid_structure ≡ true)
          × (((provenance (some e) ≡ false) × (r.decision ≡ ev_downgrade))
              ⊎ ((provenance (some e) ≡ true) × (r.decision ≡ (decide e.decision).0))))
  unfolding funnel_verify
  funnel_verify-cases = elim (Bool-cases (structural fl (some e))) [
    | inr bad ↦ inl (bad, rw bad refl, rw bad refl, rw bad refl)
    | inl good ↦ elim (Bool-cases (provenance (some e))) [
      | inl text ↦
          let ok = constraint-structural good in
          inr (
            good,
            rw (good, ok, text) refl,
            rw (good, ok, text) refl,
            inr (text, rw (good, ok, text) refl),
          )
      | inr no_text ↦
          let ok = constraint-structural good in
          inr (
            good,
            rw (good, ok, no_text) refl,
            rw (good, ok, no_text) refl,
            inl (no_text, rw (good, ok, no_text) refl),
          )
    ]
  ]

  -- The evidence is accepted exactly when it is sound, names a method and votes for acceptance; it is
  -- downgraded exactly when it is sound and names no method; and the second layer never fails what the
  -- first has passed. Whether the evidence is marked reproducible is not asked: with the other conditions it
  -- is accepted without the mark.
  pub funnel_verify-Sound :
      let r = funnel_verify fl (some e) in
      ((r.decision ≡ ev_accept) ↔ (Sound × (has_text e.method ≡ true) × (e.decision ≡ ev_accept)))
      × ((r.decision ≡ ev_downgrade) ↔ (Sound × (has_text e.method ≡ false)))
      × (r.constraints_satisfied ≡ r.valid_structure)
  unfolding provenance
  funnel_verify-Sound =
      let (to, from) = structural-Sound in
      let ((acc, acc'), down) = decide_lem e.decision in
      elim funnel_verify-cases [
        | inl (bad, rej, no_c, no_s) ↦ (
          (λ h. absurd (ground arith), λ (so, _, _). absurd (ground (arith, from so))),
          (λ h. absurd (ground arith), λ (so, _). absurd (ground (arith, from so))),
          ground arith,
        )
        | inr (good, c, s, inl (no_text, dec)) ↦ (
          (λ h. absurd (ground arith), λ (_, t, _). absurd (ground arith)),
          (λ h. (to good, no_text), λ _. dec),
          ground arith,
        )
        | inr (good, c, s, inr (text, dec)) ↦ (
          (λ h. (to good, text, acc (sym dec ∙ h)), λ (_, _, v). dec ∙ acc' v),
          (λ h. absurd (down (sym dec ∙ h)), λ (_, t). absurd (ground arith)),
          ground arith,
        )
      ]
