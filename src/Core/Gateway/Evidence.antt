-- ===== src/Core/Gateway/Evidence.antt =====
-- What becomes of the evidence of the gateway in the verification.
use cautreo.Base.{
  ℕ, ◌≡◌, ◌≢◌, refl, true, false, some, List, [], ◌∷◌, All, Option-cases, arith, inl, inr,
}
use cautreo.Base.Float.{FloatOps}
use cautreo.Core.Contracts.{
  EvidencePacket, ev_accept, ExecutorContract, executor_contract_valid, has_text,
}
use cautreo.Core.Gateway.{
  ExecutorType, exec_gemma4, exec_code_runner, exec_z3, exec_retrieval, exec_unit_test,
  gateway_execute, call_gemma4, run_code, call_z3, retrieve,
}
use cautreo.Core.Verification.{funnel_verify}
use cautreo.Core.Verification.Decision.{funnel_verify-Sound}

module _ (fl : FloatOps) where
  open fl use {F, lit, lt}

  -- The value is not outside of 0 to 1.
  abbrev pub InUnit : F → Type 0
  InUnit x = (lt x (lit 0 0) ≡ false) × (lt (lit 1 0) x ≡ false)

  -- The strengths and the reliabilities that the gateway gives.
  abbrev pub given : List F
  given = lit 5 1 ∷ lit 7 1 ∷ lit 8 1 ∷ lit 9 1 ∷ lit 95 2 ∷ lit 4 1 ∷ lit 3 1 ∷ []

  -- When the comparison orders 0.3 to 0.95 between 0 and 1: every valid contract, of whatever objective,
  -- is answered by every executor but the unit test runner with evidence on its hypothesis that the
  -- verification accepts, if the address of the evidence is not 0.
  pub gateway_execute-accepted :
      (address : ℕ) (c : ExecutorContract) (type : ExecutorType)
      → address ≢ 0
      → executor_contract_valid (some c) ≡ true
      → type ≢ exec_unit_test
      → All InUnit given
      → (e : EvidencePacket F) × (gateway_execute fl address (some c) type ≡ some e)
        × (e.hypothesis_id ≡ c.hypothesis_id)
        × ((funnel_verify fl (some e)).decision ≡ ev_accept)
  unfolding gateway_execute call_gemma4 run_code call_z3 retrieve executor_contract_valid has_text
  gateway_execute-accepted address c type placed valid handled
        (h5, (h7, (h8, (h9, (h95, (h4, (h3, _))))))) =
      elim (Option-cases c.objective) [
        | inl no_text ↦ absurd (ground (arith, no_text))
        | inr (text, e) ↦
            let named : c.hypothesis_id ≢ 0 = ground arith in by_type text e named type handled
      ]
    where
      by_type :
          (text : List ℕ)
          → c.objective ≡ some text
          → c.hypothesis_id ≢ 0
          → (type : ExecutorType) → type ≢ exec_unit_test
          → (e : EvidencePacket F) × (gateway_execute fl address (some c) type ≡ some e)
            × (e.hypothesis_id ≡ c.hypothesis_id)
            × ((funnel_verify fl (some e)).decision ≡ ev_accept)
      by_type text e named exec_gemma4 _ = rw e (
        _,
        refl,
        refl,
        (funnel_verify-Sound fl _).0.1 ((placed, named, h5.0, h5.1, h5.0, h5.1), refl, refl),
      )
      by_type text e named exec_code_runner _ = rw e (
        _,
        refl,
        refl,
        (funnel_verify-Sound fl _).0.1 ((placed, named, h7.0, h7.1, h8.0, h8.1), refl, refl),
      )
      by_type text e named exec_z3 _ = rw e (
        _,
        refl,
        refl,
        (funnel_verify-Sound fl _).0.1 ((placed, named, h9.0, h9.1, h95.0, h95.1), refl, refl),
      )
      by_type text e named exec_retrieval _ = rw e (
        _,
        refl,
        refl,
        (funnel_verify-Sound fl _).0.1 ((placed, named, h4.0, h4.1, h3.0, h3.1), refl, refl),
      )
      by_type text e named exec_unit_test other = absurd (other refl)
