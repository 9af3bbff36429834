-- ===== src/Core/Gateway/Tests.antt =====
-- The theorem about the gateway at a contract, with fixed-point values.
use cautreo.Base.{ℕ, ◌≡◌, refl, true, none, some, [], ◌∷◌, All, arith}
use cautreo.Base.Fixed.{fixed}
use cautreo.Core.Contracts.{
  EvidencePacket, ev_accept, ExecutorContract, executor_contract_valid, has_text,
}
use cautreo.Core.Gateway.{exec_z3, gateway_execute}
use cautreo.Core.Gateway.Evidence.{InUnit, given, gateway_execute-accepted}
use cautreo.Core.Verification.{funnel_verify}

abbrev contract : ExecutorContract
contract = record {
  task_id = 1;
  hypothesis_id = 6;
  capability = 16;
  token_budget = 100;
  latency_budget_ms = 1000;
  objective = some (120 ∷ 61 ∷ 121 ∷ []);
  return_schema = none;
}

contract_valid : executor_contract_valid (some contract) ≡ true
unfolding executor_contract_valid has_text
contract_valid = refl

given-InUnit : All (InUnit fixed) (given fixed)
given-InUnit = (
  (refl, refl),
  (
    (refl, refl),
    ((refl, refl), ((refl, refl), ((refl, refl), ((refl, refl), ((refl, refl), tt))))),
  ),
)

gateway_execute-accepted_example :
    (e : EvidencePacket ℕ) × (gateway_execute fixed 4096 (some contract) exec_z3 ≡ some e)
    × (e.hypothesis_id ≡ 6)
    × ((funnel_verify fixed (some e)).decision ≡ ev_accept)
gateway_execute-accepted_example =
    gateway_execute-accepted fixed 4096 contract exec_z3 (λ e. absurd (omega arith)) contract_valid
      (λ e. absurd (ground arith)) given-InUnit
