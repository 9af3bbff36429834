-- ===== src/Core/Gateway.antt =====
-- core/gateway/gateway.c: the executors that the core calls, which answer with a piece of evidence.
-- The gateway is not null. The calls themselves are not written yet in the source: each answers with
-- fixed values. The identifier is the address of the new packet, an argument here; memory is given.
-- A string is its list of bytes.
pub mod Evidence
mod Tests
use cautreo.Base.{ℕ, Bool, true, false, Option, none, some, List, [], ◌∷◌}
use cautreo.Base.Float.{FloatOps}
use cautreo.Core.Contracts.{EvidencePacket, ev_accept, ExecutorContract}

pub data ExecutorType : Type 0 where
  exec_gemma4 exec_code_runner exec_z3 exec_retrieval exec_unit_test : ExecutorType

pub record Gateway (F : Type 0) : Type 0 where
  pub llama_endpoint : Option (List ℕ)
  pub default_timeout_ms : F

-- "http://127.0.0.1:18080/v1".
abbrev pub default_endpoint : List ℕ
default_endpoint =
    104 ∷ 116 ∷ 116 ∷ 112 ∷ 58 ∷ 47 ∷ 47 ∷ 49 ∷ 50 ∷ 55 ∷ 46 ∷ 48 ∷ 46 ∷ 48 ∷ 46 ∷ 49 ∷ 58 ∷ 49 ∷ 56
    ∷ 48 ∷ 56 ∷ 48 ∷ 47 ∷ 118 ∷ 49 ∷ []

module _ (fl : FloatOps) where
  open fl use {F, lit}

  unfoldable pub gateway_create : Option (List ℕ) → Gateway F
  gateway_create none = record {
    llama_endpoint = some default_endpoint;
    default_timeout_ms = lit 30000 0;
  }
  gateway_create (some endpoint) = record {
    llama_endpoint = some endpoint;
    default_timeout_ms = lit 30000 0;
  }

  unfoldable pub set_endpoint : Gateway F → Option (List ℕ) → Gateway F × Bool
  set_endpoint gw none = (gw, false)
  set_endpoint gw (some endpoint) = (record gw { llama_endpoint = some endpoint }, true)

  unfoldable pub health_check : Gateway F → Bool
  health_check gw = elim gw.llama_endpoint [ none ↦ false | some _ ↦ true ]

  -- The method is "gemma4:e4b".
  unfoldable pub call_gemma4 : ℕ → Option (List ℕ) → ℕ → Option (EvidencePacket F)
  call_gemma4 address none hypothesis_id = none
  call_gemma4 address (some text) hypothesis_id = some (record {
    id = address;
    hypothesis_id = hypothesis_id;
    decision = ev_accept;
    strength = lit 5 1;
    reliability = lit 5 1;
    independence_group = 1;
    reproducible = false;
    method = some (103 ∷ 101 ∷ 109 ∷ 109 ∷ 97 ∷ 52 ∷ 58 ∷ 101 ∷ 52 ∷ 98 ∷ []);
    observations = some text;
  })

  -- The method is "code_runner".
  unfoldable pub run_code : ℕ → Option (List ℕ) → ℕ → Option (EvidencePacket F)
  run_code address none hypothesis_id = none
  run_code address (some text) hypothesis_id = some (record {
    id = address;
    hypothesis_id = hypothesis_id;
    decision = ev_accept;
    strength = lit 7 1;
    reliability = lit 8 1;
    independence_group = 2;
    reproducible = true;
    method = some (99 ∷ 111 ∷ 100 ∷ 101 ∷ 95 ∷ 114 ∷ 117 ∷ 110 ∷ 110 ∷ 101 ∷ 114 ∷ []);
    observations = some text;
  })

  -- The method is "z3_solver".
  unfoldable pub call_z3 : ℕ → Option (List ℕ) → ℕ → Option (EvidencePacket F)
  call_z3 address none hypothesis_id = none
  call_z3 address (some text) hypothesis_id = some (record {
    id = address;
    hypothesis_id = hypothesis_id;
    decision = ev_accept;
    strength = lit 9 1;
    reliability = lit 95 2;
    independence_group = 3;
    reproducible = true;
    method = some (122 ∷ 51 ∷ 95 ∷ 115 ∷ 111 ∷ 108 ∷ 118 ∷ 101 ∷ 114 ∷ []);
    observations = some text;
  })

  -- The method is "retrieval".
  unfoldable pub retrieve : ℕ → Option (List ℕ) → ℕ → Option (EvidencePacket F)
  retrieve address none hypothesis_id = none
  retrieve address (some text) hypothesis_id = some (record {
    id = address;
    hypothesis_id = hypothesis_id;
    decision = ev_accept;
    strength = lit 4 1;
    reliability = lit 3 1;
    independence_group = 4;
    reproducible = false;
    method = some (114 ∷ 101 ∷ 116 ∷ 114 ∷ 105 ∷ 101 ∷ 118 ∷ 97 ∷ 108 ∷ []);
    observations = some text;
  })

  unfoldable pub gateway_execute :
      ℕ → Option ExecutorContract → ExecutorType → Option (EvidencePacket F)
  gateway_execute address none type = none
  gateway_execute address (some c) exec_gemma4 = call_gemma4 address c.objective c.hypothesis_id
  gateway_execute address (some c) exec_code_runner = run_code address c.objective c.hypothesis_id
  gateway_execute address (some c) exec_z3 = call_z3 address c.objective c.hypothesis_id
  gateway_execute address (some c) exec_retrieval = retrieve address c.objective c.hypothesis_id
  gateway_execute address (some c) exec_unit_test = none
