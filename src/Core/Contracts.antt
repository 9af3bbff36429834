-- ===== src/Core/Contracts.antt =====
-- core/contracts/contracts.c: the data that the modules of the core exchange, and when it is valid.
-- A pointer that may be null is an Option; a string is its list of bytes. A count stands beside an
-- array only where the code compares the two.
use cautreo.Base.{
  ℕ, Bool, true, false, not, ◌&&◌, ◌||◌, Option, none, some, List, [], ◌∷◌, ltb, ◌==◌,
}
use cautreo.Base.Float.{FloatOps}

pub data HypothesisStatus : Type 0 where
  hyp_active hyp_dormant hyp_merged hyp_pruned hyp_verified hyp_unresolved : HypothesisStatus

pub data EvidenceDecision : Type 0 where
  ev_accept ev_reject ev_downgrade ev_request_retest ev_request_independent ev_escalate :
      EvidenceDecision

pub data MemoryLayer : Type 0 where
  mem_episodic mem_pattern mem_rule mem_counterexample : MemoryLayer

pub record ProblemContract : Type 0 where
  pub problem_id : ℕ
  pub goal : Option (List ℕ)
  pub entities : Option (List (List ℕ))
  pub n_entities : ℕ
  pub constraints : Option (List (List ℕ))
  pub n_constraints : ℕ
  pub assumptions : Option (List (List ℕ))
  pub n_assumptions : ℕ
  pub token_budget : ℕ
  pub latency_budget_ms : ℕ

pub record HypothesisState (F : Type 0) : Type 0 where
  pub id : ℕ
  pub claim : Option (List ℕ)
  pub prior_score : F
  pub support : F
  pub contradiction : F
  pub uncertainty : F
  pub support_evidence : Option (List ℕ)
  pub n_support : ℕ
  pub contra_evidence : Option (List ℕ)
  pub n_contra : ℕ
  pub status : HypothesisStatus

pub record EvidencePacket (F : Type 0) : Type 0 where
  pub id : ℕ
  pub hypothesis_id : ℕ
  pub decision : EvidenceDecision
  pub strength : F
  pub reliability : F
  pub independence_group : ℕ
  pub reproducible : Bool
  pub method : Option (List ℕ)
  pub observations : Option (List ℕ)

pub record ExecutorContract : Type 0 where
  pub task_id : ℕ
  pub hypothesis_id : ℕ
  pub capability : ℕ
  pub token_budget : ℕ
  pub latency_budget_ms : ℕ
  pub objective : Option (List ℕ)
  pub return_schema : Option (List ℕ)

pub record MemoryRecord (F : Type 0) : Type 0 where
  pub memory_id : ℕ
  pub layer : MemoryLayer
  pub problem_signature : Option (List ℕ)
  pub strategy : Option (List ℕ)
  pub confidence : F
  pub evidence_ids : Option (List ℕ)
  pub n_evidence : ℕ
  pub version : ℕ
  pub verified : Bool
  pub reproducible : Bool

-- Tests of a decision against ACCEPT and REJECT.
unfoldable pub is_accept : EvidenceDecision → Bool
is_accept ev_accept = true
is_accept _ = false

unfoldable pub is_reject : EvidenceDecision → Bool
is_reject ev_reject = true
is_reject _ = false

-- `s && strlen(s) > 0`.
unfoldable pub has_text : Option (List ℕ) → Bool
has_text none = false
has_text (some []) = false
has_text (some (c ∷ s)) = true

-- `n > 0 && !p`.
unfoldable pub lacks_array {ℓ} : {A : Type ℓ} → ℕ → Option A → Bool
lacks_array n (some a) = false
lacks_array n none = ltb 0 n

unfoldable pub problem_contract_valid : Option ProblemContract → Bool
problem_contract_valid none = false
problem_contract_valid (some p) =
    not (p.problem_id == 0)
    && (has_text p.goal
        && (not (lacks_array p.n_entities p.entities)
            && not (lacks_array p.n_constraints p.constraints)))

unfoldable pub executor_contract_valid : Option ExecutorContract → Bool
executor_contract_valid none = false
executor_contract_valid (some e) =
    not (e.task_id == 0 || e.hypothesis_id == 0)
    && (not (e.capability == 0) && has_text e.objective)

module _ (fl : FloatOps) where
  open fl use {F, lit, lt}

  -- `x < 0.0 || x > 1.0`.
  unfoldable pub outside_unit : F → Bool
  outside_unit x = lt x (lit 0 0) || lt (lit 1 0) x

  unfoldable pub hypothesis_state_valid : Option (HypothesisState F) → Bool
  hypothesis_state_valid none = false
  hypothesis_state_valid (some h) =
      not (h.id == 0)
      && (has_text h.claim
          && (not (outside_unit h.prior_score)
              && (not (lt h.uncertainty (lit 0 0))
                  && (not (lacks_array h.n_support h.support_evidence)
                      && not (lacks_array h.n_contra h.contra_evidence)))))

  unfoldable pub evidence_packet_valid : Option (EvidencePacket F) → Bool
  evidence_packet_valid none = false
  evidence_packet_valid (some e) =
      not (e.id == 0 || e.hypothesis_id == 0)
      && (not (outside_unit e.strength) && not (outside_unit e.reliability))

  unfoldable pub memory_record_valid : Option (MemoryRecord F) → Bool
  memory_record_valid none = false
  memory_record_valid (some m) =
      not (m.memory_id == 0)
      && (has_text m.problem_signature
          && (not (outside_unit m.confidence) && not (lacks_array m.n_evidence m.evidence_ids)))
