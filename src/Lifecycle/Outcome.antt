-- ===== src/Lifecycle/Outcome.antt =====
-- What `plan_outcome` of lifecycle/core.py promises.
use dagr_mcp.Prelude.{
  ◌≡◌, ◌≢◌, ◌↔◌, ◌⊎◌, Bool, true, false, not, ◌&&◌, none, some, is_some, [], ok, is_ok, arith,
  if◌then◌else◌,
}
use dagr_mcp.Lifecycle.{
  NeutralOutcome, exception, timeout, input_required, ExecutionObservation, OutcomeRecordIntent,
  AdmissionPlan, OutcomePlan, plan, unsupported, UnsupportedLifecycleResult,
}
use dagr_mcp.Lifecycle.Vocabulary.{
  is_result_digest_outcome, is_exception, is_cancellation, timeout_exception_class,
  neutral_cancellation_facts,
}
use dagr_mcp.Lifecycle.Plan.{
  plan_outcome, core_outcome_status, direct, subsumed, unsupported_result,
}

abbrev pub is_known_outcome : NeutralOutcome → Bool
is_known_outcome (NeutralOutcome.other t) = false
is_known_outcome _ = true

-- `plan_outcome` raises in two cases only: the observation is outside the vocabulary, or it is an
-- `exception` with no class for a call that was executed and recorded.
pub is_ok-plan_outcome :
    (a : AdmissionPlan) (o : ExecutionObservation)
    → is_ok (plan_outcome a o) ≡ (
        is_known_outcome o.observation
        && not (
            is_exception o.observation
            && not (is_some o.exception_class)
            && a.execution_proceeds
            && a.admission_recorded))
unfolding plan_outcome
is_ok-plan_outcome a o = ground arith

-- A paused call (`input_required`) is answered by the explicit unsupported result whatever the
-- admission says, and nothing else is.
pub plan_outcome-unsupported :
    (a : AdmissionPlan) (o : ExecutionObservation) (u : UnsupportedLifecycleResult)
    → (plan_outcome a o ≡ ok (unsupported u))
      ↔ ((o.observation ≡ input_required) × (u ≡ unsupported_result o))
unfolding plan_outcome
plan_outcome-unsupported a o u = (λ h. ground arith, λ h. ground arith)

-- An outcome record is planned exactly for a call that proceeded and whose admission is recorded.
pub plan_outcome-presence :
    (a : AdmissionPlan) (o : ExecutionObservation) {p : OutcomePlan}
    → plan_outcome a o ≡ ok (plan p)
    → (p.observation ≡ o.observation)
      × (is_some p.outcome_record ≡ (a.execution_proceeds && a.admission_recorded))
unfolding plan_outcome
plan_outcome-presence a o h = ground arith

-- The facts of a planned outcome record. Its family is the observed outcome, a timeout being folded
-- onto the exceptions under the class `TimeoutError`; it carries a result digest exactly for a
-- result or an error, an exception class exactly for an exception, and the three cancellation
-- facts exactly for a cancellation.
pub plan_outcome-record :
    (a : AdmissionPlan) (o : ExecutionObservation) {p : OutcomePlan} {q : OutcomeRecordIntent}
    → plan_outcome a o ≡ ok (plan p)
    → p.outcome_record ≡ some q
    → (q.references_admission ≡ true)
      × (q.carries_result_digest ≡ is_result_digest_outcome o.observation)
      × (is_some q.exception_class ≡ is_exception q.outcome)
      × (q.governance_facts
          ≡ (if is_cancellation o.observation then neutral_cancellation_facts else []))
      × (((o.observation ≡ timeout)
            × (q.outcome ≡ exception)
            × (q.subsumed_from ≡ some timeout)
            × (q.exception_class ≡ some timeout_exception_class))
          ⊎ ((o.observation ≢ timeout) × (q.outcome ≡ o.observation) × (q.subsumed_from ≡ none)))
unfolding plan_outcome
plan_outcome-record a o h k = ground arith

-- The declared status of an outcome agrees with its plan. Where a record is planned, either the
-- status is `subsumed`, the outcome is a timeout, and the record is of the family `exception` and
-- names the timeout that it was folded from; or the status is `direct`, the outcome is no timeout,
-- and the record keeps the outcome's own family and names none.
pub core_outcome_status-plan_outcome :
    (a : AdmissionPlan) (o : ExecutionObservation) {p : OutcomePlan} {q : OutcomeRecordIntent}
    → plan_outcome a o ≡ ok (plan p)
    → p.outcome_record ≡ some q
    → ((core_outcome_status o.observation ≡ ok subsumed)
        × (o.observation ≡ timeout)
        × (q.outcome ≡ exception)
        × (q.subsumed_from ≡ some timeout))
      ⊎ ((core_outcome_status o.observation ≡ ok direct)
          × (o.observation ≢ timeout)
          × (q.outcome ≡ o.observation)
          × (q.subsumed_from ≡ none))
unfolding plan_outcome core_outcome_status
core_outcome_status-plan_outcome a o h k = ground arith
