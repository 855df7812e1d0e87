-- ===== src/Lifecycle/Plan.antt =====
-- packages/dagr-mcp-core/src/dagr_mcp_core/lifecycle/core.py: the planning functions.
use dagr_mcp.Prelude.{
  ℕ, ◌+◌, String, Bool, true, false, not, ◌&&◌, ◌||◌, Option, none, some, is_some, [], ◌∷◌, ◌++◌,
  Result, ok, raised, ◌>>=◌, ◌>>◌, if◌then◌else◌,
}
use dagr_mcp.Lifecycle.{
  NeutralDisposition, admitted, refused, deferred, NeutralRefusalGround,
  review_object_creation_failed, NeutralOutcome, compute_argument_digest, compute_result_digest,
  mint_review_object_ref, AdmissionRequest, ExecutionObservation, AdmissionRecordIntent,
  OutcomeRecordIntent, AdmissionPlan, OutcomePlan, LifecyclePlan, UnsupportedLifecycleResult,
  Planned, plan, unsupported, PlanError, missing_refusal_ground, missing_review_flag,
  missing_exception_class, unknown_refusal_ground, unknown_disposition, unknown_outcome,
  unsupported_event,
}
use dagr_mcp.Lifecycle.Vocabulary.{
  admission_limit_families, common_record_responsibilities, deferral_continuation_contract,
  timeout_exception_class, input_required_modes, neutral_cancellation_facts, unsupported_reason,
  admission_before_execution_required, is_unsupported_outcome, subsumed_outcome,
  is_result_digest_outcome, is_exception, is_cancellation, outcome_limit_families,
}

unfoldable pub admission_before_execution : AdmissionRequest → Bool
unfolding admission_before_execution_required
admission_before_execution request =
    if admission_before_execution_required request.tool_class
    then true
    else request.emit_read_admission_before_execution

-- The record that all branches but the deferred one build.
abbrev pub plain_record :
    AdmissionRequest → NeutralDisposition → Option NeutralRefusalGround → AdmissionRecordIntent
plain_record request disposition reason = record {
  disposition = disposition;
  reason_code = reason;
  carries_argument_digest = true;
  carries_review_object_ref = false;
  retry_contract = none;
  references_parent = request.has_parent_boundary;
  attestation_limit_families = admission_limit_families;
  adapter_responsibilities = common_record_responsibilities ++ (compute_argument_digest ∷ []);
}

-- `disposition == "refused"`, on `request.refusal_ground`
unfoldable pub plan_refused :
    AdmissionRequest → Option NeutralRefusalGround → Result PlanError AdmissionPlan
plan_refused request none = raised missing_refusal_ground
plan_refused request (some (NeutralRefusalGround.other ground)) =
    raised (unknown_refusal_ground ground)
plan_refused request (some ground) = ok (record {
  requested_disposition = refused;
  resolved_disposition = refused;
  admission_record = some (plain_record request refused (some ground));
  admission_recorded = true;
  execution_proceeds = false;
})

-- `disposition == "deferred"`, on `request.review_object_created`
unfoldable pub plan_deferred : AdmissionRequest → Option Bool → Result PlanError AdmissionPlan
plan_deferred request none = raised missing_review_flag
plan_deferred request (some false) = ok (record {
  requested_disposition = deferred;
  resolved_disposition = refused;
  admission_record = some (plain_record request refused (some review_object_creation_failed));
  admission_recorded = true;
  execution_proceeds = false;
})
plan_deferred request (some true) = ok (record {
  requested_disposition = deferred;
  resolved_disposition = deferred;
  admission_record = some (record {
    disposition = deferred;
    reason_code = none;
    carries_argument_digest = true;
    carries_review_object_ref = true;
    retry_contract = some deferral_continuation_contract;
    references_parent = request.has_parent_boundary;
    attestation_limit_families = admission_limit_families;
    adapter_responsibilities =
        common_record_responsibilities ++ (compute_argument_digest ∷ mint_review_object_ref ∷ []);
  });
  admission_recorded = true;
  execution_proceeds = false;
})

-- `disposition == "admitted"`
unfoldable pub plan_admitted : AdmissionRequest → Bool → AdmissionPlan
plan_admitted request recorded = record {
  requested_disposition = admitted;
  resolved_disposition = admitted;
  admission_record = if recorded then some (plain_record request admitted none) else none;
  admission_recorded = recorded;
  execution_proceeds = true;
}

unfoldable pub plan_by_disposition :
    AdmissionRequest → NeutralDisposition → Result PlanError AdmissionPlan
unfolding plan_refused plan_deferred plan_admitted admission_before_execution
plan_by_disposition request refused = plan_refused request request.refusal_ground
plan_by_disposition request deferred = plan_deferred request request.review_object_created
plan_by_disposition request admitted =
    ok (plan_admitted request (admission_before_execution request))
plan_by_disposition request (NeutralDisposition.other token) = raised (unknown_disposition token)

unfoldable pub plan_admission : AdmissionRequest → Result PlanError AdmissionPlan
unfolding plan_by_disposition
plan_admission request = plan_by_disposition request request.disposition

unfoldable pub unsupported_result : ExecutionObservation → UnsupportedLifecycleResult
unsupported_result observation = record {
  event = observation.observation;
  modes = elim observation.input_required_mode [
    | some mode ↦ mode ∷ []
    | none ↦ input_required_modes
  ];
  reason = unsupported_reason;
  supported = false;
}

-- `_outcome_record` after the timeout is folded: on the record's family, what it is subsumed from,
-- and the exception class.
unfoldable pub family_record :
    NeutralOutcome → Option NeutralOutcome → Option String → Result PlanError OutcomeRecordIntent
unfolding is_exception is_cancellation is_result_digest_outcome outcome_limit_families
family_record record_outcome subsumed_from exception_class =
    if is_exception record_outcome && not (is_some exception_class)
    then raised missing_exception_class
    else ok (record {
      outcome = record_outcome;
      subsumed_from = subsumed_from;
      exception_class = if is_exception record_outcome then exception_class else none;
      carries_result_digest = is_result_digest_outcome record_outcome;
      references_admission = true;
      governance_facts = if is_cancellation record_outcome then neutral_cancellation_facts else [];
      governance_facts_value = true;
      attestation_limit_families = outcome_limit_families record_outcome;
      adapter_responsibilities =
          if is_result_digest_outcome record_outcome
          then common_record_responsibilities ++ (compute_result_digest ∷ [])
          else common_record_responsibilities;
    })

unfoldable pub outcome_record : ExecutionObservation → Result PlanError OutcomeRecordIntent
unfolding family_record subsumed_outcome is_exception
outcome_record observation = elim (subsumed_outcome observation.observation) [
  | none ↦ family_record observation.observation none observation.exception_class
  | some family ↦
      family_record family (some observation.observation)
        (if is_exception family then some timeout_exception_class else observation.exception_class)
]

-- `token not in contract.NEUTRAL_OUTCOMES`
unfoldable pub require_known_outcome : NeutralOutcome → Result PlanError (Unit {0})
require_known_outcome (NeutralOutcome.other token) = raised (unknown_outcome token)
require_known_outcome _ = ok tt

-- `plan_outcome` after its first guard.
unfoldable pub plan_known_outcome :
    AdmissionPlan → ExecutionObservation → Result PlanError (Planned OutcomePlan)
unfolding is_unsupported_outcome unsupported_result outcome_record
plan_known_outcome admission observation =
    if is_unsupported_outcome observation.observation
    then ok (unsupported (unsupported_result observation))
    else if not admission.execution_proceeds || not admission.admission_recorded
    then ok (plan (record { observation = observation.observation; outcome_record = none }))
    else outcome_record observation >>= λ outcome.
        ok (plan (record { observation = observation.observation; outcome_record = some outcome }))

unfoldable pub plan_outcome :
    AdmissionPlan → ExecutionObservation → Result PlanError (Planned OutcomePlan)
unfolding require_known_outcome plan_known_outcome
plan_outcome admission observation = do
  require_known_outcome observation.observation
  plan_known_outcome admission observation

abbrev pub count_record {ℓ} : {R : Type ℓ} → Option R → ℕ
count_record none = 0
count_record (some r) = 1

-- An admission whose outcome is not planned: it did not proceed, or nothing was observed yet.
abbrev pub admission_only : AdmissionPlan → LifecyclePlan
admission_only admission = record {
  admission = admission;
  outcome = none;
  record_count = count_record admission.admission_record;
}

unfoldable pub join_outcome : AdmissionPlan → Planned OutcomePlan → Planned LifecyclePlan
join_outcome admission (unsupported u) = unsupported u
join_outcome admission (plan outcome) = plan (record {
  admission = admission;
  outcome = some outcome;
  record_count = count_record admission.admission_record + count_record outcome.outcome_record;
})

-- The second half of `plan_lifecycle`, once the admission proceeds.
unfoldable pub plan_observed :
    AdmissionPlan → Option ExecutionObservation → Result PlanError (Planned LifecyclePlan)
unfolding plan_outcome join_outcome
plan_observed admission none = ok (plan (admission_only admission))
plan_observed admission (some observation) = do
  outcome ← plan_outcome admission observation
  ok (join_outcome admission outcome)

unfoldable pub plan_lifecycle :
    AdmissionRequest → Option ExecutionObservation → Result PlanError (Planned LifecyclePlan)
unfolding plan_admission plan_observed
plan_lifecycle request observation = plan_admission request >>= λ admission.
    if not admission.execution_proceeds
    then ok (plan (admission_only admission))
    else plan_observed admission observation

-- `if isinstance(result, UnsupportedLifecycleResult): raise …`
unfoldable pub strictly : {P : Type 0} → Planned P → Result PlanError P
strictly (plan p) = ok p
strictly (unsupported u) = raised (unsupported_event u)

unfoldable pub plan_outcome_strict :
    AdmissionPlan → ExecutionObservation → Result PlanError OutcomePlan
unfolding strictly
plan_outcome_strict admission observation = plan_outcome admission observation >>= strictly

unfoldable pub plan_lifecycle_strict :
    AdmissionRequest → Option ExecutionObservation → Result PlanError LifecyclePlan
unfolding strictly
plan_lifecycle_strict request observation = plan_lifecycle request observation >>= strictly

pub data OutcomeStatus : Type 0 where
  direct subsumed unsupported_status : OutcomeStatus

unfoldable pub core_outcome_status : NeutralOutcome → Result PlanError OutcomeStatus
unfolding require_known_outcome is_unsupported_outcome subsumed_outcome
core_outcome_status outcome =
    require_known_outcome outcome
    >> (if is_unsupported_outcome outcome
        then ok unsupported_status
        else if is_some (subsumed_outcome outcome)
        then ok subsumed
        else ok direct)
