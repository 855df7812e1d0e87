-- ===== src/Lifecycle/Tests.antt =====
-- The planner of lifecycle/core.py on concrete requests and observations.
use dagr_mcp.Prelude.{
  ◌⊎◌, ◌≢◌, ◌≡◌, refl, true, false, not, ◌||◌, none, some, is_some, [], ok, is_ok, if◌then◌else◌,
}
use dagr_mcp.Lifecycle.{
  admitted, refused, deferred, required_sink_unavailable, review_object_creation_failed, result,
  exception, timeout, input_required, interrupted, read, write, AdmissionRequest,
  ExecutionObservation, AdmissionRecordIntent, OutcomeRecordIntent, AdmissionPlan, OutcomePlan,
  LifecyclePlan, plan, unsupported, missing_exception_class, unsupported_event, receipt_cardinality,
}
use dagr_mcp.Lifecycle.Vocabulary.{
  timeout_exception_class, admission_before_execution_required, deferral_continuation_contract,
  is_result_digest_outcome, is_exception, is_cancellation, neutral_cancellation_facts,
}
use dagr_mcp.Lifecycle.Plan.{
  plain_record, plan_admission, plan_admitted, plan_outcome, plan_lifecycle, core_outcome_status,
  subsumed, direct,
}
use dagr_mcp.Lifecycle.Admission.{
  is_admitted, is_plannable, is_ok-plan_admission, plan_admission-execution,
}
use dagr_mcp.Lifecycle.Outcome.{core_outcome_status-plan_outcome}
use dagr_mcp.Lifecycle.Cardinality.{plan_lifecycle-record_count, plan_lifecycle-reference}

abbrev pub write_request : AdmissionRequest
write_request = record {
  disposition = admitted;
  tool_class = write;
  refusal_ground = none;
  review_object_created = none;
  emit_read_admission_before_execution = false;
  has_parent_boundary = true;
}

abbrev skipped_read : AdmissionRequest
skipped_read = record write_request { tool_class = read }

abbrev failed_deferral : AdmissionRequest
failed_deferral = record write_request {
  disposition = deferred;
  review_object_created = some false;
}

abbrev timed_out : ExecutionObservation
timed_out = record { observation = timeout; exception_class = none; input_required_mode = none }

abbrev paused : ExecutionObservation
paused = record {
  observation = input_required;
  exception_class = none;
  input_required_mode = some interrupted;
}

abbrev pub write_plan : AdmissionPlan
write_plan = record {
  requested_disposition = admitted;
  resolved_disposition = admitted;
  admission_record = some (plain_record write_request admitted none);
  admission_recorded = true;
  execution_proceeds = true;
}

abbrev failed_record : AdmissionRecordIntent
failed_record = plain_record failed_deferral refused (some review_object_creation_failed)

abbrev failed_plan : AdmissionPlan
failed_plan = record {
  requested_disposition = deferred;
  resolved_disposition = refused;
  admission_record = some failed_record;
  admission_recorded = true;
  execution_proceeds = false;
}

abbrev timeout_record : OutcomeRecordIntent
timeout_record = record {
  outcome = exception;
  subsumed_from = some timeout;
  exception_class = some timeout_exception_class;
  carries_result_digest = false;
  references_admission = true;
  governance_facts = [];
  governance_facts_value = true;
  attestation_limit_families = dagr_mcp.Lifecycle.Vocabulary.admission_limit_families;
  adapter_responsibilities = dagr_mcp.Lifecycle.Vocabulary.common_record_responsibilities;
}

abbrev timeout_plan : OutcomePlan
timeout_plan = record { observation = timeout; outcome_record = some timeout_record }

abbrev timeout_lifecycle : LifecyclePlan
timeout_lifecycle = record { admission = write_plan; outcome = some timeout_plan; record_count = 2 }

pub write_planned : plan_admission write_request ≡ ok write_plan
unfolding plan_admission
write_planned = refl

deferral_failed : plan_admission failed_deferral ≡ ok failed_plan
unfolding plan_admission
deferral_failed = refl

timeout_planned : plan_outcome write_plan timed_out ≡ ok (plan timeout_plan)
unfolding plan_outcome
timeout_planned = refl

lifecycle_planned : plan_lifecycle write_request (some timed_out) ≡ ok (plan timeout_lifecycle)
unfolding plan_lifecycle
lifecycle_planned = refl

-- A read that is not recorded leaves no record at all.
skipped_read_records :
    plan_lifecycle skipped_read (some timed_out)
    ≡ ok (
        plan (record {
          admission = plan_admitted skipped_read false;
          outcome = some (record { observation = timeout; outcome_record = none });
          record_count = 0;
        }))
unfolding plan_lifecycle
skipped_read_records = refl

is_ok-plan_admission_example : is_ok (plan_admission skipped_read) ≡ is_plannable skipped_read
is_ok-plan_admission_example = is_ok-plan_admission skipped_read

plan_admission-execution_example :
    (write_plan.requested_disposition ≡ write_request.disposition)
    × (write_plan.execution_proceeds ≡ is_admitted write_request.disposition)
    × (write_plan.execution_proceeds ≡ is_admitted write_plan.resolved_disposition)
    × (write_plan.admission_recorded ≡ is_some write_plan.admission_record)
    × (write_plan.admission_recorded ≡ (
        not write_plan.execution_proceeds
        || admission_before_execution_required write_request.tool_class
        || write_request.emit_read_admission_before_execution))
plan_admission-execution_example = plan_admission-execution write_request write_planned

core_outcome_status-plan_outcome_example :
    ((core_outcome_status timed_out.observation ≡ ok subsumed)
      × (timed_out.observation ≡ timeout)
      × (timeout_record.outcome ≡ exception)
      × (timeout_record.subsumed_from ≡ some timeout))
    ⊎ ((core_outcome_status timed_out.observation ≡ ok direct)
        × (timed_out.observation ≢ timeout)
        × (timeout_record.outcome ≡ timed_out.observation)
        × (timeout_record.subsumed_from ≡ none))
core_outcome_status-plan_outcome_example =
    core_outcome_status-plan_outcome write_plan timed_out timeout_planned refl

plan_lifecycle-record_count_example : some timeout_lifecycle.record_count ≡ (
    if timeout_lifecycle.admission.admission_recorded
    then receipt_cardinality timeout_lifecycle.admission.resolved_disposition
    else some 0)
plan_lifecycle-record_count_example =
    plan_lifecycle-record_count write_request timed_out lifecycle_planned

plan_lifecycle-reference_example :
    (timeout_record.references_admission ≡ true)
    × (timeout_lifecycle.admission.resolved_disposition ≡ admitted)
    × ((intent : AdmissionRecordIntent) × (timeout_lifecycle.admission.admission_record
          ≡ some intent)
        × (intent.disposition ≡ admitted))
plan_lifecycle-reference_example =
    plan_lifecycle-reference write_request (some timed_out) lifecycle_planned refl refl
