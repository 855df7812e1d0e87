-- ===== src/Governed/Tests.antt =====
-- Governed actions of governed_action.py on a concrete membrane.
use dagr_mcp.Prelude.{
  ◌≡◌, refl, ◌↔◌, true, false, not, ◌&&◌, none, some, is_some, [], ◌∷◌, Result, ok, raised, ◌>>=◌,
  if◌then◌else◌,
}
use dagr_mcp.Python.{null, floating, str, list, tuple, mapping, nil, cons, end, field}
use dagr_mcp.Python.Dict.{get, put, mem_text}
use dagr_mcp.Python.Text.{is_blank}
use dagr_mcp.Lifecycle.Plan.{plan_outcome_strict, plan_outcome}
use dagr_mcp.Receipts.Content.{enforce, is_private, has_marker}
use dagr_mcp.Receipts.Signing.{sign_envelope}
use dagr_mcp.Receipts.Sink.{write, save}
use dagr_mcp.Receipts.Envelope.{
  sequence, common, common_fields, append_attestation_limits, append_limits,
  apply_binding_owned_fields,
}
use dagr_mcp.Receipts.Emitter.{
  emit_admission, admission_envelope, seal, OutcomeArguments, outcome_envelope, outcome_limits,
  emit_outcome,
}
use dagr_mcp.Receipts.Tests.{canonical, emitter, context, stamp}
use dagr_mcp.Governed.{
  allow, defer, refuse, GovernedActionRequest, GovernedActionBoundaryConfig, GovernedActionDecision,
  GovernedActionResult, Digests,
}
use dagr_mcp.Governed.Freeze.{freeze, thaw, freeze_correlation_metadata, pairs}
use dagr_mcp.Python.Sort.{insert_field, sort_fields}
use dagr_mcp.Governed.Request.{
  sha256_digest, RequestArguments, new_request, finish_request, validate_non_empty_text,
  validate_principal_ref, validate_policy_ref, validate_session_ref,
}
use dagr_mcp.Governed.Decide.{classify, new_decision, decide_governed_action}
use dagr_mcp.Governed.Emission.{
  Ending, returned, timed_out, Membrane, RunState, admission_arguments, outcome_arguments,
  outcome_text, result_digest, emit_governed_outcome,
}
use dagr_mcp.Governed.Run.{
  run_governed_action, admit, proceed, execute, record_execution, summary, performed,
  classify_ending,
}
use dagr_mcp.Governed.Thaw.{normalize, thaw-freeze}
use dagr_mcp.Governed.Policy.{is_allow, is_addressed, is_in_bounds, decide_governed_action-label}
use dagr_mcp.Governed.Membrane.{
  is_admitted, admission_answer, HasFacts, run_governed_action-executions,
  run_governed_action-HasFacts,
}
use dagr_mcp.Governed.Told.{told_outcome, has_result, outcome_arguments-told}
use dagr_mcp.Governed.Snapshot.{new_request-normalize}

abbrev digests : Digests
digests = record { canonicalize = canonical; sha256_hex = λ bytes. "00" }

abbrev arguments : RequestArguments
arguments = record {
  request_ref = str "request:1";
  principal_ref = str "principal:1";
  tool_name = str "search";
  action_name = str "read";
  requested_scope = str "scope:1";
  policy_ref = str "policy:1";
  policy_version = str "v1";
  arguments_snapshot = mapping (field "b" (tuple (cons (str "x") nil)) (field "a" null end));
  session_ref = null;
  correlation_metadata = end;
}

abbrev the_value {ℓ} : {A E : Type ℓ} → A → Result E A → A
the_value a (ok b) = b
the_value a (raised e) = a

abbrev no_request : GovernedActionRequest
no_request = record {
  request_ref = "";
  principal_ref = "";
  tool_name = "";
  action_name = "";
  requested_scope = "";
  policy_ref = "";
  policy_version = "";
  arguments_snapshot = null;
  session_ref = none;
  correlation_metadata = end;
  argument_digest = "";
  request_identity = "";
}

abbrev request : GovernedActionRequest
request = the_value no_request (new_request digests arguments)

request_built : new_request digests arguments ≡ ok request
unfolding new_request finish_request validate_non_empty_text validate_principal_ref
    validate_policy_ref validate_session_ref is_blank freeze freeze_correlation_metadata sort_fields
    insert_field pairs thaw sha256_digest
request_built = refl

new_request-normalize_example :
    (thaw request.arguments_snapshot ≡ normalize arguments.arguments_snapshot)
    × (sha256_digest digests (normalize arguments.arguments_snapshot) ≡ ok request.argument_digest)
new_request-normalize_example = new_request-normalize digests arguments request_built

abbrev config : GovernedActionBoundaryConfig
config = record {
  policy_ref = "policy:1";
  policy_version = "v1";
  known_capabilities = "search" ∷ "delete" ∷ [];
  admitted_capabilities = "search" ∷ [];
  deferred_capabilities = "delete" ∷ [];
  admitted_scopes = "scope:1" ∷ [];
}

abbrev membrane : Membrane
membrane = record {
  digests = digests;
  emitter = emitter;
  admission_stamp = stamp;
  outcome_stamp = record { receipt_id = "r:2"; issued_at = "2026-01-01T00:00:01Z" };
  context = context;
  executor = λ v. returned (str "found");
}

abbrev idle : RunState
idle = record { files = []; executions = [] }

abbrev no_decision : GovernedActionDecision
no_decision = record {
  request_identity = "";
  decision = refuse;
  considered_capability = "";
  considered_scope = "";
  policy_ref = "";
  policy_version = "";
  reason_code = none;
  correlation_metadata = end;
  decision_identity = "";
}

abbrev decision : GovernedActionDecision
decision = the_value no_decision (decide_governed_action digests request config)

decided : decide_governed_action digests request config ≡ ok decision
unfolding decide_governed_action classify new_decision new_request finish_request
    validate_non_empty_text validate_principal_ref validate_policy_ref validate_session_ref is_blank
    freeze freeze_correlation_metadata sort_fields insert_field pairs thaw sha256_digest
decided = refl

decide_governed_action-label_example :
    ((decision.decision ≡ allow) ↔ (
      (is_addressed request config
        && not (mem_text request.tool_name config.deferred_capabilities)
        && is_in_bounds request config)
      ≡ true))
    × ((decision.decision ≡ defer) ↔ (
        (is_addressed request config && mem_text request.tool_name config.deferred_capabilities)
        ≡ true))
    × ((decision.decision ≡ refuse) ↔ (is_some decision.reason_code ≡ true))
decide_governed_action-label_example = decide_governed_action-label digests request config decided

thaw-freeze_example :
    thaw (tuple (cons (str "__sequence__") (cons (tuple (cons null nil)) nil)))
    ≡ list (cons null nil)
unfolding freeze thaw normalize
thaw-freeze_example = thaw-freeze (tuple (cons null nil)) refl

run_governed_action-executions_example :
    (run_governed_action membrane config request idle).1.executions ≡ (
      if is_admitted
        (decide_governed_action digests request config)
        (λ decided. admission_answer membrane request decided [])
      then thaw request.arguments_snapshot ∷ []
      else [])
run_governed_action-executions_example = run_governed_action-executions membrane config request idle

abbrev no_result : GovernedActionResult
no_result = record {
  request = no_request;
  decision = no_decision;
  execution_performed = false;
  execution_outcome = none;
  execution_exception_class = none;
  execution_summary_digest = none;
  admission_receipt_ref = none;
  outcome_receipt_ref = none;
  receipt_persisted = false;
  receipt_gap = false;
  receipt_identity = "";
}

abbrev outcome : GovernedActionResult
outcome = the_value no_result (run_governed_action membrane config request idle).0

ran : (run_governed_action membrane config request idle).0 ≡ ok outcome
unfolding run_governed_action admit proceed execute classify_ending record_execution summary
    performed emit_governed_outcome outcome_arguments plan_outcome_strict plan_outcome outcome_text
    result_digest emit_admission emit_outcome outcome_envelope outcome_limits
    apply_binding_owned_fields seal admission_envelope common common_fields
    append_attestation_limits append_limits put get enforce is_private has_marker sign_envelope
    write save decide_governed_action classify new_decision new_request finish_request
    validate_non_empty_text validate_principal_ref validate_policy_ref validate_session_ref is_blank
    freeze freeze_correlation_metadata sort_fields insert_field pairs thaw sha256_digest
ran = refl

run_governed_action-HasFacts_example :
    (decide_governed_action digests request config ≡ ok outcome.decision)
    × HasFacts outcome.decision (is_allow outcome.decision.decision) outcome
run_governed_action-HasFacts_example = run_governed_action-HasFacts membrane config request idle ran

abbrev no_arguments : OutcomeArguments
no_arguments = record {
  context = context;
  admission_receipt_ref = "";
  outcome = "";
  result_digest = none;
  exception_class = none;
  additional_attestation_limits = sequence nil;
  binding_owned_fields = end;
}

abbrev late : Ending
late = timed_out "ReadTimeout"

abbrev late_arguments : OutcomeArguments
late_arguments =
    the_value no_arguments (classify_ending late >>= outcome_arguments digests context "r:1")

late_told : (classify_ending late >>= outcome_arguments digests context "r:1") ≡ ok late_arguments
unfolding classify_ending outcome_arguments plan_outcome_strict plan_outcome outcome_text
    result_digest
late_told = refl

outcome_arguments-told_example :
    (late_arguments.admission_receipt_ref ≡ "r:1")
    × (late_arguments.outcome ≡ told_outcome late)
    × (late_arguments.exception_class ≡ some "TimeoutError")
    × (is_some late_arguments.result_digest ≡ has_result late)
outcome_arguments-told_example = outcome_arguments-told digests context "r:1" late late_told

-- An executor that returns a float without a canonical form.
abbrev wayward : Membrane
wayward = record membrane { executor = λ v. returned (floating 0) }

decided_to_allow : decision.decision ≡ allow
unfolding decide_governed_action classify new_decision new_request finish_request
    validate_non_empty_text validate_principal_ref validate_policy_ref validate_session_ref is_blank
    freeze freeze_correlation_metadata sort_fields insert_field pairs thaw sha256_digest
decided_to_allow = refl

admission_stored :
    (emit_admission emitter stamp (admission_arguments context request decision) []).0 ≡ ok "r:1"
unfolding emit_admission seal admission_envelope common common_fields append_attestation_limits
    append_limits put get enforce is_private has_marker sign_envelope write save
    decide_governed_action classify new_decision new_request finish_request validate_non_empty_text
    validate_principal_ref validate_policy_ref validate_session_ref is_blank freeze
    freeze_correlation_metadata sort_fields insert_field pairs thaw sha256_digest
admission_stored = refl
