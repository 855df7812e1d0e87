-- ===== src/Governed/Run.antt =====
-- `run_governed_action` and `GovernedActionResult` of governed_action.py.
use dagr_mcp.Prelude.{String, Bool, true, false, Option, none, some, ◌∷◌, Result, ok, raised, ◌>>=◌}
use dagr_mcp.Python.{Value, null, boolean, str, mapping, end, field}
use dagr_mcp.Lifecycle.{
  NeutralOutcome, result, error, exception, task_submitted, timeout, cancellation, input_required,
}
use dagr_mcp.Receipts.Emitter.{emit_admission}
use dagr_mcp.Governed.{
  DecisionLabel, allow, GovernedError, receipt, broke_off, GovernedActionRequest,
  GovernedActionBoundaryConfig, GovernedActionDecision, GovernedActionResult,
}
use dagr_mcp.Governed.Freeze.{thaw}
use dagr_mcp.Governed.Request.{sha256_digest, optional_text}
use dagr_mcp.Governed.Decide.{label_text, decide_governed_action}
use dagr_mcp.Governed.Emission.{
  Ending, returned, timed_out, failed, broke, Membrane, RunState, admission_arguments, Execution,
  emit_governed_outcome,
}

abbrev pub outcome_value : Option NeutralOutcome → Value
outcome_value none = null
outcome_value (some result) = str "result"
outcome_value (some error) = str "error"
outcome_value (some exception) = str "exception"
outcome_value (some task_submitted) = str "task_submitted"
outcome_value (some timeout) = str "timeout"
outcome_value (some cancellation) = str "cancellation"
outcome_value (some input_required) = str "input_required"
outcome_value (some (NeutralOutcome.other token)) = str token

-- `_receipt_payload`
abbrev pub receipt_payload :
    GovernedActionRequest
    → GovernedActionDecision
    → Bool
    → Option NeutralOutcome
    → Option String
    → Value
receipt_payload request decision performed outcome digest = mapping (
    field "request_identity" (str request.request_identity) (
      field "decision_identity" (str decision.decision_identity) (
        field "decision" (str (label_text decision.decision)) (
          field "execution_performed" (boolean performed) (
            field "execution_outcome" (outcome_value outcome)
              (field "execution_summary_digest" (optional_text digest) end))))))

-- `GovernedActionResult(…)` and its `__post_init__`, for a call that was not executed.
unfoldable pub not_performed :
    Membrane
    → GovernedActionRequest
    → GovernedActionDecision
    → String
    → Result GovernedError GovernedActionResult
not_performed m request decision admission_receipt_ref =
    sha256_digest m.digests (receipt_payload request decision false none none) >>= λ identity.
    ok (record {
      request = request;
      decision = decision;
      execution_performed = false;
      execution_outcome = none;
      execution_exception_class = none;
      execution_summary_digest = none;
      admission_receipt_ref = some admission_receipt_ref;
      outcome_receipt_ref = none;
      receipt_persisted = true;
      receipt_gap = false;
      receipt_identity = identity;
    })

-- `outcome_receipt_ref`, and `receipt_persisted`, after the `try` of the outcome's emission.
abbrev pub emitted_ref : Result GovernedError String → Option String
emitted_ref (ok ref) = some ref
emitted_ref (raised e) = none

abbrev pub is_emitted : Result GovernedError String → Bool
is_emitted (ok ref) = true
is_emitted (raised e) = false

abbrev pub is_gap : Result GovernedError String → Bool
is_gap (ok ref) = false
is_gap (raised e) = true

-- `GovernedActionResult(…)` and its `__post_init__`, for a call that was executed.
unfoldable pub performed :
    Membrane
    → GovernedActionRequest
    → GovernedActionDecision
    → String
    → Execution
    → String
    → Result GovernedError String
    → Result GovernedError GovernedActionResult
performed m request decision admission_receipt_ref e digest emission =
    sha256_digest m.digests (receipt_payload request decision true (some e.outcome) (some digest))
    >>= λ identity. ok (record {
      request = request;
      decision = decision;
      execution_performed = true;
      execution_outcome = some e.outcome;
      execution_exception_class = e.exception_class;
      execution_summary_digest = some digest;
      admission_receipt_ref = some admission_receipt_ref;
      outcome_receipt_ref = emitted_ref emission;
      receipt_persisted = is_emitted emission;
      receipt_gap = is_gap emission;
      receipt_identity = identity;
    })

-- The value whose digest is `execution_summary_digest`.
unfoldable pub summary : Execution → Value
summary e = elim e.outcome [
  | result ↦ e.result
  | error ↦ e.result
  | outcome ↦ mapping (
      field "execution_outcome" (outcome_value (some outcome))
        (field "exception_class" (optional_text e.exception_class) end))
]

-- What follows the executor: the digest is taken before the outcome's emission, outside its `try`.
unfoldable pub record_execution :
    Membrane
    → GovernedActionRequest
    → GovernedActionDecision
    → String
    → Execution
    → RunState
    → Result GovernedError GovernedActionResult × RunState
unfolding summary emit_governed_outcome performed
record_execution m request decision admission_receipt_ref e state =
    elim (sha256_digest m.digests (summary e)) [
      | raised refusal ↦ (raised refusal, state)
      | ok digest ↦
          let (emission, stored) = emit_governed_outcome m admission_receipt_ref e state.files in
          (
            performed m request decision admission_receipt_ref e digest emission,
            record { files = stored; executions = state.executions },
          )
    ]

-- The `try` around the executor.
unfoldable pub classify_ending : Ending → Result GovernedError Execution
classify_ending (returned v) = ok (record { outcome = result; result = v; exception_class = none })
classify_ending (timed_out class) =
    ok (record { outcome = timeout; result = null; exception_class = some class })
classify_ending (failed class) =
    ok (record { outcome = exception; result = null; exception_class = some class })
classify_ending (broke class) = raised (broke_off class)

unfoldable pub execute :
    Membrane
    → GovernedActionRequest
    → GovernedActionDecision
    → String
    → RunState
    → Result GovernedError GovernedActionResult × RunState
unfolding classify_ending record_execution
execute m request decision admission_receipt_ref state =
    let arguments = thaw request.arguments_snapshot in
    let called : RunState = record {
      files = state.files;
      executions = arguments ∷ state.executions;
    } in
    elim (classify_ending (m.executor arguments)) [
      | raised refusal ↦ (raised refusal, called)
      | ok e ↦ record_execution m request decision admission_receipt_ref e called
    ]

-- `if decision.decision != "allow": return …`
unfoldable pub proceed :
    Membrane
    → GovernedActionRequest
    → GovernedActionDecision
    → DecisionLabel
    → String
    → RunState
    → Result GovernedError GovernedActionResult × RunState
unfolding execute not_performed
proceed m request decision allow admission_receipt_ref state =
    execute m request decision admission_receipt_ref state
proceed m request decision _ admission_receipt_ref state =
    (not_performed m request decision admission_receipt_ref, state)

-- What follows the decision: the admission receipt, then the rest.
unfoldable pub admit :
    Membrane
    → GovernedActionRequest
    → GovernedActionDecision
    → RunState
    → Result GovernedError GovernedActionResult × RunState
unfolding proceed emit_admission
admit m request decision state =
    let arguments = admission_arguments m.context request decision in
    let (answer, stored) = emit_admission m.emitter m.admission_stamp arguments state.files in
    let after : RunState = record { files = stored; executions = state.executions } in
    elim answer [
      | raised e ↦ (raised (receipt e), after)
      | ok ref ↦ proceed m request decision decision.decision ref after
    ]

unfoldable pub run_governed_action :
    Membrane
    → GovernedActionBoundaryConfig
    → GovernedActionRequest
    → RunState
    → Result GovernedError GovernedActionResult × RunState
unfolding decide_governed_action admit
run_governed_action m config request state =
    elim (decide_governed_action m.digests request config) [
      | raised e ↦ (raised e, state)
      | ok decision ↦ admit m request decision state
    ]
