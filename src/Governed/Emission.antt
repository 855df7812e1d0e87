-- ===== src/Governed/Emission.antt =====
-- `_emit_admission` and `_emit_outcome` of governed_action.py, with what `run_governed_action` is given.
use dagr_mcp.Prelude.{
  String, Bool, true, false, Option, none, some, List, Result, ok, raised, ◌>>=◌,
}
use dagr_mcp.Python.{Value, null, nil, end}
use dagr_mcp.Lifecycle.{
  NeutralDisposition, admitted, refused, deferred, NeutralOutcome, result, error, exception,
  task_submitted, timeout, cancellation, input_required, OutcomeRecordIntent, AdmissionPlan,
  PlanError,
}
use dagr_mcp.Lifecycle.Plan.{plan_outcome_strict}
use dagr_mcp.Receipts.{ReceiptError, ReceiptContext}
use dagr_mcp.Receipts.Sink.{Files}
use dagr_mcp.Receipts.Envelope.{Stamp, sequence}
use dagr_mcp.Receipts.Emitter.{Emitter, AdmissionArguments, OutcomeArguments, emit_outcome}
use dagr_mcp.Governed.{
  DecisionLabel, allow, refuse, defer, ReasonCode, GovernedError, receipt, planner,
  no_outcome_record, GovernedActionRequest, GovernedActionDecision, Digests,
}
use dagr_mcp.Governed.Request.{sha256_digest}
use dagr_mcp.Governed.Decide.{reason_text}

-- How the executor ends: it returns, raises a `TimeoutError` or another `Exception` of the named
-- class, or raises a `BaseException` that is none.
pub data Ending : Type 0 where
  returned : Value → Ending
  timed_out failed broke : String → Ending

-- What `run_governed_action` is given beside the request and the config, with what the factories of
-- the emitter give for the two receipts.
pub record Membrane : Type 0 where
  pub digests : Digests
  pub emitter : Emitter
  pub admission_stamp : Stamp
  pub outcome_stamp : Stamp
  pub context : ReceiptContext
  pub executor : Value → Ending

-- The receipts on disk, and the arguments of the executor's calls, the latest first.
pub record RunState : Type 0 where
  pub files : Files
  pub executions : List Value

abbrev pub from_receipts : {A : Type 0} → Result ReceiptError A → Result GovernedError A
from_receipts (ok a) = ok a
from_receipts (raised e) = raised (receipt e)

abbrev pub from_planner : {A : Type 0} → Result PlanError A → Result GovernedError A
from_planner (ok a) = ok a
from_planner (raised e) = raised (planner e)

-- `neutral_disposition`
abbrev pub neutral_disposition : DecisionLabel → NeutralDisposition
neutral_disposition allow = admitted
neutral_disposition refuse = refused
neutral_disposition defer = deferred

abbrev pub disposition_text : NeutralDisposition → String
disposition_text admitted = "admitted"
disposition_text refused = "refused"
disposition_text deferred = "deferred"
disposition_text (NeutralDisposition.other token) = token

abbrev pub optional_reason : Option ReasonCode → Option String
optional_reason none = none
optional_reason (some reason) = some (reason_text reason)

abbrev pub retry_contract : DecisionLabel → Option String
retry_contract defer = some "retry_after_approval"
retry_contract _ = none

-- The arguments that `_emit_admission` passes.
abbrev pub admission_arguments :
    ReceiptContext → GovernedActionRequest → GovernedActionDecision → AdmissionArguments
admission_arguments context request decision = record {
  context = context;
  requested_tool_name = request.tool_name;
  argument_digest = request.argument_digest;
  disposition = disposition_text (neutral_disposition decision.decision);
  review_object_ref = none;
  retry_contract = retry_contract decision.decision;
  reason_code = optional_reason decision.reason_code;
  additional_attestation_limits = sequence nil;
}

-- The dict of `_emit_outcome`; a key that it lacks is a `KeyError`.
unfoldable pub outcome_text : NeutralOutcome → Option String
outcome_text result = some "result_returned"
outcome_text error = some "error_returned"
outcome_text exception = some "exception"
outcome_text task_submitted = some "task_submitted"
outcome_text timeout = some "exception"
outcome_text cancellation = some "indeterminate"
outcome_text input_required = some "indeterminate"
outcome_text (NeutralOutcome.other token) = none

abbrev pub admitted_plan : AdmissionPlan
admitted_plan = record {
  requested_disposition = admitted;
  resolved_disposition = admitted;
  admission_record = none;
  admission_recorded = true;
  execution_proceeds = true;
}

-- What `run_governed_action` knows after the executor: the outcome, the result and the class.
pub record Execution : Type 0 where
  pub outcome : NeutralOutcome
  pub result : Value
  pub exception_class : Option String

-- `if planned.carries_result_digest and execution_result is not None: …`
unfoldable pub result_digest : Digests → Bool → Value → Result GovernedError (Option String)
result_digest d false v = ok none
result_digest d true null = ok none
result_digest d true v = sha256_digest d v >>= λ digest. ok (some digest)

abbrev pub require_outcome_text : Option String → Result GovernedError String
require_outcome_text none = raised no_outcome_record
require_outcome_text (some text) = ok text

abbrev pub require_record : Option OutcomeRecordIntent → Result GovernedError OutcomeRecordIntent
require_record none = raised no_outcome_record
require_record (some planned) = ok planned

-- The arguments that `_emit_outcome` passes.
unfoldable pub outcome_arguments :
    Digests → ReceiptContext → String → Execution → Result GovernedError OutcomeArguments
unfolding plan_outcome_strict outcome_text result_digest
outcome_arguments d context admission_receipt_ref e = do
  outcome_plan ← from_planner (
      plan_outcome_strict admitted_plan (record {
        observation = e.outcome;
        exception_class = e.exception_class;
        input_required_mode = none;
      }))
  planned ← require_record outcome_plan.outcome_record
  text ← require_outcome_text (outcome_text e.outcome)
  digest ← result_digest d planned.carries_result_digest e.result
  ok (record {
    context = context;
    admission_receipt_ref = admission_receipt_ref;
    outcome = text;
    result_digest = digest;
    exception_class = planned.exception_class;
    additional_attestation_limits = sequence nil;
    binding_owned_fields = end;
  })

-- `_emit_outcome`
unfoldable pub emit_governed_outcome :
    Membrane → String → Execution → Files → Result GovernedError String × Files
unfolding outcome_arguments emit_outcome
emit_governed_outcome m admission_receipt_ref e files =
    elim (outcome_arguments m.digests m.context admission_receipt_ref e) [
      | raised refusal ↦ (raised refusal, files)
      | ok arguments ↦
          let (answer, stored) = emit_outcome m.emitter m.outcome_stamp arguments files in
          (from_receipts answer, stored)
    ]
