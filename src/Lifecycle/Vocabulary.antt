-- ===== src/Lifecycle/Vocabulary.antt =====
-- The constants of lifecycle/contract.py, models.py and core.py that the planner reads, and its
-- tests of membership in them.
use dagr_mcp.Prelude.{String, Bool, true, false, Option, none, some, List, [], ◌∷◌}
use dagr_mcp.Lifecycle.{
  NeutralOutcome, result, error, exception, task_submitted, timeout, cancellation, input_required,
  InputRequiredMode, continuable, interrupted, GovernedToolClass, write, destructive,
  NeutralCancellationFact, request_cancelled, execution_state_unknown, delivery_incomplete,
  AttestationLimitFamily, base, task, boundary, AdapterResponsibility, mint_receipt_id,
  mint_issued_at, canonicalize_record, sign_record, stamp_protocol_binding, stamp_binding_version,
  transport_record,
}

abbrev pub admission_limit_families : List AttestationLimitFamily
admission_limit_families = base ∷ boundary ∷ []

abbrev pub result_limit_families : List AttestationLimitFamily
result_limit_families = base ∷ AttestationLimitFamily.result ∷ boundary ∷ []

abbrev pub task_limit_families : List AttestationLimitFamily
task_limit_families = base ∷ task ∷ boundary ∷ []

abbrev pub common_record_responsibilities : List AdapterResponsibility
common_record_responsibilities =
    mint_receipt_id ∷ mint_issued_at ∷ canonicalize_record ∷ sign_record ∷ stamp_protocol_binding
    ∷ stamp_binding_version ∷ transport_record ∷ []

-- contract.DEFERRAL_CONTINUATION_CONTRACT
abbrev pub deferral_continuation_contract : String
deferral_continuation_contract = "retry_after_approval"

-- models.TIMEOUT_EXCEPTION_CLASS
abbrev pub timeout_exception_class : String
timeout_exception_class = "TimeoutError"

-- contract.INPUT_REQUIRED_MODES
abbrev pub input_required_modes : List InputRequiredMode
input_required_modes = continuable ∷ interrupted ∷ []

-- contract.NEUTRAL_CANCELLATION_FACTS
abbrev pub neutral_cancellation_facts : List NeutralCancellationFact
neutral_cancellation_facts = request_cancelled ∷ execution_state_unknown ∷ delivery_incomplete ∷ []

abbrev pub unsupported_reason : String
unsupported_reason =
    "the frozen FastMCP binding carries no dedicated disposition for a paused call; it is neutral but unsupported and must not be normalized into a supported outcome"

-- `tool_class in ADMISSION_BEFORE_EXECUTION_REQUIRED`
unfoldable pub admission_before_execution_required : GovernedToolClass → Bool
admission_before_execution_required write = true
admission_before_execution_required destructive = true
admission_before_execution_required _ = false

-- `token in UNSUPPORTED_OUTCOMES`
unfoldable pub is_unsupported_outcome : NeutralOutcome → Bool
is_unsupported_outcome input_required = true
is_unsupported_outcome _ = false

-- SUBSUMED_OUTCOMES.get(token)
unfoldable pub subsumed_outcome : NeutralOutcome → Option NeutralOutcome
subsumed_outcome timeout = some exception
subsumed_outcome _ = none

-- `outcome in contract.RESULT_DIGEST_OUTCOMES`
unfoldable pub is_result_digest_outcome : NeutralOutcome → Bool
is_result_digest_outcome result = true
is_result_digest_outcome error = true
is_result_digest_outcome _ = false

-- `outcome == "exception"`
unfoldable pub is_exception : NeutralOutcome → Bool
is_exception exception = true
is_exception _ = false

-- `outcome == "cancellation"`
unfoldable pub is_cancellation : NeutralOutcome → Bool
is_cancellation cancellation = true
is_cancellation _ = false

unfoldable pub outcome_limit_families : NeutralOutcome → List AttestationLimitFamily
outcome_limit_families result = result_limit_families
outcome_limit_families error = result_limit_families
outcome_limit_families task_submitted = task_limit_families
outcome_limit_families _ = admission_limit_families
