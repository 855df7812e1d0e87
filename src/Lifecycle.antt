-- ===== src/Lifecycle.antt =====
-- packages/dagr-mcp-core/src/dagr_mcp_core/lifecycle/models.py and the vocabulary of contract.py:
-- the inputs and outputs of the neutral lifecycle planner. A field whose annotation is a `Literal`
-- holds any text at run time, so each vocabulary has one more constructor, for a text outside it.
pub mod Vocabulary
pub mod Plan
pub mod Admission
pub mod Outcome
pub mod Cardinality
pub mod Tests
use dagr_mcp.Prelude.{ℕ, String, Bool, Option, List, [], ◌∷◌}

pub data NeutralDisposition : Type 0 where
  admitted refused deferred : NeutralDisposition
  other : String → NeutralDisposition

pub data NeutralRefusalGround : Type 0 where
  policy_refused unknown_tool_fail_closed : NeutralRefusalGround
  required_sink_unavailable review_object_creation_failed : NeutralRefusalGround
  other : String → NeutralRefusalGround

pub data NeutralOutcome : Type 0 where
  result error exception task_submitted timeout cancellation input_required : NeutralOutcome
  other : String → NeutralOutcome

pub data InputRequiredMode : Type 0 where
  continuable interrupted : InputRequiredMode
  other : String → InputRequiredMode

pub data GovernedToolClass : Type 0 where
  read write destructive : GovernedToolClass
  other : String → GovernedToolClass

pub data NeutralCancellationFact : Type 0 where
  request_cancelled execution_state_unknown delivery_incomplete : NeutralCancellationFact

pub data AttestationLimitFamily : Type 0 where
  base result task boundary : AttestationLimitFamily

pub data AdapterResponsibility : Type 0 where
  mint_receipt_id mint_issued_at compute_argument_digest compute_result_digest :
      AdapterResponsibility
  mint_review_object_ref canonicalize_record sign_record : AdapterResponsibility
  stamp_protocol_binding stamp_binding_version : AdapterResponsibility
  store_custody_projection transport_record : AdapterResponsibility

pub record AdmissionRequest : Type 0 where
  pub disposition : NeutralDisposition
  pub tool_class : GovernedToolClass
  pub refusal_ground : Option NeutralRefusalGround
  pub review_object_created : Option Bool
  pub emit_read_admission_before_execution : Bool
  pub has_parent_boundary : Bool

pub record ExecutionObservation : Type 0 where
  pub observation : NeutralOutcome
  pub exception_class : Option String
  pub input_required_mode : Option InputRequiredMode

pub record AdmissionRecordIntent : Type 0 where
  pub disposition : NeutralDisposition
  pub reason_code : Option NeutralRefusalGround
  pub carries_argument_digest : Bool
  pub carries_review_object_ref : Bool
  pub retry_contract : Option String
  pub references_parent : Bool
  pub attestation_limit_families : List AttestationLimitFamily
  pub adapter_responsibilities : List AdapterResponsibility

pub record OutcomeRecordIntent : Type 0 where
  pub outcome : NeutralOutcome
  pub subsumed_from : Option NeutralOutcome
  pub exception_class : Option String
  pub carries_result_digest : Bool
  pub references_admission : Bool
  pub governance_facts : List NeutralCancellationFact
  pub governance_facts_value : Bool
  pub attestation_limit_families : List AttestationLimitFamily
  pub adapter_responsibilities : List AdapterResponsibility

pub record AdmissionPlan : Type 0 where
  pub requested_disposition : NeutralDisposition
  pub resolved_disposition : NeutralDisposition
  pub admission_record : Option AdmissionRecordIntent
  pub admission_recorded : Bool
  pub execution_proceeds : Bool

pub record OutcomePlan : Type 0 where
  pub observation : NeutralOutcome
  pub outcome_record : Option OutcomeRecordIntent

pub record LifecyclePlan : Type 0 where
  pub admission : AdmissionPlan
  pub outcome : Option OutcomePlan
  pub record_count : ℕ

pub record UnsupportedLifecycleResult : Type 0 where
  pub event : NeutralOutcome
  pub modes : List InputRequiredMode
  pub reason : String
  pub supported : Bool

-- The union that `plan_outcome` and `plan_lifecycle` return.
pub data Planned (P : Type 0) : Type 0 where
  plan : P → Planned P
  unsupported : UnsupportedLifecycleResult → Planned P

-- What the planners raise: `ValueError` by its message, `UnsupportedLifecycleEvent` by its fields.
pub data PlanError : Type 0 where
  missing_refusal_ground missing_review_flag missing_exception_class : PlanError
  unknown_refusal_ground unknown_disposition unknown_outcome : String → PlanError
  unsupported_event : UnsupportedLifecycleResult → PlanError

-- contract.RECEIPT_CARDINALITY; a key that the dict lacks has no value.
unfoldable pub receipt_cardinality : NeutralDisposition → Option ℕ
receipt_cardinality admitted = Option.some 2
receipt_cardinality refused = Option.some 1
receipt_cardinality deferred = Option.some 1
receipt_cardinality (other token) = Option.none
