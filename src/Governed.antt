-- ===== src/Governed.antt =====
-- packages/dagr-mcp-core/src/dagr_mcp_core/lifecycle/governed_action.py: the labels, the request,
-- the decision and the result of a governed action.
pub mod Freeze
pub mod Request
pub mod Decide
pub mod Emission
pub mod Run
pub mod Thaw
mod Snapshot
mod Policy
mod Membrane
mod Told
mod Tests
use dagr_mcp.Prelude.{ℕ, String, Bool, Option, List}
use dagr_mcp.Python.{Value, Fields}
use dagr_mcp.Lifecycle.{NeutralOutcome, PlanError}
use dagr_mcp.Receipts.{ReceiptError}

pub data DecisionLabel : Type 0 where
  allow refuse defer : DecisionLabel

-- The reason codes that the module declares.
pub data ReasonCode : Type 0 where
  policy_refused unknown_tool_fail_closed unknown_capability_fail_closed : ReasonCode
  capability_mismatch scope_widening_attempt malformed_principal : ReasonCode
  unknown_policy_fail_closed malformed_policy policy_version_mismatch : ReasonCode

-- What leaves the module: `ValueError` of the text checks by the field's name, `TypeError`, an error
-- of the receipts or of the planner, and a `BaseException` of the executor.
pub data GovernedError : Type 0 where
  empty_text not_principal_shaped not_policy_shaped : String → GovernedError
  unsupported_type : String → GovernedError
  receipt : ReceiptError → GovernedError
  planner : PlanError → GovernedError
  no_outcome_record : GovernedError
  broke_off : String → GovernedError

-- `argument_digest` and `request_identity` are set by the constructor.
pub record GovernedActionRequest : Type 0 where
  pub request_ref : String
  pub principal_ref : String
  pub tool_name : String
  pub action_name : String
  pub requested_scope : String
  pub policy_ref : String
  pub policy_version : String
  pub arguments_snapshot : Value
  pub session_ref : Option String
  pub correlation_metadata : Fields
  pub argument_digest : String
  pub request_identity : String

-- A frozenset stands by a list of its members.
pub record GovernedActionBoundaryConfig : Type 0 where
  pub policy_ref : String
  pub policy_version : String
  pub known_capabilities : List String
  pub admitted_capabilities : List String
  pub deferred_capabilities : List String
  pub admitted_scopes : List String

pub record GovernedActionDecision : Type 0 where
  pub request_identity : String
  pub decision : DecisionLabel
  pub considered_capability : String
  pub considered_scope : String
  pub policy_ref : String
  pub policy_version : String
  pub reason_code : Option ReasonCode
  pub correlation_metadata : Fields
  pub decision_identity : String

pub record GovernedActionResult : Type 0 where
  pub request : GovernedActionRequest
  pub decision : GovernedActionDecision
  pub execution_performed : Bool
  pub execution_outcome : Option NeutralOutcome
  pub execution_exception_class : Option String
  pub execution_summary_digest : Option String
  pub admission_receipt_ref : Option String
  pub outcome_receipt_ref : Option String
  pub receipt_persisted : Bool
  pub receipt_gap : Bool
  pub receipt_identity : String

-- The libraries behind `sha256_digest`: RFC 8785 canonicalization, which can refuse a value, and the
-- hexadecimal SHA-256 of bytes.
pub record Digests : Type 0 where
  pub canonicalize : Value → Option (List ℕ)
  pub sha256_hex : List ℕ → String
