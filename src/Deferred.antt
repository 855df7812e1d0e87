-- ===== src/Deferred.antt =====
-- dagr_mcp/deferred_boundary.py: the state of the deferred tool boundary, and what it is given from
-- outside. Times are microseconds; a digest stands by its number, whose text is `sha256:` and 64
-- hexadecimal digits.
pub mod Slots
pub mod Defer
pub mod Resume
pub mod Run
mod Deferral
pub mod Gate
pub mod Frame
pub mod Once
mod Binding
mod Tests
use dagr_mcp.Prelude.{ℕ, String, Bool, true, false, Option, List, Result}
use dagr_mcp.Python.{Value, Fields}
use dagr_mcp.Review.{ReviewOutcome}
use dagr_mcp.Review.Decision.{ReviewDecision, ToolCallDispositionError}

pub data SlotState : Type 0 where
  pending admitted refused expired : SlotState

-- `state in _TERMINAL_STATES`
abbrev pub is_terminal : SlotState → Bool
is_terminal pending = false
is_terminal _ = true

pub data FailureReason : Type 0 where
  gate_timeout_elapsed decision_rejected decision_expired : FailureReason
  argument_digest_mismatch inner_execution_failure still_deferred : FailureReason

pub record DeferredSlot : Type 0 where
  pub correlation_ref : String
  pub tool_name : String
  pub tool_class : String
  pub profile_ref : String
  pub argument_digest : ℕ
  pub created_at : ℕ
  pub state : SlotState
  pub review_object_ref : Option String
  pub gate_timeout_seconds : Option ℕ
  pub admission_receipt_ref : Option String
  pub outcome_receipt_ref : Option String
  pub result : Option Value
  pub failure_reason : Option FailureReason
  pub final_decision : Option ReviewDecision
  pub event_refs : List String

pub record DeferralResult : Type 0 where
  pub correlation_ref : String
  pub review_object_ref : String
  pub argument_digest : ℕ
  pub admission_receipt_ref : Option String
  pub event_refs : List String

pub record ResumeResult : Type 0 where
  pub correlation_ref : String
  pub state : SlotState
  pub result : Option Value
  pub failure_reason : Option FailureReason
  pub admission_receipt_ref : Option String
  pub outcome_receipt_ref : Option String
  pub event_refs : List String

-- The exceptions that leave the boundary: its own hierarchy, the error of the disposition module,
-- the `ValueError` and `TypeError` of reading and comparing a time, and a `BaseException` of the
-- inner handler, which no handler catches.
pub data DeferredError : Type 0 where
  arguments_not_mapping review_object_sink slot_not_found slot_terminal : DeferredError
  timeout stale_response argument_mismatch actor_mismatch : DeferredError
  execution_failure interrupted : String → DeferredError
  disposition : ToolCallDispositionError → DeferredError
  time_malformed time_naive : DeferredError

-- The governance events, each with its detail; `occurred_at` is left out.
pub data Event : Type 0 where
  call_deferred : String → ℕ → String → String → Event
  call_expired : String → String → ℕ → Event
  call_rejected : String → String → ReviewOutcome → Event
  call_still_deferred : String → String → Event
  call_mismatched : String → String → Event
  call_failed : String → String → String → Event
  call_executed : String → ℕ → String → Event

-- The pending row of `build_tool_call_disposition_review_object`, less the constants that
-- `defer_call` passes. The two names are stripped, and stand by their code points.
pub record ReviewObject : Type 0 where
  pub tool_name : List ℕ
  pub tool_class : List ℕ
  pub argument_hash : ℕ
  pub gate_timeout_seconds : Option ℕ
  pub profile_ref : String
  pub created_at : ℕ

pub data ReceiptRequest : Type 0 where
  deferred_admission : String → String → String → ReceiptRequest
  admitted_admission : String → String → ReceiptRequest
  result_outcome : String → String → Value → ReceiptRequest

-- How a call of the inner handler ends: it returns, raises an `Exception` of the named class, or
-- raises a `BaseException` that is none (`KeyboardInterrupt`, a cancellation).
pub data Ending : Type 0 where
  returned : Value → Ending
  failed broke_off : String → Ending

-- One call of the inner handler. The handler is not given the slot; it is noted here for the proofs.
pub record Call : Type 0 where
  pub correlation_ref : String
  pub tool_name : String
  pub arguments : Fields
  pub ending : Ending

-- What the boundary has done to the objects around it, in order.
pub record Effects : Type 0 where
  pub events : List Event
  pub review_objects : List ReviewObject
  pub calls : List Call
  pub receipts : List ReceiptRequest

-- The objects that the caller hands to the constructor, and the digest. An answer of such an object
-- is a function of what it was asked before and is asked now; `none` is an exception.
pub record Surroundings : Type 0 where
  pub payload_digest : Fields → ℕ
  pub write_event : List Event → Event → Option String
  pub create_review_object : List ReviewObject → ReviewObject → Option String
  pub call_inner : List Call → String → Fields → Ending
  pub srs_bridge : Option (List ReceiptRequest → ReceiptRequest → Option String)
  pub profile_ref : String

pub record Boundary : Type 0 where
  pub slots : List (String × DeferredSlot)
  pub effects : Effects
