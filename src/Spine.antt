-- ===== src/Spine.antt =====
-- The review objects of dagr_mcp/sdk_spine.py, and the state of its in-memory review sink.
pub mod State
pub mod Sink
pub mod Decided
pub mod Tests
use dagr_mcp.Prelude.{ℕ, String, Bool, Option, List}
use dagr_mcp.Python.{Value, Fields}
use dagr_mcp.Review.{SpineError}
use dagr_mcp.Review.Decision.{ReviewDecision}

-- REVIEW_OBJECT_STATES
pub data ReviewState : Type 0 where
  pending approved rejected deferred expired withdrawn superseded : ReviewState

-- The `ValueError`s of `normalize_review_object_state`, by their messages.
pub data StateError : Type 0 where
  state_not_text state_empty state_unknown : StateError

pub record ReviewObject : Type 0 where
  pub review_object_type : String
  pub governance_state : Value
  pub context_payload : Fields
  pub allowed_actions : List String
  pub created_at : String
  pub review_object_id : Option String
  pub origin_event_id : Option String

-- What the sink raises; the normalizers' errors pass through it.
pub data SinkError : Type 0 where
  sink_unavailable review_object_not_found target_mismatch : SinkError
  bad_state : StateError → SinkError
  bad_outcome : SpineError → SinkError

-- The two dicts in the order in which their keys came, and the set of the ids that were decided.
pub record ReviewSink : Type 0 where
  pub available : Bool
  pub review_counter : ℕ
  pub decision_counter : ℕ
  pub review_objects : List (String × ReviewObject)
  pub decisions : List (String × ReviewDecision)
  pub decided : List String
