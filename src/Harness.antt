-- ===== src/Harness.antt =====
-- The data of dagr_mcp/enforcement_harness.py, and of the sinks' protocols of dagr_mcp/sdk_spine.py
-- that it uses.
pub mod Sinks
pub mod Acts
pub mod Policy
pub mod Receipt
pub mod Disposition
pub mod Gate
pub mod Run
pub mod Required
pub mod Quiet
pub mod Silent
pub mod Ended
pub mod Protocol
pub mod Passage
pub mod Order
pub mod Kept
pub mod Returns
pub mod Orderly
pub mod Total
pub mod Tests
use dagr_mcp.Prelude.{ℕ, String, Bool, Option, List, Result}
use dagr_mcp.Python.{Value, Fields}

pub record HarnessConfig : Type 0 where
  pub harness_version : String
  pub module_id : String
  pub module_version : String
  pub profile_ref : String
  pub policy_ref : String
  pub adapter_type : String
  pub policy_hash : Option String
  pub default_receipt_required : Bool
  pub fail_closed_on_unknown_tool : Bool

-- `decision` and `tool_class` are texts: the annotations that name their values are not enforced.
-- `gate_timeout_seconds` is a dynamic value, which is checked where it is used.
pub record ToolPolicy : Type 0 where
  pub tool_name : String
  pub tool_class : String
  pub decision : String
  pub receipt_required : Bool
  pub review_required : Bool
  pub retention_class : String
  pub required_sinks : List String
  pub reason : Option String
  pub gate_timeout_seconds : Value

pub record PolicyDecision : Type 0 where
  pub decision : String
  pub reason : String
  pub policy_ref : String
  pub required_sinks : List String
  pub receipt_required : Bool
  pub review_required : Bool
  pub retention_class : String
  pub attestation_limits : List String
  pub policy_hash : Option String

-- `SinkRequirements` of dagr_mcp/policy_profile.py, less the mode of the health checks, which the
-- harness does not read.
pub record SinkRequirements : Type 0 where
  pub event_sink_required : Bool
  pub receipt_sink_required : Bool
  pub artifact_sink_required : Bool
  pub review_object_sink_required : Bool
  pub lint_finding_sink_required : Bool
  pub required_sink_failure_behavior : String

-- What the harness reads of a `SinkHealth`.
pub record SinkHealth : Type 0 where
  pub status : String
  pub writable : Bool

pub record EventEnvelope : Type 0 where
  pub event_type : String
  pub occurred_at : String
  pub subject_ref : Option String
  pub actor_ref : Option String
  pub policy_ref : String
  pub detail : Fields
  pub lineage_refs : List String

pub record ReceiptEnvelope : Type 0 where
  pub receipt_type : String
  pub boundary_type : String
  pub protocol_binding : String
  pub issued_at : String
  pub artifact_classes_covered : List String
  pub artifact_classes_excluded : List String
  pub attestation_limits : List String
  pub subject_ref : Option String
  pub policy_ref : String
  pub policy_hash : Option String
  pub extensions : Fields
  pub critical_extensions : List String

pub record ReviewObject : Type 0 where
  pub review_object_type : String
  pub governance_state : String
  pub context_payload : Fields
  pub allowed_actions : List String
  pub created_at : String
  pub origin_event_id : Option String

-- The fields of a `HarnessContext` that change or are read; the rest repeat the configuration.
pub record HarnessContext : Type 0 where
  pub tool_name : String
  pub arguments_hash : String
  pub actor_ref : Option String
  pub session_ref : Option String
  pub request_ref : Option String
  pub result_hash : Option String
  pub event_chain_refs : List String
  pub receipt_refs : List String
  pub review_object_ref : Option String
  pub admission_receipt_ref : Option String
  pub sink_health_snapshot : List (String × SinkHealth)
  pub attestation_limits : List String

pub record GovernedResult : Type 0 where
  pub ok : Bool
  pub result : Option Value
  pub failure_reason : Option String
  pub event_refs : List String
  pub receipt_refs : List String
  pub review_object_ref : Option String
  pub policy_decision : Option PolicyDecision
  pub context : HarnessContext

-- What is raised: a `SinkUnavailableError`, an `Exception` of another class, or a `BaseException`
-- that is no `Exception` (`KeyboardInterrupt`, a cancellation).
pub data Raise : Type 0 where
  sink_unavailable : Raise
  exception base : String → Raise

-- The arguments of the bridge's two emissions, after the context and the tool's name.
pub record AdmissionCall : Type 0 where
  pub context : HarnessContext
  pub tool_name : String
  pub disposition : String
  pub reason_code : Option String
  pub review_object_ref : Option String
  pub retry_contract : Option String

pub data OutcomeCall : Type 0 where
  raised_exception : HarnessContext → String → String → OutcomeCall
  result_returned : HarnessContext → String → Value → OutcomeCall

-- One call of a collaborator, with what it answered.
pub data Effect : Type 0 where
  health_checked : String → Result Raise SinkHealth → Effect
  event_written : EventEnvelope → Result Raise String → Effect
  receipt_written : ReceiptEnvelope → Result Raise String → Effect
  review_created : ReviewObject → Result Raise String → Effect
  admission_emitted : AdmissionCall → Result Raise String → Effect
  outcome_emitted : OutcomeCall → Result Raise String → Effect
  called : String → Value → Value → Result Raise Value → Effect

-- The newest call first.
abbrev pub History : Type 0
History = List Effect

-- The collaborators of a handler. Each answers by what was called before and by its argument, so it
-- may keep a state, fail at times, and depend on the others.
pub record EventSink : Type 0 where
  pub health : History → Result Raise SinkHealth
  pub write_event : History → EventEnvelope → Result Raise String

pub record ReceiptSink : Type 0 where
  pub health : History → Result Raise SinkHealth
  pub write_receipt : History → ReceiptEnvelope → Result Raise String

pub record ReviewObjectSink : Type 0 where
  pub health : History → Result Raise SinkHealth
  pub create_review_object : History → ReviewObject → Result Raise String

-- A sink that the harness only asks for its health.
pub record OtherSink : Type 0 where
  pub health : History → Result Raise SinkHealth

pub record HarnessSinks : Type 0 where
  pub event : EventSink
  pub receipt : Option ReceiptSink
  pub review : Option ReviewObjectSink
  pub artifact : Option OtherSink
  pub lint : Option OtherSink

pub record SrsBridge : Type 0 where
  pub emit_admission : History → AdmissionCall → Result Raise String
  pub emit_outcome : History → OutcomeCall → Result Raise String

-- An object with `handle_tool_call`, a callable, or neither.
pub data Inner : Type 0 where
  handles callable : (History → String → Value → Value → Result Raise Value) → Inner
  unusable : Inner

-- The standard library: the clock of `now_utc_iso`, `str(value)`, `getattr(value, name, None)`,
-- `json.dumps` with the arguments of `stable_payload_hash`, `text.encode("utf-8")`, and SHA-256.
-- `dumps` raises a `TypeError` or another exception (`ValueError` on a cycle), `encode` raises on a
-- lone surrogate. `str(value)` is taken to return.
pub record Host : Type 0 where
  pub now : History → String
  pub text_of : Value → String
  pub attribute : Value → String → Option Value
  pub dumps : Value → Result Raise String
  pub encode : String → Result Raise (List ℕ)
  pub sha256_hex : List ℕ → String

-- The arguments of `wrap_handler`, and the standard library.
pub record Harness : Type 0 where
  pub host : Host
  pub inner : Inner
  pub config : HarnessConfig
  pub sinks : HarnessSinks
  pub policies : List (String × ToolPolicy)
  pub policy_profile : Option SinkRequirements
  pub srs_bridge : Option SrsBridge

-- The handler's context, which it passes about and changes, and what was called.
pub record State : Type 0 where
  pub context : HarnessContext
  pub history : History
