-- ===== src/Receipts.antt =====
-- packages/dagr-mcp-core/src/dagr_mcp_core/srs_receipts.py: the constants of the receipt profile,
-- the context of a receipt, and the objects that the emitter is given.
pub mod Content
pub mod Sink
pub mod Signing
pub mod Envelope
pub mod Emitter
pub mod Clean
pub mod Stored
pub mod Profile
pub mod Emitted
pub mod Trust
pub mod Tests
use dagr_mcp.Prelude.{ℕ, String, Bool, Option, List, [], ◌∷◌}
use dagr_mcp.Python.{Value, Fields}

-- `ReceiptContentError` by its messages, and `ReceiptWriteError`.
pub data ReceiptError : Type 0 where
  raw_content_key private_marker not_canonicalizable : ReceiptError
  unregistered_binding_version origin_outside_vocabulary : ReceiptError
  limits_not_sequence empty_limit : ReceiptError
  cancellation_not_permitted core_field_collision unknown_binding_field : ReceiptError
  binding_field_not_boolean sink_write_failed missing_receipt_id : ReceiptError

abbrev pub raw_keys : List String
raw_keys =
    "prompt_text" ∷ "transcript" ∷ "raw_payload" ∷ "tool_arguments" ∷ "arguments" ∷ "result_body"
    ∷ "headers" ∷ "prompt" ∷ "raw_prompt" ∷ "raw_output" ∷ "result" ∷ "tool_result" ∷ "request_body"
    ∷ "response_body" ∷ "access_token" ∷ "private_key" ∷ "credential_secret" ∷ "client_secret"
    ∷ "refresh_token" ∷ "api_key" ∷ "password" ∷ []

abbrev pub private_markers : List String
private_markers =
    "/Users/" ∷ "/home/" ∷ "/private/var" ∷ "C:\\\\" ∷ "~/garp-" ∷ "~/arcs-anchor" ∷ []

abbrev pub all_registered_binding_versions : List String
all_registered_binding_versions =
    "direct-harness.v0.1" ∷ "fastmcp.middleware.v0.1" ∷ "official-mcp-sdk.python.v0.1"
    ∷ "official-mcp-sdk.python.v0.2" ∷ []

abbrev pub subject_ref_origins : List String
subject_ref_origins =
    "supplied_subject" ∷ "derived_from_session" ∷ "derived_from_request"
    ∷ "derived_from_supplied_correlation" ∷ "binding_minted" ∷ []

abbrev pub cancellation_field_names : List String
cancellation_field_names =
    "request_cancelled" ∷ "execution_state_unknown" ∷ "delivery_incomplete" ∷ []

abbrev pub core_receipt_fields : List String
core_receipt_fields =
    "receipt_version" ∷ "profile_id" ∷ "profile_version" ∷ "receipt_id" ∷ "receipt_type"
    ∷ "receipt_kind" ∷ "boundary_type" ∷ "protocol_binding" ∷ "subject_ref" ∷ "subject_ref_origin"
    ∷ "issuer_id" ∷ "runtime_instance_id" ∷ "boundary_id" ∷ "logical_call_id" ∷ "issued_at"
    ∷ "artifact_classes_covered" ∷ "artifact_classes_excluded" ∷ "attestation_limits"
    ∷ "retention_class_applied" ∷ "extensions" ∷ "receipt_signature" ∷ "admission_receipt_ref"
    ∷ "outcome" ∷ "result_digest" ∷ []

abbrev pub base_limit : String
base_limit = "The receipt attests only to governance conditions at the named admission boundary."

abbrev pub result_limit : String
result_limit =
    "The receipt establishes the request, admission disposition, and semantic result returned at the configured boundary. It does not independently establish that the underlying tool body executed for this invocation, because middleware such as caches may satisfy a call without handler execution."

abbrev pub task_limit : String
task_limit =
    "The receipt establishes admission and submission to the configured task backend. It does not establish execution or completion."

pub record ReceiptContext : Type 0 where
  pub runtime_instance_id : String
  pub boundary_id : String
  pub policy_pack_id : String
  pub policy_pack_version : String
  pub subject_ref : String
  pub logical_call_id : String
  pub subject_ref_origin : Option String
  pub actor_ref : Option String
  pub tenant_id : Option String
  pub workspace_id : Option String
  pub binding_version : String
  pub parent_receipt_ref : Option String

-- `SigningIdentity` with the libraries that it calls: RFC 8785 canonicalization, which can refuse a
-- value, and the Ed25519 signature of bytes, in base64url.
pub record SigningIdentity : Type 0 where
  pub issuer_id : String
  pub key_id : String
  pub canonicalize : Value → Option (List ℕ)
  pub sign : List ℕ → String
