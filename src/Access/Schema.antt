-- ===== src/Access/Schema.antt =====
-- `_envelope_schema_error` of dagr_mcp_service/access.py.
use dagr_mcp.Prelude.{
  String, Bool, true, false, not, ◌&&◌, ◌||◌, Option, some, List, [], ◌∷◌, Result, ok, raised,
  str_eq, if◌then◌else◌,
}
use dagr_mcp.Python.{Value, str, list, mapping, Fields, end, field}
use dagr_mcp.Python.Dict.{get, has, mem_text}
use dagr_mcp.Access.{AccessError, unhashable}

abbrev pub required_base_fields : List String
required_base_fields =
    "receipt_version" ∷ "profile_id" ∷ "profile_version" ∷ "receipt_id" ∷ "receipt_type"
    ∷ "receipt_kind" ∷ "boundary_type" ∷ "protocol_binding" ∷ "subject_ref" ∷ "issuer_id"
    ∷ "runtime_instance_id" ∷ "boundary_id" ∷ "logical_call_id" ∷ "issued_at"
    ∷ "artifact_classes_covered" ∷ "artifact_classes_excluded" ∷ "attestation_limits"
    ∷ "retention_class_applied" ∷ "extensions" ∷ "receipt_signature" ∷ []

abbrev pub required_admission_fields : List String
required_admission_fields =
    "requested_tool_name" ∷ "tool_resolution_status" ∷ "argument_digest" ∷ "policy_pack_id"
    ∷ "policy_pack_version" ∷ "disposition" ∷ []

abbrev pub required_outcome_fields : List String
required_outcome_fields = "admission_receipt_ref" ∷ "outcome" ∷ []

abbrev pub known_dispositions : List String
known_dispositions = "admitted" ∷ "refused" ∷ "deferred_for_review" ∷ []

abbrev pub known_outcomes : List String
known_outcomes =
    "result_returned" ∷ "error_returned" ∷ "exception" ∷ "task_submitted" ∷ "indeterminate" ∷ []

abbrev pub signature_members : List String
signature_members = "algorithm" ∷ "canonicalization" ∷ "key_id" ∷ "signature" ∷ []

-- The loops `for field_name in …: if field_name not in envelope: return True`.
unfoldable pub has_all : List String → Fields → Bool
has_all [] envelope = true
has_all (key ∷ keys) envelope = has envelope key && has_all keys envelope

-- `value == text`
abbrev pub is_text : Option Value → String → Bool
is_text (some (str s)) text = str_eq s text
is_text _ text = false

-- `value in {…}`, which hashes the value.
unfoldable pub mem_value : Option Value → List String → Result AccessError Bool
mem_value (some (str s)) texts = ok (mem_text s texts)
mem_value (some (list items)) texts = raised unhashable
mem_value (some (mapping fields)) texts = raised unhashable
mem_value _ texts = ok false

-- `set(signature) == _SIGNATURE_MEMBERS`
abbrev pub all_among : Fields → List String → Bool
all_among end keys = true
all_among (field k v rest) keys = mem_text k keys && all_among rest keys

unfoldable pub is_signature_block : Option Value → Bool
unfolding has_all get
is_signature_block (some (mapping block)) =
    has_all signature_members block
    && all_among block signature_members
    && is_text (get block "algorithm") "Ed25519"
    && is_text (get block "canonicalization") "RFC8785-JCS"
is_signature_block _ = false

-- The profile's constants.
unfoldable pub has_profile : Fields → Bool
unfolding has_all get
has_profile envelope =
    has_all required_base_fields envelope
    && is_text (get envelope "receipt_version") "srs.core.v5.1"
    && is_text (get envelope "profile_id") "srs.mcp.sdk_enforcement"
    && is_text (get envelope "profile_version") "v0.1"
    && is_text (get envelope "receipt_type") "sdk_enforcement"
    && is_text (get envelope "boundary_type") "mcp_tool_call"
    && is_text (get envelope "protocol_binding") "mcp"

-- The branch of a kind: the signature is looked at where the kind's fields are there and its value
-- is known.
abbrev pub kind_error : Bool → Result AccessError Bool → Bool → Result AccessError Bool
kind_error false known signed = ok true
kind_error true (raised e) signed = raised e
kind_error true (ok known) signed = ok (not known || not signed)

-- Whether an envelope that is a mapping fails the check.
unfoldable pub envelope_schema_error : Fields → Result AccessError Bool
unfolding has_profile has_all mem_value is_signature_block get
envelope_schema_error envelope =
    let kind = get envelope "receipt_kind" in
    let signed = is_signature_block (get envelope "receipt_signature") in
    if not (has_profile envelope)
    then ok true
    else if is_text kind "admission"
    then kind_error (has_all required_admission_fields envelope)
        (mem_value (get envelope "disposition") known_dispositions) signed
    else if is_text kind "outcome"
    then kind_error (has_all required_outcome_fields envelope)
        (mem_value (get envelope "outcome") known_outcomes) signed
    else ok true
