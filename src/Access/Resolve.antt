-- ===== src/Access/Resolve.antt =====
-- `_verify_and_parse_envelope` and `resolve_receipt` of dagr_mcp_service/access.py.
use dagr_mcp.Prelude.{
  ℕ, String, Bool, true, false, not, ◌&&◌, ◌||◌, Option, none, some, List, Result, ok, raised,
  ◌>>=◌, str_eq, if◌then◌else◌, is_ok,
}
use dagr_mcp.Python.{Value, null, str, mapping, Fields}
use dagr_mcp.Python.Dict.{get, get_value}
use dagr_mcp.Receipts.Content.{enforce}
use dagr_mcp.Access.{
  ReceiptKind, admission, outcome, ReceiptHandle, DiagnosticCode, unknown_handle,
  receipt_unavailable, malformed_envelope, schema_failure, signature_failure, identifier_mismatch,
  family_mismatch, association_mismatch, access_unauthorized, provider_failure, AccessError,
  provider_broke_off, FetchError, receipt_not_found, receipt_source_unavailable, other_exception,
  base_exception, ReceiptAccessContext, ReceiptAccessConfig, Libraries, ReceiptAccessResult,
}
use dagr_mcp.Access.Schema.{is_text, envelope_schema_error}
use dagr_mcp.Access.Signature.{signature_valid}

abbrev pub kind_text : ReceiptKind → String
kind_text admission = "admission"
kind_text outcome = "outcome"

-- An envelope, or the code of what is wrong.
pub data Verdict : Type 0 where
  accepted : Fields → Verdict
  refused : DiagnosticCode → Verdict

-- The two checks against the handle.
unfoldable pub match_handle : Fields → ReceiptHandle → Verdict
unfolding get
match_handle envelope handle =
    if not (is_text (get envelope "receipt_id") handle.receipt_id)
    then refused identifier_mismatch
    else if not (is_text (get envelope "receipt_kind") (kind_text handle.receipt_kind))
    then refused family_mismatch
    else accepted envelope

-- `isinstance(parsed, dict)`
abbrev pub parsed_mapping : Option Value → Option Fields
parsed_mapping (some (mapping envelope)) = some envelope
parsed_mapping _ = none

module _ (lib : Libraries) where
  -- The checks of an envelope that was parsed, in their order.
  unfoldable pub verify_envelope : Fields → ReceiptHandle → Value → Result AccessError Verdict
  unfolding envelope_schema_error enforce signature_valid match_handle
  verify_envelope envelope handle trust_bundle = envelope_schema_error envelope >>= λ wrong.
      if wrong || not (is_ok (enforce (mapping envelope)))
      then ok (refused schema_failure)
      else (signature_valid lib envelope trust_bundle >>= λ valid.
          ok (if valid then match_handle envelope handle else refused signature_failure))

  unfoldable pub verify_and_parse_envelope :
      List ℕ → ReceiptHandle → Value → Result AccessError Verdict
  unfolding verify_envelope
  verify_and_parse_envelope raw_bytes handle trust_bundle =
      elim (parsed_mapping (lib.loads raw_bytes)) [
        | none ↦ ok (refused malformed_envelope)
        | some envelope ↦ verify_envelope envelope handle trust_bundle
      ]

  -- `value in (None, ref)`, of a value that the envelope may lack.
  abbrev pub is_none_or : Value → String → Bool
  is_none_or null ref = true
  is_none_or (str s) ref = str_eq s ref
  is_none_or v ref = false

  -- `ref is not None and envelope.get(key) not in (None, ref)`
  abbrev pub mismatches : Option String → Value → Bool
  mismatches none v = false
  mismatches (some ref) v = not (is_none_or v ref)

  unfoldable pub associated : ReceiptAccessContext → Fields → Bool
  unfolding get
  associated context envelope =
      not (mismatches context.actor_ref (get_value envelope "actor_ref"))
      && not (mismatches context.tenant_ref (get_value envelope "tenant_id"))
      && not (mismatches context.request_ref (get_value envelope "logical_call_id"))

  abbrev pub refuse : ReceiptHandle → DiagnosticCode → ReceiptAccessResult
  refuse handle code = record { handle = handle; verified = none; diagnostic_code = some code }

  abbrev pub accept : ReceiptHandle → Fields → ReceiptAccessResult
  accept handle envelope = record {
    handle = handle;
    verified = some (record { handle = handle; envelope = envelope });
    diagnostic_code = none;
  }

  -- What follows the verification.
  unfoldable pub conclude : ReceiptHandle → ReceiptAccessContext → Verdict → ReceiptAccessResult
  unfolding associated
  conclude handle context (refused code) = refuse handle code
  conclude handle context (accepted envelope) =
      if associated context envelope
      then accept handle envelope
      else refuse handle association_mismatch

  -- The `except` clauses of the fetch.
  unfoldable pub fetch_failed : ReceiptHandle → FetchError → Result AccessError ReceiptAccessResult
  fetch_failed handle receipt_not_found = ok (refuse handle unknown_handle)
  fetch_failed handle receipt_source_unavailable = ok (refuse handle receipt_unavailable)
  fetch_failed handle other_exception = ok (refuse handle provider_failure)
  fetch_failed handle base_exception = raised provider_broke_off

  -- `required and ref is None`
  abbrev pub lacks : Bool → Option String → Bool
  lacks required none = required
  lacks required (some ref) = false

  unfoldable pub resolve_receipt :
      ReceiptAccessConfig
      → ReceiptAccessContext
      → ReceiptHandle
      → Result AccessError ReceiptAccessResult
  unfolding verify_and_parse_envelope conclude fetch_failed
  resolve_receipt config context handle =
      if lacks config.require_actor_context context.actor_ref
        || lacks config.require_tenant_context context.tenant_ref
      then ok (refuse handle access_unauthorized)
      else elim (config.provider handle context) [
        | raised e ↦ fetch_failed handle e
        | ok raw_bytes ↦
            verify_and_parse_envelope raw_bytes handle config.trust_bundle >>= λ verdict.
            ok (conclude handle context verdict)
      ]
