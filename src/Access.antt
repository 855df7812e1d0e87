-- ===== src/Access.antt =====
-- The data of dagr_mcp_service/access.py, with the receipt handle and the response of
-- dagr_mcp_service/contract.py that it uses.
pub mod Schema
pub mod Signature
pub mod Source
pub mod Resolve
pub mod Compose
pub mod Sound
pub mod Chosen
pub mod Fits
pub mod Composed
pub mod Reread
pub mod Trusted
pub mod Required
pub mod Untupled
pub mod Passing
pub mod Roundtrip
pub mod Tests
use dagr_mcp.Prelude.{ℕ, String, Bool, Option, List, Result}
use dagr_mcp.Python.{Value, Fields}
use dagr_mcp.Python.Equality.{FloatComparison}

-- A `receipt_kind` that the handle's constructor accepts.
pub data ReceiptKind : Type 0 where
  admission outcome : ReceiptKind

pub record ReceiptHandle : Type 0 where
  pub receipt_id : String
  pub receipt_kind : ReceiptKind
  pub location_handle : Option String

-- The fields of a `GovernedCallResponse` that the access service reads.
pub record GovernedCallResponse : Type 0 where
  pub logical_call_id : String
  pub receipts : List ReceiptHandle
  pub parent_receipt_ref : Option String

pub data DiagnosticCode : Type 0 where
  unknown_handle receipt_unavailable malformed_envelope : DiagnosticCode
  schema_failure signature_failure identifier_mismatch : DiagnosticCode
  family_mismatch association_mismatch access_unauthorized provider_failure : DiagnosticCode

-- What the service raises itself: a `TypeError` for a value that cannot be hashed or iterated, the
-- `ValueError` of `compose_receipts`, and a `BaseException` of the provider that is no `Exception`.
pub data AccessError : Type 0 where
  unhashable not_iterable empty_logical_call_id provider_broke_off : AccessError

-- What a provider's `fetch` raises.
pub data FetchError : Type 0 where
  receipt_not_found receipt_source_unavailable other_exception base_exception : FetchError

pub record ReceiptAccessContext : Type 0 where
  pub actor_ref : Option String
  pub tenant_ref : Option String
  pub request_ref : Option String

abbrev pub ReceiptByteProvider : Type 0
ReceiptByteProvider = ReceiptHandle → ReceiptAccessContext → Result FetchError (List ℕ)

pub record ReceiptAccessConfig : Type 0 where
  pub provider : ReceiptByteProvider
  pub trust_bundle : Value
  pub require_actor_context : Bool
  pub require_tenant_context : Bool

-- What `datetime.fromisoformat` makes of a text: a time with a zone, in microseconds of UTC, or a
-- time without one.
pub data IsoTime : Type 0 where
  zoned unzoned : ℕ → IsoTime

-- The libraries: `json.loads`, RFC 8785 canonicalization, Ed25519 verification (of a public key, a
-- signature and a message), `datetime.fromisoformat`, `str(value)`, and `==` where a number is a
-- float. A function that raises has no value.
pub record Libraries : Type 0 where
  pub loads : List ℕ → Option Value
  pub canonicalize : Value → Option (List ℕ)
  pub verify : List ℕ → List ℕ → List ℕ → Bool
  pub fromisoformat : String → Option IsoTime
  pub text_of : Value → String
  pub eq_float : FloatComparison

pub record VerifiedReceipt : Type 0 where
  pub handle : ReceiptHandle
  pub envelope : Fields

pub record ReceiptAccessResult : Type 0 where
  pub handle : ReceiptHandle
  pub verified : Option VerifiedReceipt
  pub diagnostic_code : Option DiagnosticCode

pub record ReceiptComposition : Type 0 where
  pub logical_call_id : String
  pub admission : Option VerifiedReceipt
  pub outcome : Option VerifiedReceipt
  pub diagnostic_code : Option DiagnosticCode
