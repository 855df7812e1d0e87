-- ===== src/Access/Tests.antt =====
-- The receipt access service on a concrete admission receipt.
use dagr_mcp.Prelude.{
  ℕ, zero, suc, String, ◌≡◌, refl, arith, sym, ap, ◌∙◌, true, false, Option, none, some, List, [],
  ◌∷◌, ok, raised, str_eq, if◌then◌else◌,
}
use dagr_mcp.Python.{Value, str, list, mapping, nil, Fields, end}
use dagr_mcp.Python.Base64.{b64url_encode}
use dagr_mcp.Python.Base64.Inverse.{AreBytes}
use dagr_mcp.Python.Dict.{get, put, mem_text}
use dagr_mcp.Python.Sort.{reread, get-reread_fields, reread_found, reread_fields}
use dagr_mcp.Python.Text.{is_blank}
use dagr_mcp.Receipts.{SigningIdentity}
use dagr_mcp.Receipts.Content.{enforce, is_private, has_marker}
use dagr_mcp.Receipts.Sink.{Files, file_name, sanitize_from, load, write, save, store}
use dagr_mcp.Receipts.Signing.{sign_envelope}
use dagr_mcp.Receipts.Envelope.{
  sequence, common, common_fields, append_attestation_limits, append_limits,
}
use dagr_mcp.Receipts.Emitter.{
  Emitter, seal, AdmissionArguments, admission_envelope, emit_admission,
}
use dagr_mcp.Receipts.Trust.{PublicPart}
use dagr_mcp.Receipts.Tests.{context, stamp}
use dagr_mcp.Access.{
  IsoTime, zoned, Libraries, ReceiptHandle, ReceiptAccessConfig, VerifiedReceipt,
  ReceiptComposition, unhashable, admission, outcome,
}
use dagr_mcp.Access.Schema.{known_dispositions, mem_value}
use dagr_mcp.Access.Signature.{b64url_decode, is_between, parse_time, replace_z}
use dagr_mcp.Access.Resolve.{accept, associated, resolve_receipt}
use dagr_mcp.Access.Compose.{belong, compose_receipts, compose_parts, of_kind, resolve_part, join}
use dagr_mcp.Access.Sound.{HasPassed, resolve_receipt-verified}
use dagr_mcp.Access.Fits.{Fits}
use dagr_mcp.Access.Trusted.{b64url_decode-b64url_encode}
use dagr_mcp.Access.Composed.{Resolved, compose_receipts-composed}
use dagr_mcp.Access.Passing.{no_context}
use dagr_mcp.Access.Roundtrip.{admission_handle, own_config, resolve_receipt-emit_admission}

abbrev zeros : ℕ → List ℕ
zeros zero = []
zeros (suc n) = 0 ∷ zeros n

abbrev canonical : Value → Option (List ℕ)
canonical v = some (1 ∷ [])

abbrev identity : SigningIdentity
identity = record {
  issuer_id = "issuer:1";
  key_id = "key:1";
  canonicalize = canonical;
  sign = λ bytes. b64url_encode (zeros 64);
}

abbrev public : PublicPart
public = record {
  public_key_bytes = zeros 32;
  not_before = "2026-01-01T00:00:00Z";
  not_after = "2036-01-01T00:00:00Z";
}

abbrev emitter : Emitter
emitter = record { identity = identity; disk = λ files name. true }

abbrev arguments : AdmissionArguments
arguments = record {
  context = context;
  requested_tool_name = "search";
  argument_digest = "sha256:00";
  disposition = "admitted";
  review_object_ref = none;
  retry_contract = none;
  reason_code = none;
  additional_attestation_limits = sequence nil;
}

emit_runs : (emit_admission emitter stamp arguments []).0 ≡ ok "r:1"
unfolding emit_admission seal admission_envelope common common_fields append_attestation_limits
    append_limits put get enforce is_private has_marker sign_envelope write save is_blank
    b64url_encode
emit_runs = refl

abbrev files : Files
files = (emit_admission emitter stamp arguments []).1

abbrev the_fields : Option Fields → Fields
the_fields none = end
the_fields (some e) = e

abbrev on_disk : Fields
on_disk = the_fields (load (file_name "r:1") files)

-- The texts of the times, after `Z` is replaced.
abbrev year : String → Option IsoTime
year s = if str_eq s "2036-01-01T00:00:00+00:00" then some (zoned 2036) else some (zoned 2026)

abbrev library : Libraries
library = record {
  loads = λ raw. some (mapping (reread_fields on_disk));
  canonicalize = canonical;
  verify = λ key signature message. true;
  fromisoformat = year;
  text_of = λ v. "";
  eq_float = λ v w. false;
}

abbrev dump : Fields → List ℕ
dump e = 123 ∷ []

in_window :
    is_between library
      (parse_time library (some (str "2026-01-01T00:00:00Z")))
      (parse_time library (some (str stamp.issued_at)))
      (parse_time library (some (str "2036-01-01T00:00:00Z")))
    ≡ true
unfolding parse_time replace_z
in_window = refl

known : mem_text "admitted" known_dispositions ≡ true
known = refl

json :
    (e : Fields)
    → load (file_name "r:1") files ≡ some e
    → library.loads (dump e) ≡ some (mapping (reread_fields e))
json e h = ap (λ o. some (mapping (reread_fields (the_fields o)))) h

zeros-AreBytes : (n : ℕ) → AreBytes (zeros n)
zeros-AreBytes zero = tt
zeros-AreBytes (suc n) = (omega arith, zeros-AreBytes n)

resolve_receipt-emit_admission_example :
    (e : Fields) × (load (file_name "r:1") files ≡ some e)
    × (resolve_receipt library
          (own_config dump identity public files)
          no_context
          (admission_handle "r:1" none)
        ≡ ok (accept library (admission_handle "r:1" none) (reread_fields e)))
resolve_receipt-emit_admission_example =
    resolve_receipt-emit_admission library emitter stamp arguments public (λ m. zeros 64) dump []
      none emit_runs known in_window json (λ e. refl) (λ m. refl) (λ m. zeros-AreBytes 64)
      (λ m. refl) (λ m. refl) (zeros-AreBytes 32) refl

abbrev config : ReceiptAccessConfig
config = own_config dump identity public files

abbrev handle : ReceiptHandle
handle = admission_handle "r:1" none

abbrev verified : VerifiedReceipt
verified = record { handle = handle; envelope = reread_fields on_disk }

resolve_runs :
    resolve_receipt library config no_context handle
    ≡ ok (accept library handle (reread_fields on_disk))
resolve_runs =
    let (e, found, resolved) = resolve_receipt-emit_admission_example in
    resolved ∙ ap (λ o. ok (accept library handle (reread_fields (the_fields o)))) (sym found)

resolve_receipt-verified_example :
    (handle ≡ handle)
    × ((raw : List ℕ) × (config.provider handle no_context ≡ ok raw)
        × (library.loads raw ≡ some (mapping verified.envelope)))
    × HasPassed library config.trust_bundle handle verified.envelope
    × (associated library no_context verified.envelope ≡ true)
resolve_receipt-verified_example =
    resolve_receipt-verified library config no_context handle resolve_runs refl

abbrev composed : ReceiptComposition
composed = record {
  logical_call_id = "call:1";
  admission = some verified;
  outcome = none;
  diagnostic_code = none;
}

call_on_disk : get on_disk "logical_call_id" ≡ some (str "call:1")
unfolding emit_admission seal admission_envelope common common_fields append_attestation_limits
    append_limits put get enforce is_private has_marker sign_envelope write save is_blank
    b64url_encode store load file_name sanitize_from
call_on_disk = refl

belongs : belong library "call:1" none (some verified) none ≡ true
unfolding belong reread
belongs = rw (get-reread_fields on_disk "logical_call_id" ∙ ap reread_found call_on_disk) refl

compose_runs : compose_receipts library config no_context (handle ∷ []) "call:1" none ≡ ok composed
unfolding compose_receipts compose_parts resolve_part of_kind join is_blank
compose_runs = rw (resolve_runs, belongs) refl

compose_receipts-composed_example :
    Fits library "call:1" none (some verified) none
    × Resolved library config no_context (handle ∷ []) admission (some verified)
    × Resolved library config no_context (handle ∷ []) outcome none
compose_receipts-composed_example =
    compose_receipts-composed library config no_context (handle ∷ []) "call:1" none compose_runs
      refl

b64url_decode-b64url_encode_example :
    b64url_decode (str (b64url_encode (0 ∷ 255 ∷ 7 ∷ 62 ∷ []))) ≡ some (0 ∷ 255 ∷ 7 ∷ 62 ∷ [])
b64url_decode-b64url_encode_example =
    b64url_decode-b64url_encode (0 ∷ 255 ∷ 7 ∷ 62 ∷ []) (omega arith)

-- A `disposition` that is a list cannot be looked up in the set: it is no schema failure.
unhashable_disposition : mem_value (some (list nil)) known_dispositions ≡ raised unhashable
unfolding mem_value
unhashable_disposition = refl
