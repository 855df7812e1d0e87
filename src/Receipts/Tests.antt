-- ===== src/Receipts/Tests.antt =====
-- Receipts of srs_receipts.py on a concrete identity and context.
use dagr_mcp.Prelude.{
  ℕ, String, ◌≡◌, refl, ◌⊎◌, true, false, Option, none, some, List, [], ◌∷◌, Result, ok, raised,
  str_eq,
}
use dagr_mcp.Python.{Value, boolean, floating, str, mapping, nil, Fields, end, field}
use dagr_mcp.Python.Dict.{get, put, mem_text}
use dagr_mcp.Python.Text.{codes, is_blank}
use dagr_mcp.Receipts.{
  ReceiptError, raw_content_key, sink_write_failed, cancellation_field_names, ReceiptContext,
  SigningIdentity,
}
use dagr_mcp.Receipts.Content.{enforce, is_private, has_marker}
use dagr_mcp.Receipts.Sink.{sanitize_from, file_name, load, write, save}
use dagr_mcp.Receipts.Signing.{signed_block, preimage, sign_envelope}
use dagr_mcp.Receipts.Envelope.{
  Stamp, sequence, common, common_fields, append_attestation_limits, append_limits, apply_fields,
  apply_binding_owned_fields,
}
use dagr_mcp.Receipts.Emitter.{
  Emitter, seal, AdmissionArguments, admission_envelope, emit_admission,
}
use dagr_mcp.Receipts.Clean.{Yields, in_mapping, this, is_raw, enforce-clean, enforce-raised}
use dagr_mcp.Receipts.Stored.{seal-stored, seal-raised}
use dagr_mcp.Receipts.Profile.{apply_binding_owned_fields-get}
use dagr_mcp.Receipts.Emitted.{emit_admission-stored}

-- Canonical bytes here tell the kinds of values apart, and refuse a float.
abbrev pub canonical : Value → Option (List ℕ)
canonical (floating bits) = none
canonical (str s) = some (codes s)
canonical (mapping fields) = some (123 ∷ [])
canonical _ = some (110 ∷ [])

abbrev pub identity : SigningIdentity
identity = record {
  issuer_id = "issuer:1";
  key_id = "key:1";
  canonicalize = canonical;
  sign = λ bytes. "c2ln";
}

abbrev pub context : ReceiptContext
context = record {
  runtime_instance_id = "runtime:1";
  boundary_id = "boundary:1";
  policy_pack_id = "pack:1";
  policy_pack_version = "v1";
  subject_ref = "subject:1";
  logical_call_id = "call:1";
  subject_ref_origin = some "binding_minted";
  actor_ref = none;
  tenant_id = some "";
  workspace_id = none;
  binding_version = "direct-harness.v0.1";
  parent_receipt_ref = none;
}

abbrev pub stamp : Stamp
stamp = record { receipt_id = "r:1"; issued_at = "2026-01-01T00:00:00Z" }

abbrev pub emitter : Emitter
emitter = record { identity = identity; disk = λ files name. true }

abbrev admission : AdmissionArguments
admission = record {
  context = context;
  requested_tool_name = "search";
  argument_digest = "sha256:00";
  disposition = "admitted";
  review_object_ref = none;
  retry_contract = none;
  reason_code = none;
  additional_attestation_limits = sequence nil;
}

abbrev small : Fields
small = field "receipt_id" (str "r:1") end

abbrev built_small : Result ReceiptError Fields
built_small = ok small

abbrev secret : Value
secret = mapping (field "password" (str "x") end)

-- Unsafe characters of a receipt id become one underscore each run.
file_name_example : file_name "a/:b.c" ≡ codes "a_b.c.json"
unfolding file_name sanitize_from
file_name_example = refl

emit_admission_runs : (emit_admission emitter stamp admission []).0 ≡ ok "r:1"
unfolding emit_admission seal admission_envelope common common_fields append_attestation_limits
    append_limits put get enforce is_private has_marker sign_envelope write save is_blank
emit_admission_runs = refl

abbrev the_envelope : Result ReceiptError Fields → Fields
the_envelope (ok e) = e
the_envelope (raised e) = end

abbrev admission_built : Fields
admission_built = the_envelope (admission_envelope identity stamp admission)

emit_admission-stored_example :
    ("r:1" ≡ stamp.receipt_id)
    × ((signed envelope : Fields) × (bytes : List ℕ) × (load
            (file_name "r:1")
            (emit_admission emitter stamp admission []).1
          ≡ some signed)
        × (get signed "logical_call_id" ≡ some (str "call:1"))
        × (get signed "requested_tool_name" ≡ some (str "search"))
        × (get signed "argument_digest" ≡ some (str "sha256:00"))
        × (get signed "disposition" ≡ some (str "admitted"))
        × (signed ≡ put envelope "receipt_signature" (signed_block "key:1" "c2ln"))
        × (admission_envelope identity stamp admission ≡ ok envelope)
        × (canonical (preimage identity envelope) ≡ some bytes))
emit_admission-stored_example = emit_admission-stored emitter stamp admission [] emit_admission_runs

seal_runs : (seal emitter built_small []).0 ≡ ok "r:1"
unfolding emit_admission seal admission_envelope common common_fields append_attestation_limits
    append_limits put get enforce is_private has_marker sign_envelope write save is_blank
seal_runs = refl

seal-stored_example :
    (envelope : Fields) × (bytes : List ℕ) × (built_small ≡ ok envelope)
    × (canonical (preimage identity envelope) ≡ some bytes)
    × (load (file_name "r:1") (seal emitter built_small []).1
        ≡ some (put envelope "receipt_signature" (signed_block "key:1" "c2ln")))
    × (get envelope "receipt_id" ≡ some (str "r:1"))
    × (enforce (mapping envelope) ≡ ok tt)
    × (enforce (mapping (put envelope "receipt_signature" (signed_block "key:1" "c2ln"))) ≡ ok tt)
seal-stored_example = seal-stored emitter built_small [] seal_runs

-- A full disk refuses the file.
abbrev full : Emitter
full = record { identity = identity; disk = λ files name. false }

seal_fails : (seal full built_small []).0 ≡ raised sink_write_failed
unfolding emit_admission seal admission_envelope common common_fields append_attestation_limits
    append_limits put get enforce is_private has_marker sign_envelope write save is_blank
seal_fails = refl

seal-raised_example : (seal full built_small []).1 ≡ []
seal-raised_example = seal-raised full built_small [] seal_fails

admission_envelope_runs : admission_envelope identity stamp admission ≡ ok admission_built
unfolding emit_admission seal admission_envelope common common_fields append_attestation_limits
    append_limits put get enforce is_private has_marker sign_envelope write save is_blank
admission_envelope_runs = refl

abbrev fact : Fields
fact = field "request_cancelled" (boolean true) end

abbrev with_fact : Fields
with_fact = field "receipt_id" (str "r:1") fact

apply_runs : apply_binding_owned_fields small "indeterminate" fact ≡ ok with_fact
unfolding apply_binding_owned_fields apply_fields put
apply_runs = refl

apply_binding_owned_fields-get_example :
    (mem_text "receipt_id" cancellation_field_names ≡ false
      → get with_fact "receipt_id" ≡ get small "receipt_id")
    × (str_eq "indeterminate" "indeterminate" ≡ false → with_fact ≡ small)
apply_binding_owned_fields-get_example =
    apply_binding_owned_fields-get fact small "indeterminate" "receipt_id" apply_runs

small_passes : enforce (mapping small) ≡ ok tt
unfolding enforce is_private has_marker
small_passes = refl

enforce-clean_example : (is_raw (some "receipt_id") ≡ false) × (is_private (str "r:1") ≡ false)
enforce-clean_example = enforce-clean small_passes (in_mapping this)

secret_fails : enforce secret ≡ raised raw_content_key
unfolding enforce is_private has_marker
secret_fails = refl

enforce-raised_example :
    (k : Option String) × (item : Value) × Yields secret k item
    × ((is_raw k ≡ true) ⊎ (is_private item ≡ true))
enforce-raised_example = enforce-raised secret secret_fails
