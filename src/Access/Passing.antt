-- ===== src/Access/Passing.antt =====
-- What makes `resolve_receipt` of dagr_mcp_service/access.py verify a receipt.
use dagr_mcp.Prelude.{
  ℕ, String, ◌≡◌, refl, sym, ap, ◌∙◌, true, false, ◌++◌, none, some, List, [], ◌∷◌, ok, arith,
  if_true, if_false, Bool-cases, inl, inr,
}
use dagr_mcp.Python.{Value, str, mapping, Fields}
use dagr_mcp.Python.Dict.{get, has, mem_text}
use dagr_mcp.Python.Text.{eq_codes}
use dagr_mcp.Receipts.Sink.{file_name, Files, load}
use dagr_mcp.Access.{ReceiptHandle, ReceiptAccessConfig, ReceiptAccessContext, Libraries}
use dagr_mcp.Access.Schema.{
  required_base_fields, required_admission_fields, known_dispositions, has_all, is_text, mem_value,
  is_signature_block, has_profile, envelope_schema_error,
}
use dagr_mcp.Access.Source.{regular, entry_at, bytes_of, fetch, directory_of}
use dagr_mcp.Access.Resolve.{
  accepted, match_handle, verify_envelope, verify_and_parse_envelope, associated, conclude, accept,
  lacks, parsed_mapping, resolve_receipt,
}
use dagr_mcp.Access.Sound.{HasPassed}
use dagr_mcp.Access.Reread.{and_parts}
use dagr_mcp.Access.Trusted.{block}
use dagr_mcp.Access.Required.{base_keys, constant_fields, has_texts}

has_all-snoc :
    (keys : List String) (k : String) (e : Fields)
    → has_all keys e ≡ true
    → has e k ≡ true
    → has_all (keys ++ (k ∷ [])) e ≡ true
unfolding has_all
has_all-snoc [] k e h n = rw n
has_all-snoc (key ∷ keys) k e h n =
    let (first, more) = and_parts (has e key) (has_all keys e) h in
    rw first (has_all-snoc keys k e more n)

pub has_profile-facts :
    (e : Fields)
    → has_all base_keys e ≡ true
    → has e "receipt_signature" ≡ true
    → has_texts constant_fields e ≡ true
    → has_profile e ≡ true
unfolding has_profile
has_profile-facts e h n t =
    let (t0, r0) =
      and_parts (is_text (get e "receipt_version") "srs.core.v5.1")
        (has_texts
          (("profile_id", "srs.mcp.sdk_enforcement")
            ∷ ("profile_version", "v0.1")
            ∷ ("receipt_type", "sdk_enforcement")
            ∷ ("boundary_type", "mcp_tool_call")
            ∷ ("protocol_binding", "mcp")
            ∷ [])
          e)
        t in
    let (t1, r1) =
      and_parts (is_text (get e "profile_id") "srs.mcp.sdk_enforcement")
        (has_texts
          (("profile_version", "v0.1")
            ∷ ("receipt_type", "sdk_enforcement")
            ∷ ("boundary_type", "mcp_tool_call")
            ∷ ("protocol_binding", "mcp")
            ∷ [])
          e)
        r0 in
    let (t2, r2) =
      and_parts (is_text (get e "profile_version") "v0.1")
        (has_texts
          (("receipt_type", "sdk_enforcement")
            ∷ ("boundary_type", "mcp_tool_call")
            ∷ ("protocol_binding", "mcp")
            ∷ [])
          e)
        r1 in
    let (t3, r3) =
      and_parts (is_text (get e "receipt_type") "sdk_enforcement")
        (has_texts (("boundary_type", "mcp_tool_call") ∷ ("protocol_binding", "mcp") ∷ []) e) r2 in
    let (t4, r4) =
      and_parts (is_text (get e "boundary_type") "mcp_tool_call")
        (has_texts (("protocol_binding", "mcp") ∷ []) e) r3 in
    let (t5, r5) = and_parts (is_text (get e "protocol_binding") "mcp") (has_texts ([]) e) r4 in
    let every : has_all required_base_fields e ≡ true =
      has_all-snoc base_keys "receipt_signature" e h n in
    rw (every, t0, t1, t2, t3, t4, t5) refl

pub signature_block-passes :
    (key_id signature : String)
    → is_signature_block (some (mapping (block key_id signature))) ≡ true
unfolding is_signature_block has_all get
signature_block-passes key_id signature = refl

pub known-mem_value :
    (s : String) (texts : List String)
    → mem_text s texts ≡ true
    → mem_value (some (str s)) texts ≡ ok true
unfolding mem_value
known-mem_value s texts h = ap ok h

pub envelope_schema_error-facts :
    (e : Fields)
    → has_profile e ≡ true
    → is_text (get e "receipt_kind") "admission" ≡ true
    → has_all required_admission_fields e ≡ true
    → mem_value (get e "disposition") known_dispositions ≡ ok true
    → is_signature_block (get e "receipt_signature") ≡ true
    → envelope_schema_error e ≡ ok false
unfolding envelope_schema_error
envelope_schema_error-facts e p k a d s = rw (p, k, a, d, s)

some-injective : {x y : Fields} → some x ≡ some y → x ≡ y
some-injective h = cc

entry_at-directory_of :
    (dump : Fields → List ℕ) (name : List ℕ) (files : Files) {e : Fields}
    → load name files ≡ some e
    → entry_at name (directory_of dump files) ≡ some (regular (dump e))
unfolding entry_at load
entry_at-directory_of dump name [] h = absurd (ground arith)
entry_at-directory_of dump name ((n, e₁) ∷ files) h = elim (Bool-cases (eq_codes n name)) [
  | inl p ↦ rw p (ap (λ x. some (regular (dump x))) (some-injective (sym (if_true _ _ _ p) ∙ h)))
  | inr p ↦ rw p (entry_at-directory_of dump name files (sym (if_false _ _ _ p) ∙ h))
]

verify_envelope-intro :
    (lib : Libraries) (e : Fields) (handle : ReceiptHandle) (bundle : Value)
    → HasPassed lib bundle handle e
    → verify_envelope lib e handle bundle ≡ ok (accepted e)
unfolding verify_envelope match_handle
verify_envelope-intro lib e handle bundle (schema, clean, signed, id, kind) =
    rw (schema, clean, signed, id, kind)

pub fetch-directory_of :
    (dump : Fields → List ℕ) (files : Files) (handle : ReceiptHandle)
    (context : ReceiptAccessContext) {e : Fields}
    → load (file_name handle.receipt_id) files ≡ some e
    → fetch (directory_of dump files) handle context ≡ ok (dump e)
unfolding fetch
fetch-directory_of dump files handle context h =
    ap bytes_of (entry_at-directory_of dump (file_name handle.receipt_id) files h)

verify_and_parse_envelope-facts :
    (lib : Libraries) (raw : List ℕ) (handle : ReceiptHandle) (bundle : Value) (e : Fields)
    → lib.loads raw ≡ some (mapping e)
    → HasPassed lib bundle handle e
    → verify_and_parse_envelope lib raw handle bundle ≡ ok (accepted e)
unfolding verify_and_parse_envelope
verify_and_parse_envelope-facts lib raw handle bundle e l passed =
    let parsed : parsed_mapping (lib.loads raw) ≡ some e = ap parsed_mapping l in
    rw (verify_and_parse_envelope, parsed) (verify_envelope-intro lib e handle bundle passed)

-- A receipt whose bytes are fetched, parse to an envelope that passes, and belong to the context.
pub resolve_receipt-facts :
    (lib : Libraries) (config : ReceiptAccessConfig) (context : ReceiptAccessContext)
    (handle : ReceiptHandle) (raw : List ℕ) (e : Fields)
    → lacks lib config.require_actor_context context.actor_ref ≡ false
    → lacks lib config.require_tenant_context context.tenant_ref ≡ false
    → config.provider handle context ≡ ok raw
    → lib.loads raw ≡ some (mapping e)
    → HasPassed lib config.trust_bundle handle e
    → associated lib context e ≡ true
    → resolve_receipt lib config context handle ≡ ok (accept lib handle e)
unfolding resolve_receipt conclude verify_and_parse_envelope
resolve_receipt-facts lib config context handle raw e a t p l passed fits =
    let verified : verify_and_parse_envelope lib raw handle config.trust_bundle ≡ ok (accepted e) =
      verify_and_parse_envelope-facts lib raw handle config.trust_bundle e l passed in
    rw (a, t, p, verified, fits) refl

-- The context of a call that passes none.
abbrev pub no_context : ReceiptAccessContext
no_context = record { actor_ref = none; tenant_ref = none; request_ref = none }
