-- ===== src/Access/Roundtrip.antt =====
-- From `emit_admission` of srs_receipts.py to `resolve_receipt` of dagr_mcp_service/access.py.
use dagr_mcp.Prelude.{
  ℕ, String, ◌≡◌, refl, sym, ap, ◌∙◌, true, false, Option, some, List, ok, eq_iff,
}
use dagr_mcp.Python.{str, mapping, Fields}
use dagr_mcp.Python.Base64.{b64url_encode, count}
use dagr_mcp.Python.Base64.Inverse.{AreBytes}
use dagr_mcp.Python.Dict.{get, put, get-put, mem_text}
use dagr_mcp.Python.Sort.{reread, reread_fields}
use dagr_mcp.Receipts.{SigningIdentity}
use dagr_mcp.Receipts.Content.{enforce}
use dagr_mcp.Receipts.Sink.{file_name, Files, load}
use dagr_mcp.Receipts.Signing.{signed_block}
use dagr_mcp.Receipts.Envelope.{Stamp}
use dagr_mcp.Receipts.Emitter.{Emitter, AdmissionArguments, admission_envelope, emit_admission}
use dagr_mcp.Receipts.Stored.{seal-stored}
use dagr_mcp.Receipts.Profile.{admission_envelope-get}
use dagr_mcp.Receipts.Trust.{PublicPart, trust_bundle}
use dagr_mcp.Access.{admission, ReceiptHandle, ReceiptAccessConfig, Libraries}
use dagr_mcp.Access.Schema.{
  required_admission_fields, known_dispositions, mem_value, is_signature_block,
}
use dagr_mcp.Access.Signature.{is_between, parse_time, signature_valid}
use dagr_mcp.Access.Source.{fetch, directory_of}
use dagr_mcp.Access.Resolve.{associated, accept, resolve_receipt}
use dagr_mcp.Access.Sound.{HasPassed}
use dagr_mcp.Access.Reread.{enforce_fields-reread}
use dagr_mcp.Access.Trusted.{block, signed_block-reread, reread-get, signature_valid-trust_bundle}
use dagr_mcp.Access.Required.{
  base_keys, constant_fields, admission_envelope-required, has_all-reread, has_texts-reread,
}
use dagr_mcp.Access.Untupled.{put-Untupled, admission_envelope-Untupled}
use dagr_mcp.Access.Passing.{
  has_profile-facts, signature_block-passes, known-mem_value, envelope_schema_error-facts,
  fetch-directory_of, resolve_receipt-facts, no_context,
}

some_str_injective : {s t : String} → some (str s) ≡ some (str t) → s ≡ t
some_str_injective h = cc

no_context-associated : (lib : Libraries) (e : Fields) → associated lib no_context e ≡ true
unfolding associated
no_context-associated lib e = refl

abbrev pub admission_handle : String → Option String → ReceiptHandle
admission_handle id location = record {
  receipt_id = id;
  receipt_kind = admission;
  location_handle = location;
}

-- The configuration with the sink's own directory and the signer's own trust bundle.
abbrev pub own_config :
    (Fields → List ℕ) → SigningIdentity → PublicPart → Files → ReceiptAccessConfig
own_config dump identity public files = record {
  provider = fetch (directory_of dump files);
  trust_bundle = trust_bundle identity public;
  require_actor_context = false;
  require_tenant_context = false;
}

module _ (lib : Libraries) (emitter : Emitter) (stamp : Stamp) (a : AdmissionArguments) where
  module _ (public : PublicPart) (signature bytes : List ℕ) where
    -- What a stored admission passes when it is read back.
    admission-HasPassed :
        (handle : ReceiptHandle) {e : Fields}
        → admission_envelope emitter.identity stamp a ≡ ok e
        → enforce (
            mapping (
              put e "receipt_signature"
                (signed_block emitter.identity.key_id (b64url_encode signature))))
          ≡ ok tt
        → handle.receipt_id ≡ stamp.receipt_id
        → handle.receipt_kind ≡ admission
        → mem_text a.disposition known_dispositions ≡ true
        → signature_valid lib
            (reread_fields (
              put e "receipt_signature"
                (signed_block emitter.identity.key_id (b64url_encode signature))))
            (trust_bundle emitter.identity public)
          ≡ ok true
        → HasPassed lib (trust_bundle emitter.identity public) handle (
            reread_fields (
              put e "receipt_signature"
                (signed_block emitter.identity.key_id (b64url_encode signature))))
    unfolding reread enforce
    admission-HasPassed handle {e} built clean same_id same_kind known valid =
        let s = signed_block emitter.identity.key_id (b64url_encode signature) in
        let d = put e "receipt_signature" s in
        let (id, kind, call, tool, digest, disposition, registered, origin) =
          admission_envelope-get emitter.identity stamp a built in
        let (keys, own, texts, issuer, issued) =
          admission_envelope-required emitter.identity stamp a built in
        let its_block : get (reread_fields d) "receipt_signature"
            ≡ some (mapping (block emitter.identity.key_id (b64url_encode signature))) =
          reread-get d "receipt_signature" (get-put e "receipt_signature" "receipt_signature" s)
          ∙ ap some (signed_block-reread emitter.identity.key_id (b64url_encode signature)) in
        let its_id : get (reread_fields d) "receipt_id" ≡ some (str stamp.receipt_id) =
          reread-get d "receipt_id" (get-put e "receipt_signature" "receipt_id" s ∙ id) in
        let its_kind : get (reread_fields d) "receipt_kind" ≡ some (str "admission") =
          reread-get d "receipt_kind" (get-put e "receipt_signature" "receipt_kind" s ∙ kind) in
        let its_disposition : get (reread_fields d) "disposition" ≡ some (str a.disposition) =
          reread-get d "disposition"
            (get-put e "receipt_signature" "disposition" s ∙ disposition) in
        (
          envelope_schema_error-facts (reread_fields d)
              (has_profile-facts (reread_fields d)
                (has_all-reread base_keys e "receipt_signature" s keys) (rw its_block refl)
                (has_texts-reread constant_fields e "receipt_signature" s refl texts))
              (rw its_kind refl)
              (has_all-reread required_admission_fields e "receipt_signature" s own)
              (ap (λ o. mem_value o known_dispositions) its_disposition
                ∙ known-mem_value a.disposition known_dispositions known)
              (ap is_signature_block its_block ∙ signature_block-passes _ _),
          enforce_fields-reread d
              (put-Untupled e "receipt_signature" s refl
                (admission_envelope-Untupled emitter.identity stamp a built))
              clean,
          valid,
          rw (its_id, same_id) ((eq_iff stamp.receipt_id stamp.receipt_id).1 refl),
          rw (its_kind, same_kind) refl,
        )

  module _ (public : PublicPart) (signature : List ℕ → List ℕ) (dump : Fields → List ℕ) where
    -- An admission receipt that the emitter writes is resolved by its id, from the sink's directory
    -- and under the signer's own trust bundle, to the envelope on disk. It is so where the disposition
    -- is one that the profile knows, and the receipt was issued while the key is trusted; where the
    -- file's JSON is read as the envelope with its keys sorted, which does not change the canonical
    -- bytes; and where the signer's signatures have 64 bytes and verify under its key of 32.
    pub resolve_receipt-emit_admission :
        (files : Files) (location : Option String) {id : String}
        → (emit_admission emitter stamp a files).0 ≡ ok id
        → mem_text a.disposition known_dispositions ≡ true
        → is_between lib
            (parse_time lib (some (str public.not_before)))
            (parse_time lib (some (str stamp.issued_at)))
            (parse_time lib (some (str public.not_after)))
          ≡ true
        → ((e : Fields)
            → load (file_name id) (emit_admission emitter stamp a files).1 ≡ some e
            → lib.loads (dump e) ≡ some (mapping (reread_fields e)))
        → ((e : Fields)
            → lib.canonicalize (mapping (reread_fields e))
              ≡ emitter.identity.canonicalize (mapping e))
        → ((m : List ℕ) → emitter.identity.sign m ≡ b64url_encode (signature m))
        → ((m : List ℕ) → AreBytes (signature m))
        → ((m : List ℕ) → count (signature m) ≡ 64)
        → ((m : List ℕ) → lib.verify public.public_key_bytes (signature m) m ≡ true)
        → AreBytes public.public_key_bytes
        → count public.public_key_bytes ≡ 32
        → (e : Fields) × (load (file_name id) (emit_admission emitter stamp a files).1 ≡ some e)
          × (resolve_receipt lib
                (own_config dump emitter.identity public (emit_admission emitter stamp a files).1)
                no_context
                (admission_handle id location)
              ≡ ok (accept lib (admission_handle id location) (reread_fields e)))
    unfolding emit_admission
    resolve_receipt-emit_admission files location {id} h known time json same_bytes signs sb s64
          verifies kb k32 =
        let identity = emitter.identity in
        let (e, bytes, built, canonical, loaded, found, passed, clean) =
          seal-stored emitter (admission_envelope identity stamp a) files h in
        let own_id = (admission_envelope-get identity stamp a built).0 in
        let (keys, own, texts, issuer, issued) =
          admission_envelope-required identity stamp a built in
        let text = signs bytes in
        let d =
          put e "receipt_signature"
            (signed_block identity.key_id (b64url_encode (signature bytes))) in
        let written : put e "receipt_signature" (signed_block identity.key_id (identity.sign bytes))
            ≡ d =
          ap (λ s. put e "receipt_signature" (signed_block identity.key_id s)) text in
        let on_disk = loaded ∙ ap some written in
        let handle = admission_handle id location in
        (
          d,
          on_disk,
          resolve_receipt-facts lib
              (own_config dump identity public (emit_admission emitter stamp a files).1) no_context
              handle (dump d) (reread_fields d) refl refl
              (fetch-directory_of dump _ handle no_context on_disk) (json d on_disk)
              (admission-HasPassed public (signature bytes) bytes handle built
                (ap (λ f. enforce (mapping f)) (sym written) ∙ clean)
                (some_str_injective (sym found ∙ own_id)) refl known
                (signature_valid-trust_bundle lib identity public e bytes (signature bytes)
                  stamp.issued_at kb k32 (sb bytes) (s64 bytes) (verifies bytes)
                  (same_bytes _ ∙ canonical) issuer issued time))
              (no_context-associated lib (reread_fields d)),
        )
