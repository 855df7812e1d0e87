-- ===== src/Receipts/Emitted.antt =====
-- What an admission receipt on disk says, by `emit_admission` of srs_receipts.py.
use dagr_mcp.Prelude.{ℕ, String, ◌≡◌, refl, sym, ◌∙◌, some, List, ok}
use dagr_mcp.Python.{str, Fields}
use dagr_mcp.Python.Dict.{get, put, get-put}
use dagr_mcp.Receipts.Sink.{file_name, Files, load}
use dagr_mcp.Receipts.Signing.{signed_block, preimage}
use dagr_mcp.Receipts.Envelope.{Stamp}
use dagr_mcp.Receipts.Emitter.{Emitter, AdmissionArguments, admission_envelope, emit_admission}
use dagr_mcp.Receipts.Stored.{seal-stored}
use dagr_mcp.Receipts.Profile.{admission_envelope-get}

some-str-injective : {s t : String} → some (str s) ≡ some (str t) → s ≡ t
some-str-injective h = cc

-- An admission emission that returns gives the receipt's own id, and the file of that id holds the
-- admission envelope with the signature of its preimage's canonical bytes; that envelope holds the
-- call, the tool, the digest of the arguments and the disposition that were passed.
pub emit_admission-stored :
    (emitter : Emitter) (stamp : Stamp) (a : AdmissionArguments) (files : Files) {id : String}
    → (emit_admission emitter stamp a files).0 ≡ ok id
    → (id ≡ stamp.receipt_id)
      × ((signed envelope : Fields) × (bytes : List ℕ) × (load
              (file_name id)
              (emit_admission emitter stamp a files).1
            ≡ some signed)
          × (get signed "logical_call_id" ≡ some (str a.context.logical_call_id))
          × (get signed "requested_tool_name" ≡ some (str a.requested_tool_name))
          × (get signed "argument_digest" ≡ some (str a.argument_digest))
          × (get signed "disposition" ≡ some (str a.disposition))
          × (signed
              ≡ put envelope "receipt_signature"
                  (signed_block emitter.identity.key_id (emitter.identity.sign bytes)))
          × (admission_envelope emitter.identity stamp a ≡ ok envelope)
          × (emitter.identity.canonicalize (preimage emitter.identity envelope) ≡ some bytes))
unfolding emit_admission
emit_admission-stored emitter stamp a files h =
    let (envelope, bytes, e, canonical, loaded, found, passed, clean) =
      seal-stored emitter (admission_envelope emitter.identity stamp a) files h in
    let (id, kind, call, tool, digest, disposition, registered, known) =
      admission_envelope-get emitter.identity stamp a e in
    (
      some-str-injective (sym found ∙ id),
      (
        _,
        envelope,
        bytes,
        loaded,
        get-put envelope "receipt_signature" "logical_call_id" _ ∙ call,
        get-put envelope "receipt_signature" "requested_tool_name" _ ∙ tool,
        get-put envelope "receipt_signature" "argument_digest" _ ∙ digest,
        get-put envelope "receipt_signature" "disposition" _ ∙ disposition,
        refl,
        e,
        canonical,
      ),
    )
