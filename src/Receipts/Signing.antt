-- ===== src/Receipts/Signing.antt =====
-- `SigningIdentity.sign_envelope` of srs_receipts.py.
use dagr_mcp.Prelude.{ℕ, String, Option, none, some, List, Result, ok, raised, ◌>>=◌, ◌>>◌}
use dagr_mcp.Python.{Value, str, mapping, Fields, end, field}
use dagr_mcp.Python.Dict.{put}
use dagr_mcp.Receipts.{ReceiptError, not_canonicalizable, SigningIdentity}
use dagr_mcp.Receipts.Content.{enforce}

abbrev pub signature_block : String → Value
signature_block key_id = mapping (
    field "algorithm" (str "Ed25519")
      (field "canonicalization" (str "RFC8785-JCS") (field "key_id" (str key_id) end)))

abbrev pub signed_block : String → String → Value
signed_block key_id signature = mapping (
    field "algorithm" (str "Ed25519") (
      field "canonicalization" (str "RFC8785-JCS")
        (field "key_id" (str key_id) (field "signature" (str signature) end))))

abbrev pub or_not_canonicalizable : Option (List ℕ) → Result ReceiptError (List ℕ)
or_not_canonicalizable none = raised not_canonicalizable
or_not_canonicalizable (some bytes) = ok bytes

-- The bytes that are signed: the envelope with its signature block, less the signature.
abbrev pub preimage : SigningIdentity → Fields → Value
preimage identity envelope =
    mapping (put envelope "receipt_signature" (signature_block identity.key_id))

unfoldable pub sign_envelope : SigningIdentity → Fields → Result ReceiptError Fields
sign_envelope identity envelope = do
  enforce (mapping (put envelope "receipt_signature" (signed_block identity.key_id "")))
  canonical ← or_not_canonicalizable (identity.canonicalize (preimage identity envelope))
  let signed =
      put envelope "receipt_signature" (signed_block identity.key_id (identity.sign canonical))
  enforce (mapping signed)
  ok signed
