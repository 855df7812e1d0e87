-- ===== src/Receipts/Trust.antt =====
-- `SigningIdentity.trust_bundle` and `read_subject_ref_origin` of srs_receipts.py.
use dagr_mcp.Prelude.{ℕ, String, true, none, some, List, Result, ok, raised, if◌then◌else◌}
use dagr_mcp.Python.{Value, boolean, str, list, mapping, nil, cons, Fields, end, field}
use dagr_mcp.Python.Base64.{b64url_encode}
use dagr_mcp.Python.Dict.{get, mem_text}
use dagr_mcp.Receipts.{
  ReceiptError, origin_outside_vocabulary, subject_ref_origins, SigningIdentity,
}

-- The public part of an identity: the key's bytes, and the times between which it is trusted.
pub record PublicPart : Type 0 where
  pub public_key_bytes : List ℕ
  pub not_before : String
  pub not_after : String

unfoldable pub issuer_entry : SigningIdentity → PublicPart → Fields
issuer_entry identity public = field "issuer_id" (str identity.issuer_id) (
    field "key_id" (str identity.key_id) (
      field "algorithm" (str "Ed25519") (
        field "public_key" (str (b64url_encode public.public_key_bytes)) (
          field "not_before" (str public.not_before)
            (field "not_after" (str public.not_after) (field "trusted" (boolean true) end))))))

unfoldable pub trust_bundle : SigningIdentity → PublicPart → Value
unfolding issuer_entry
trust_bundle identity public = mapping (
    field "trust_bundle_version" (str "srs.trust_bundle.v0.1")
      (field "issuers" (list (cons (mapping (issuer_entry identity public)) nil)) end))

-- The origin that a receipt declares, and `not_declared` for none.
unfoldable pub read_subject_ref_origin : Fields → Result ReceiptError String
unfolding get
read_subject_ref_origin receipt = elim (get receipt "subject_ref_origin") [
  | none ↦ ok "not_declared"
  | some (str origin) ↦
      if mem_text origin subject_ref_origins then ok origin else raised origin_outside_vocabulary
  | some v ↦ raised origin_outside_vocabulary
]
