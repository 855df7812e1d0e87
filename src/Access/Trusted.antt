-- ===== src/Access/Trusted.antt =====
-- That `_signature_valid` of dagr_mcp_service/access.py accepts what `SigningIdentity` of
-- srs_receipts.py signs.
use dagr_mcp.Prelude.{
  ℕ, String, ◌≡◌, refl, sym, ap, ◌∙◌, true, Option, none, some, List, [], ◌∷◌, ok, arith, str_eq,
  eq_iff, ◌==◌, ◌<◌, Bool-cases, inl, inr,
}
use dagr_mcp.Python.{Value, boolean, str, mapping, Items, nil, cons, Fields, end, field}
use dagr_mcp.Python.Base64.{b64url_encode, urlsafe_b64decode, count, scan}
use dagr_mcp.Python.Base64.Inverse.{AreBytes, urlsafe_b64decode-b64url_encode}
use dagr_mcp.Python.Dict.{get, has, get_value, put, get-put, put-put}
use dagr_mcp.Python.Equality.{eq_value, eq_scalar}
use dagr_mcp.Python.Sort.{
  reread, reread_fields, insert_field, put-reread_fields, get-reread_fields, reread_found,
}
use dagr_mcp.Receipts.{SigningIdentity}
use dagr_mcp.Receipts.Signing.{signature_block, signed_block}
use dagr_mcp.Receipts.Trust.{PublicPart, issuer_entry, trust_bundle}
use dagr_mcp.Access.{Libraries}
use dagr_mcp.Access.Signature.{
  b64url_decode, parse_time, issuers, issuers_of, matching, without, preimage_of, is_between,
  entry_valid, block_valid, signature_valid,
}

abbrev pub block : String → String → Fields
block key_id signature = field "algorithm" (str "Ed25519") (
    field "canonicalization" (str "RFC8785-JCS")
      (field "key_id" (str key_id) (field "signature" (str signature) end)))

some-injective : {a b : List ℕ} → some a ≡ some b → a ≡ b
some-injective h = cc

decoded_empty : urlsafe_b64decode "" ≡ some []
unfolding urlsafe_b64decode scan
decoded_empty = refl

decoded_bytes :
    (bytes : List ℕ)
    → AreBytes bytes
    → 0 < count bytes
    → b64url_decode (str (b64url_encode bytes)) ≡ some bytes
unfolding b64url_decode
decoded_bytes bytes h n = elim (Bool-cases (str_eq (b64url_encode bytes) "")) [
  | inl e ↦
      let empty : [] ≡ bytes = some-injective (
        sym decoded_empty
        ∙ ap urlsafe_b64decode (sym ((eq_iff (b64url_encode bytes) "").0 e))
        ∙ urlsafe_b64decode-b64url_encode bytes h) in
      let none_there : 0 ≡ count bytes = ap count empty in absurd (omega arith)
  | inr e ↦ rw e (urlsafe_b64decode-b64url_encode bytes h)
]

abbrev unless_empty : List ℕ → Option (List ℕ)
unless_empty [] = none
unless_empty (b ∷ rest) = some (b ∷ rest)

-- Decoding the text that some bytes are encoded to gives them back, where there is a byte; the text
-- of no bytes is empty, and is refused.
pub b64url_decode-b64url_encode :
    (bytes : List ℕ)
    → AreBytes bytes
    → b64url_decode (str (b64url_encode bytes)) ≡ unless_empty bytes
unfolding b64url_decode b64url_encode
b64url_decode-b64url_encode [] h = refl
b64url_decode-b64url_encode (b ∷ rest) h = decoded_bytes (b ∷ rest) h (omega arith)

signature_block-reread :
    (key_id : String) → reread (signature_block key_id) ≡ signature_block key_id
unfolding reread insert_field
signature_block-reread key_id = refl

pub signed_block-reread :
    (key_id signature : String)
    → reread (signed_block key_id signature) ≡ mapping (block key_id signature)
unfolding reread insert_field
signed_block-reread key_id signature = refl

str_eq_refl : (s : String) → str_eq s s ≡ true
str_eq_refl s = (eq_iff s s).1 refl

pub reread-get :
    (d : Fields) (key : String) {v : Value}
    → get d key ≡ some v
    → get (reread_fields d) key ≡ some (reread v)
reread-get d key h = get-reread_fields d key ∙ ap reread_found h

module _ (lib : Libraries) where
  eq_value_str : (s : String) → eq_value lib.eq_float (str s) (str s) ≡ true
  unfolding eq_value eq_scalar
  eq_value_str s = str_eq_refl s

  put-without :
      (envelope : Fields) (key_id signature : String)
      → preimage_of lib envelope (block key_id signature)
        ≡ mapping (put envelope "receipt_signature" (signature_block key_id))
  unfolding without
  put-without envelope key_id signature = refl

  -- The bytes that are verified are those of the preimage that was signed, read back.
  preimage-reread :
      (envelope : Fields) (key_id signature : String)
      → preimage_of lib
          (reread_fields (put envelope "receipt_signature" (signed_block key_id signature)))
          (block key_id signature)
        ≡ mapping (reread_fields (put envelope "receipt_signature" (signature_block key_id)))
  preimage-reread envelope key_id signature =
      let signed = put envelope "receipt_signature" (signed_block key_id signature) in
      let there : has signed "receipt_signature" ≡ true = rw (
        get-put envelope "receipt_signature" "receipt_signature" (signed_block key_id signature)) in
      put-without (reread_fields signed) key_id signature
      ∙ ap (λ b. mapping (put (reread_fields signed) "receipt_signature" b))
          (sym (signature_block-reread key_id))
      ∙ ap mapping (put-reread_fields signed "receipt_signature" (signature_block key_id) there)
      ∙ ap (λ d. mapping (reread_fields d)) (put-put envelope "receipt_signature" _ _)

  matching-entry :
      (identity : SigningIdentity) (public : PublicPart)
      → matching lib (str identity.key_id) (cons (mapping (issuer_entry identity public)) nil)
        ≡ issuer_entry identity public ∷ []
  unfolding matching get issuer_entry
  matching-entry identity public = rw (eq_value_str identity.key_id)

  equal_count : (m n : ℕ) → m ≡ n → m == n ≡ true
  equal_count m n h = ground arith

  entry_valid-facts :
      (envelope b entry : Fields) (public_key signature bytes : List ℕ)
      (issuer_id issued_at : String)
      → b64url_decode (get_value entry "public_key") ≡ some public_key
      → count public_key ≡ 32
      → b64url_decode (get_value b "signature") ≡ some signature
      → count signature ≡ 64
      → lib.canonicalize (preimage_of lib envelope b) ≡ some bytes
      → lib.verify public_key signature bytes ≡ true
      → get entry "trusted" ≡ some (boolean true)
      → get entry "issuer_id" ≡ some (str issuer_id)
      → get envelope "issuer_id" ≡ some (str issuer_id)
      → get envelope "issued_at" ≡ some (str issued_at)
      → is_between lib
          (parse_time lib (get entry "not_before"))
          (parse_time lib (some (str issued_at)))
          (parse_time lib (get entry "not_after"))
        ≡ true
      → entry_valid lib envelope b entry ≡ true
  unfolding entry_valid
  entry_valid-facts envelope b entry public_key signature bytes issuer_id issued_at k k32 s s64 c v
        t i i₁ time between =
      rw (
        k,
        s,
        c,
        v,
        t,
        i,
        i₁,
        time,
        between,
        equal_count (count public_key) 32 k32,
        equal_count (count signature) 64 s64,
        eq_value_str issuer_id,
      )

  signature_valid-facts :
      (envelope b entry : Fields) (bundle : Value) (items : Items)
      → get envelope "receipt_signature" ≡ some (mapping b)
      → issuers bundle ≡ ok items
      → matching lib (get_value b "key_id") items ≡ entry ∷ []
      → entry_valid lib envelope b entry ≡ true
      → signature_valid lib envelope bundle ≡ ok true
  unfolding signature_valid block_valid
  signature_valid-facts envelope b entry bundle items its_block i m valid =
      ap (block_valid lib envelope bundle) its_block ∙ rw (i, m, valid)

  module _ (identity : SigningIdentity) (public : PublicPart) where
    issuers-trust_bundle :
        issuers (trust_bundle identity public)
        ≡ ok (cons (mapping (issuer_entry identity public)) nil)
    unfolding issuers issuers_of trust_bundle get
    issuers-trust_bundle = refl

    -- The one entry of the identity's own trust bundle accepts the signed envelope, read back: the
    -- signature is over the bytes that both sides make of the preimage.
    pub signature_valid-trust_bundle :
        (envelope : Fields) (bytes signature : List ℕ) (issued_at : String)
        → AreBytes public.public_key_bytes
        → count public.public_key_bytes ≡ 32
        → AreBytes signature
        → count signature ≡ 64
        → lib.verify public.public_key_bytes signature bytes ≡ true
        → lib.canonicalize (
            mapping
              (reread_fields (put envelope "receipt_signature" (signature_block identity.key_id))))
          ≡ some bytes
        → get envelope "issuer_id" ≡ some (str identity.issuer_id)
        → get envelope "issued_at" ≡ some (str issued_at)
        → is_between lib
            (parse_time lib (some (str public.not_before)))
            (parse_time lib (some (str issued_at)))
            (parse_time lib (some (str public.not_after)))
          ≡ true
        → signature_valid lib
            (reread_fields (
              put envelope "receipt_signature"
                (signed_block identity.key_id (b64url_encode signature))))
            (trust_bundle identity public)
          ≡ ok true
    unfolding get issuer_entry reread
    signature_valid-trust_bundle envelope bytes signature issued_at kb k32 sb s64 verified canonical
          issuer issued time =
        let text = b64url_encode signature in
        let put_block = put envelope "receipt_signature" (signed_block identity.key_id text) in
        signature_valid-facts (reread_fields put_block) (block identity.key_id text)
          (issuer_entry identity public) (trust_bundle identity public) _
          (reread-get put_block "receipt_signature"
              (get-put envelope "receipt_signature" "receipt_signature" _)
            ∙ ap some (signed_block-reread identity.key_id text))
          (issuers-trust_bundle) (matching-entry identity public)
          (entry_valid-facts (reread_fields put_block) (block identity.key_id text)
            (issuer_entry identity public) public.public_key_bytes signature bytes
            identity.issuer_id issued_at (decoded_bytes public.public_key_bytes kb (omega arith))
            k32 (decoded_bytes signature sb (omega arith)) s64
            (ap lib.canonicalize (preimage-reread envelope identity.key_id text) ∙ canonical)
            verified refl refl
            (reread-get put_block "issuer_id"
              (get-put envelope "receipt_signature" "issuer_id" _ ∙ issuer))
            (reread-get put_block "issued_at"
              (get-put envelope "receipt_signature" "issued_at" _ ∙ issued))
            time)
