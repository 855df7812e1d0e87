-- ===== src/Access/Signature.antt =====
-- `_b64url_decode`, `_parse_time` and `_signature_valid` of dagr_mcp_service/access.py.
use Prim.Native.String.{◌++◌ as text_append}
use dagr_mcp.Prelude.{
  ℕ, zero, String, Bool, false, ◌&&◌, ◌||◌, Option, none, some, List, [], ◌∷◌, Result, ok, raised,
  ◌>>=◌, str_eq, leb, ◌==◌, if◌then◌else◌,
}
use dagr_mcp.Python.{
  Value, null, boolean, integer, floating, str, list, tuple, mapping, Items, nil, cons, pos, Fields,
  end, field,
}
use dagr_mcp.Python.Base64.{urlsafe_b64decode, count}
use dagr_mcp.Python.Dict.{get, get_value, put}
use dagr_mcp.Python.Equality.{eq_value}
use dagr_mcp.Access.{AccessError, not_iterable, IsoTime, zoned, unzoned, Libraries}

-- `_b64url_decode`: none for no text, for an empty one, and where the decoding raises.
unfoldable pub b64url_decode : Value → Option (List ℕ)
unfolding urlsafe_b64decode
b64url_decode (str s) = if str_eq s "" then none else urlsafe_b64decode s
b64url_decode _ = none

-- `text.replace("Z", "+00:00")`
unfoldable pub replace_z : String → String
replace_z String.[] = ""
replace_z (String.◌∷◌ c s) =
    let rest = replace_z s in
    if str_eq (String.◌∷◌ c "") "Z" then text_append "+00:00" rest else String.◌∷◌ c rest

-- The moment of a time: one without a zone is taken as UTC.
abbrev pub moment : IsoTime → ℕ
moment (zoned t) = t
moment (unzoned t) = t

-- `str(value)`, where the value is a text already.
abbrev pub as_text : Libraries → Value → String
as_text lib (str s) = s
as_text lib v = lib.text_of v

-- `_parse_time(value)`; an absent key is a `KeyError`, which is caught with the rest.
unfoldable pub parse_time : Libraries → Option Value → Option ℕ
unfolding replace_z
parse_time lib none = none
parse_time lib (some v) = elim (lib.fromisoformat (replace_z (as_text lib v))) [
  | none ↦ none
  | some t ↦ some (moment t)
]

-- `isinstance(trust_bundle, Mapping)`, and `issuers or []` in a `for`: the keys of a mapping and the
-- characters of a text are no mappings, and drop out at once; a value that is false is as good as
-- the empty list; any other value cannot be iterated.
unfoldable pub issuers_of : Value → Result AccessError Items
issuers_of (list items) = ok items
issuers_of (tuple items) = ok items
issuers_of (mapping fields) = ok nil
issuers_of (str s) = ok nil
issuers_of null = ok nil
issuers_of (boolean false) = ok nil
issuers_of (integer (pos zero)) = ok nil
issuers_of (floating bits) =
    if bits == 0 || bits == 9223372036854775808 then ok nil else raised not_iterable
issuers_of _ = raised not_iterable

unfoldable pub issuers : Value → Result AccessError Items
unfolding issuers_of get
issuers (mapping bundle) = issuers_of (get_value bundle "issuers")
issuers _ = ok nil

module _ (lib : Libraries) where
  -- The entries with the key's id.
  unfoldable pub matching : Value → Items → List Fields
  unfolding eq_value get
  matching key_id nil = []
  matching key_id (cons (mapping entry) rest) =
      let more = matching key_id rest in
      if eq_value lib.eq_float (get_value entry "key_id") key_id then entry ∷ more else more
  matching key_id (cons v rest) = matching key_id rest

  -- `preimage["receipt_signature"]` without its `signature`.
  unfoldable pub without : String → Fields → Fields
  without key end = end
  without key (field k v rest) =
      let more = without key rest in if str_eq k key then rest else field k v more

  abbrev pub preimage_of : Fields → Fields → Value
  preimage_of envelope block =
      mapping (put envelope "receipt_signature" (mapping (without "signature" block)))

  abbrev pub has_length : ℕ → Option (List ℕ) → Bool
  has_length n none = false
  has_length n (some bytes) = count bytes == n

  -- `not_before <= issued_at <= not_after`, where all three are times.
  abbrev pub is_between : Option ℕ → Option ℕ → Option ℕ → Bool
  is_between (some a) (some t) (some b) = leb a t && leb t b
  is_between _ _ _ = false

  abbrev pub is_true : Option Value → Bool
  is_true (some (boolean b)) = b
  is_true _ = false

  -- The canonical bytes are signed: false where there are none.
  abbrev pub verified_by : List ℕ → List ℕ → Option (List ℕ) → Bool
  verified_by public_key signature none = false
  verified_by public_key signature (some canonical) = lib.verify public_key signature canonical

  abbrev pub verified_bytes : Option (List ℕ) → Option (List ℕ) → Option (List ℕ) → Bool
  verified_bytes (some public_key) (some signature) canonical =
      verified_by public_key signature canonical
  verified_bytes _ _ canonical = false

  -- The check of one entry, which is the only one with the key's id.
  unfoldable pub entry_valid : Fields → Fields → Fields → Bool
  unfolding get b64url_decode eq_value parse_time without
  entry_valid envelope block entry =
      let public_key = b64url_decode (get_value entry "public_key") in
      let signature = b64url_decode (get_value block "signature") in
      has_length 32 public_key
      && has_length 64 signature
      && verified_bytes public_key signature (lib.canonicalize (preimage_of envelope block))
      && is_true (get entry "trusted")
      && eq_value lib.eq_float (get_value entry "issuer_id") (get_value envelope "issuer_id")
      && is_between (parse_time lib (get entry "not_before"))
          (parse_time lib (get envelope "issued_at")) (parse_time lib (get entry "not_after"))

  abbrev pub single_valid : Fields → Fields → List Fields → Bool
  single_valid envelope block (entry ∷ []) = entry_valid envelope block entry
  single_valid envelope block _ = false

  -- What follows `signature = envelope["receipt_signature"]`.
  unfoldable pub block_valid : Fields → Value → Option Value → Result AccessError Bool
  unfolding issuers matching
  block_valid envelope trust_bundle (some (mapping block)) = issuers trust_bundle >>= λ items.
      ok (single_valid envelope block (matching (get_value block "key_id") items))
  block_valid envelope trust_bundle _ = ok false

  -- `_signature_valid`, of an envelope whose signature block passed the schema check.
  unfoldable pub signature_valid : Fields → Value → Result AccessError Bool
  unfolding get block_valid
  signature_valid envelope trust_bundle =
      block_valid envelope trust_bundle (get envelope "receipt_signature")
