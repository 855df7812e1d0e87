-- ===== src/Access/Reread.antt =====
-- What the exclusion of raw content, of srs_receipts.py, says of a receipt that is read back.
use dagr_mcp.Prelude.{
  String, ◌≡◌, refl, ◌∙◌, Bool, true, false, ◌&&◌, ok, arith, Bool-cases, inl, inr,
}
use dagr_mcp.Python.{
  Value, null, boolean, integer, floating, str, list, tuple, mapping, opaque, Items, nil, cons,
  Fields, end, field,
}
use dagr_mcp.Python.Dict.{mem_text}
use dagr_mcp.Python.Text.{codes, leb_codes}
use dagr_mcp.Python.Sort.{insert_field, reread, reread_fields, reread_items}
use dagr_mcp.Receipts.{raw_keys}
use dagr_mcp.Receipts.Content.{enforce, enforce_fields, enforce_items, is_private}
use dagr_mcp.Receipts.Clean.{enforce_fields-inv, enforce_items-inv}

-- No tuple stands anywhere in the value.
abbrev mutual
  pub has_no_tuple : Value → Bool
  has_no_tuple (mapping fields) = has_no_tuple_field fields
  has_no_tuple (list items) = has_no_tuple_item items
  has_no_tuple (tuple items) = false
  has_no_tuple _ = true

  pub has_no_tuple_field : Fields → Bool
  has_no_tuple_field end = true
  has_no_tuple_field (field k v rest) = has_no_tuple v && has_no_tuple_field rest

  pub has_no_tuple_item : Items → Bool
  has_no_tuple_item nil = true
  has_no_tuple_item (cons v rest) = has_no_tuple v && has_no_tuple_item rest

enforce_fields-intro :
    (key : String) (item : Value) (rest : Fields)
    → mem_text key raw_keys ≡ false
    → is_private item ≡ false
    → enforce item ≡ ok tt
    → enforce_fields rest ≡ ok tt
    → enforce_fields (field key item rest) ≡ ok tt
unfolding enforce
enforce_fields-intro key item rest a b c d = rw (a, b, c) d

enforce_items-intro :
    (item : Value) (rest : Items)
    → is_private item ≡ false
    → enforce item ≡ ok tt
    → enforce_items rest ≡ ok tt
    → enforce_items (cons item rest) ≡ ok tt
unfolding enforce
enforce_items-intro item rest b c d = rw (b, c) d

enforce_fields-insert_field :
    (k : String) (v : Value) (d : Fields)
    → enforce_fields (field k v d) ≡ ok tt
    → enforce_fields (insert_field k v d) ≡ ok tt
unfolding insert_field
enforce_fields-insert_field k v end h = h
enforce_fields-insert_field k v (field j w rest) h =
    let (raw, private, sub, more) = enforce_fields-inv k v (field j w rest) h in
    let (raw₁, private₁, sub₁, more₁) = enforce_fields-inv j w rest more in
    elim (Bool-cases (leb_codes (codes k) (codes j))) [
      | inl e ↦ rw e h
      | inr e ↦ rw e (
          enforce_fields-intro j w (insert_field k v rest) raw₁ private₁ sub₁ (
            enforce_fields-insert_field k v rest
              (enforce_fields-intro k v rest raw private sub more₁)))
    ]

is_private-reread : (v : Value) → is_private (reread v) ≡ is_private v
unfolding is_private reread
is_private-reread (mapping fields) = refl
is_private-reread (list items) = refl
is_private-reread (tuple items) = refl
is_private-reread null = refl
is_private-reread (boolean b) = refl
is_private-reread (integer n) = refl
is_private-reread (floating bits) = refl
is_private-reread (str s) = refl
is_private-reread (opaque name) = refl

pub and_parts : (a b : Bool) → (a && b) ≡ true → (a ≡ true) × (b ≡ true)
and_parts true b h = (refl, h)
and_parts false b h = cc

mutual
  unfolding reread enforce

  pub enforce-reread :
      (v : Value) → has_no_tuple v ≡ true → enforce v ≡ ok tt → enforce (reread v) ≡ ok tt
  enforce-reread (mapping fields) n h = enforce_fields-reread fields n h
  enforce-reread (list items) n h = enforce_items-reread items n h
  enforce-reread (tuple items) n h = absurd (ground arith)
  enforce-reread null n h = h
  enforce-reread (boolean b) n h = h
  enforce-reread (integer k) n h = h
  enforce-reread (floating bits) n h = h
  enforce-reread (str s) n h = h
  enforce-reread (opaque name) n h = h

  pub enforce_fields-reread :
      (d : Fields)
      → has_no_tuple_field d ≡ true
      → enforce_fields d ≡ ok tt
      → enforce_fields (reread_fields d) ≡ ok tt
  enforce_fields-reread end n h = h
  enforce_fields-reread (field k v rest) n h =
      let (a, b) = and_parts (has_no_tuple v) (has_no_tuple_field rest) n in
      let (raw, private, sub, more) = enforce_fields-inv k v rest h in
      enforce_fields-insert_field k (reread v) (reread_fields rest) (
        enforce_fields-intro k (reread v) (reread_fields rest) raw (is_private-reread v ∙ private)
          (enforce-reread v a sub) (enforce_fields-reread rest b more))

  pub enforce_items-reread :
      (items : Items)
      → has_no_tuple_item items ≡ true
      → enforce_items items ≡ ok tt
      → enforce_items (reread_items items) ≡ ok tt
  enforce_items-reread nil n h = h
  enforce_items-reread (cons v rest) n h =
      let (a, b) = and_parts (has_no_tuple v) (has_no_tuple_item rest) n in
      let (private, sub, more) = enforce_items-inv v rest h in
      enforce_items-intro (reread v) (reread_items rest) (is_private-reread v ∙ private)
        (enforce-reread v a sub) (enforce_items-reread rest b more)
