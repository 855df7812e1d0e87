-- ===== src/Receipts/Clean.antt =====
-- What `enforce_raw_content_exclusion` of srs_receipts.py excludes: every key and every text that
-- `_walk` reaches.
use dagr_mcp.Prelude.{
  String, ◌≡◌, refl, Bool, true, false, Option, none, some, ok, raised, ◌⊎◌, inl, inr, raise_if-ok,
  >>-ok, raise_if-raised, >>-raised,
}
use dagr_mcp.Python.{Value, list, mapping, Items, nil, cons, Fields, end, field}
use dagr_mcp.Python.Dict.{mem_text}
use dagr_mcp.Receipts.{ReceiptError, raw_content_key, private_marker, raw_keys}
use dagr_mcp.Receipts.Content.{enforce, enforce_fields, enforce_items, is_private}

-- The pairs of a key and an item that `_walk` yields; an item of a list has no key.
mutual
  pub data Yields : Value → Option String → Value → Type 0 where
    in_mapping :
        {fields : Fields} {k : Option String} {item : Value}
        → YieldsField fields k item
        → Yields (mapping fields) k item
    in_list :
        {items : Items} {k : Option String} {item : Value}
        → YieldsItem items k item
        → Yields (list items) k item

  pub data YieldsField : Fields → Option String → Value → Type 0 where
    this :
        {key : String} {item : Value} {rest : Fields}
        → YieldsField (field key item rest) (some key) item
    inside :
        {key : String} {item sub : Value} {rest : Fields} {k : Option String}
        → Yields item k sub
        → YieldsField (field key item rest) k sub
    later :
        {key : String} {item sub : Value} {rest : Fields} {k : Option String}
        → YieldsField rest k sub
        → YieldsField (field key item rest) k sub

  pub data YieldsItem : Items → Option String → Value → Type 0 where
    this_item : {item : Value} {rest : Items} → YieldsItem (cons item rest) none item
    inside_item :
        {item sub : Value} {rest : Items} {k : Option String}
        → Yields item k sub
        → YieldsItem (cons item rest) k sub
    later_item :
        {item sub : Value} {rest : Items} {k : Option String}
        → YieldsItem rest k sub
        → YieldsItem (cons item rest) k sub

abbrev pub is_raw : Option String → Bool
is_raw none = false
is_raw (some key) = mem_text key raw_keys

-- One round of the loop over a mapping, and over a list, that does not raise.
pub enforce_fields-inv :
    (key : String) (item : Value) (rest : Fields)
    → enforce_fields (field key item rest) ≡ ok tt
    → (mem_text key raw_keys ≡ false)
      × (is_private item ≡ false)
      × (enforce item ≡ ok tt)
      × (enforce_fields rest ≡ ok tt)
unfolding enforce
enforce_fields-inv key item rest h =
    let (raw, h₁) = raise_if-ok (mem_text key raw_keys) raw_content_key _ h in
    let (private, h₂) = raise_if-ok (is_private item) private_marker _ h₁ in
    let (sub, h₃) = >>-ok (enforce item) (enforce_fields rest) h₂ in (raw, private, sub, h₃)

pub enforce_items-inv :
    (item : Value) (rest : Items)
    → enforce_items (cons item rest) ≡ ok tt
    → (is_private item ≡ false) × (enforce item ≡ ok tt) × (enforce_items rest ≡ ok tt)
unfolding enforce
enforce_items-inv item rest h =
    let (private, h₁) = raise_if-ok (is_private item) private_marker _ h in
    let (sub, h₂) = >>-ok (enforce item) (enforce_items rest) h₁ in (private, sub, h₂)

mutual
  unfolding enforce

  clean :
      {v : Value} {k : Option String} {item : Value}
      → Yields v k item
      → enforce v ≡ ok tt
      → (is_raw k ≡ false) × (is_private item ≡ false)
  clean (in_mapping y) h = clean_fields y h
  clean (in_list y) h = clean_items y h

  clean_fields :
      {fields : Fields} {k : Option String} {item : Value}
      → YieldsField fields k item
      → enforce_fields fields ≡ ok tt
      → (is_raw k ≡ false) × (is_private item ≡ false)
  clean_fields (this {key} {item} {rest}) h =
      let (raw, private, sub, more) = enforce_fields-inv key item rest h in (raw, private)
  clean_fields (inside {key} {item} {rest = rest} y) h =
      clean y (enforce_fields-inv key item rest h).2
  clean_fields (later {key} {item} {rest = rest} y) h =
      clean_fields y (enforce_fields-inv key item rest h).3

  clean_items :
      {items : Items} {k : Option String} {item : Value}
      → YieldsItem items k item
      → enforce_items items ≡ ok tt
      → (is_raw k ≡ false) × (is_private item ≡ false)
  clean_items (this_item {item} {rest}) h = (refl, (enforce_items-inv item rest h).0)
  clean_items (inside_item {item} {rest = rest} y) h = clean y (enforce_items-inv item rest h).1
  clean_items (later_item {item} {rest = rest} y) h =
      clean_items y (enforce_items-inv item rest h).2

-- A value that passes has no raw-content key and no private marker anywhere that the walk reaches:
-- under mappings and lists, at any depth.
pub enforce-clean :
    {v : Value} {k : Option String} {item : Value}
    → enforce v ≡ ok tt
    → Yields v k item
    → (is_raw k ≡ false) × (is_private item ≡ false)
enforce-clean h y = clean y h

mutual
  unfolding enforce

  find :
      (v : Value) {e : ReceiptError}
      → enforce v ≡ raised e
      → (k : Option String) × (item : Value) × Yields v k item
        × ((is_raw k ≡ true) ⊎ (is_private item ≡ true))
  find (mapping fields) h =
      let (k, item, y, bad) = find_field fields h in (k, item, in_mapping y, bad)
  find (list items) h = let (k, item, y, bad) = find_item items h in (k, item, in_list y, bad)
  find _ h = absurd cc

  find_field :
      (fields : Fields) {e : ReceiptError}
      → enforce_fields fields ≡ raised e
      → (k : Option String) × (item : Value) × YieldsField fields k item
        × ((is_raw k ≡ true) ⊎ (is_private item ≡ true))
  find_field end h = absurd cc
  find_field (field key item rest) h =
      elim (raise_if-raised (mem_text key raw_keys) raw_content_key _ h) [
        | inl raw ↦ (some key, item, this, inl raw)
        | inr h₁ ↦ elim (raise_if-raised (is_private item) private_marker _ h₁) [
          | inl private ↦ (some key, item, this, inr private)
          | inr h₂ ↦ elim (>>-raised (enforce item) (enforce_fields rest) h₂) [
            | inl p ↦ let (k, sub, y, bad) = find item p in (k, sub, inside y, bad)
            | inr p ↦ let (k, sub, y, bad) = find_field rest p in (k, sub, later y, bad)
          ]
        ]
      ]

  find_item :
      (items : Items) {e : ReceiptError}
      → enforce_items items ≡ raised e
      → (k : Option String) × (item : Value) × YieldsItem items k item
        × ((is_raw k ≡ true) ⊎ (is_private item ≡ true))
  find_item nil h = absurd cc
  find_item (cons item rest) h = elim (raise_if-raised (is_private item) private_marker _ h) [
    | inl private ↦ (none, item, this_item, inr private)
    | inr h₁ ↦ elim (>>-raised (enforce item) (enforce_items rest) h₁) [
      | inl p ↦ let (k, sub, y, bad) = find item p in (k, sub, inside_item y, bad)
      | inr p ↦ let (k, sub, y, bad) = find_item rest p in (k, sub, later_item y, bad)
    ]
  ]

-- A value is refused only for a raw-content key or a private marker that the walk reaches.
pub enforce-raised :
    (v : Value) {e : ReceiptError}
    → enforce v ≡ raised e
    → (k : Option String) × (item : Value) × Yields v k item
      × ((is_raw k ≡ true) ⊎ (is_private item ≡ true))
enforce-raised v h = find v h
