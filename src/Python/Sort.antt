-- ===== src/Python/Sort.antt =====
-- Sorting by keys, and what a JSON text with sorted keys is read back as.
use dagr_mcp.Prelude.{
  String, ◌≡◌, refl, sym, ap, ◌∙◌, true, false, Option, none, some, arith, str_eq, eq_iff,
  Bool-cases, inl, inr, if◌then◌else◌, is_some, if_true, if_false, List, [], ◌∷◌, ℕ,
}
use dagr_mcp.Python.{
  Value, null, boolean, integer, floating, str, list, tuple, mapping, opaque, Items, nil, cons,
  Fields, end, field,
}
use dagr_mcp.Python.Dict.{get, put, has}
use dagr_mcp.Python.Text.{codes, leb_codes}

-- `sorted(…, key=lambda kv: kv[0])`: stable, by the code points of the keys.
unfoldable pub insert_field : String → Value → Fields → Fields
insert_field k v end = field k v end
insert_field k v (field j w rest) =
    if leb_codes (codes k) (codes j)
    then field k v (field j w rest)
    else field j w (insert_field k v rest)

unfoldable pub sort_fields : Fields → Fields
unfolding insert_field
sort_fields end = end
sort_fields (field k v rest) = insert_field k v (sort_fields rest)

-- The value that `json.loads` reads from what `json.dumps(…, sort_keys=True)` writes: the keys of
-- each mapping are sorted, and a tuple is a list.
unfoldable mutual
  pub reread : Value → Value
  reread (mapping fields) = mapping (reread_fields fields)
  reread (list items) = list (reread_items items)
  reread (tuple items) = list (reread_items items)
  reread null = null
  reread (boolean b) = boolean b
  reread (integer n) = integer n
  reread (floating bits) = floating bits
  reread (str s) = str s
  reread (opaque name) = opaque name

  pub reread_fields : Fields → Fields
  reread_fields end = end
  reread_fields (field k v rest) = insert_field k (reread v) (reread_fields rest)

  pub reread_items : Items → Items
  reread_items nil = nil
  reread_items (cons v rest) = cons (reread v) (reread_items rest)

leb_codes_refl : (s : List ℕ) → leb_codes s s ≡ true
leb_codes_refl [] = refl
leb_codes_refl (c ∷ s) = ground (arith, leb_codes_refl s)

pub get-insert_field :
    (k : String) (v : Value) (d : Fields) (key : String)
    → get (insert_field k v d) key ≡ (if str_eq k key then some v else get d key)
unfolding get insert_field
get-insert_field k v end key = refl
get-insert_field k v (field j w rest) key =
    ground
      (arith, get-insert_field k v rest key, leb_codes_refl (codes j), eq_iff k key, eq_iff j key)

abbrev pub reread_found : Option Value → Option Value
reread_found none = none
reread_found (some v) = some (reread v)

pub get-reread_fields :
    (d : Fields) (key : String) → get (reread_fields d) key ≡ reread_found (get d key)
unfolding get reread
get-reread_fields end key = refl
get-reread_fields (field k v rest) key =
    ground
      (arith, get-insert_field k (reread v) (reread_fields rest) key, get-reread_fields rest key)

put-insert_field_self :
    (k : String) (w v : Value) (d : Fields) → put (insert_field k w d) k v ≡ insert_field k v d
unfolding put insert_field
put-insert_field_self k w v end = ground (arith, eq_iff k k)
put-insert_field_self k w v (field j u rest) =
    ground
      (arith, put-insert_field_self k w v rest, eq_iff j k, eq_iff k k, leb_codes_refl (codes k))

put-insert_field :
    (j k : String) (w v : Value) (d : Fields)
    → str_eq j k ≡ false
    → has d k ≡ true
    → put (insert_field j w d) k v ≡ insert_field j w (put d k v)
unfolding put insert_field get
put-insert_field j k w v end e h = absurd (ground arith)
put-insert_field j k w v (field i u rest) e h =
    ground (arith, put-insert_field j k w v rest, eq_iff i k)

put-insert_same :
    (j k : String) (w v : Value) (d : Fields)
    → j ≡ k
    → put (insert_field j w d) k v ≡ insert_field j v d
put-insert_same j k w v d e = rw (sym e) (put-insert_field_self j w v d)

has_found : (o : Option Value) → is_some (reread_found o) ≡ is_some o
has_found none = refl
has_found (some v) = refl

pub has-reread_fields : (d : Fields) (key : String) → has (reread_fields d) key ≡ has d key
has-reread_fields d key = ap is_some (get-reread_fields d key) ∙ has_found (get d key)

pub put-reread_fields :
    (d : Fields) (k : String) (v : Value)
    → has d k ≡ true
    → put (reread_fields d) k (reread v) ≡ reread_fields (put d k v)
unfolding reread put get
put-reread_fields end k v h = absurd (ground arith)
put-reread_fields (field j w rest) k v h = elim (Bool-cases (str_eq j k)) [
  | inl e ↦
      let same : j ≡ k = ground (arith, eq_iff j k) in
      put-insert_same j k (reread w) (reread v) (reread_fields rest) same
      ∙ ap reread_fields (sym (if_true (str_eq j k) _ _ e))
  | inr e ↦
      let there : has rest k ≡ true = ground arith in
      put-insert_field j k (reread w) (reread v) (reread_fields rest) e
        (has-reread_fields rest k ∙ there)
      ∙ ap (insert_field j (reread w)) (put-reread_fields rest k v there)
      ∙ ap reread_fields (sym (if_false (str_eq j k) _ _ e))
]
