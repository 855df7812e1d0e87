-- ===== src/Governed/Thaw.antt =====
-- What `_thaw_value` of governed_action.py reads back from a frozen value.
use dagr_mcp.Prelude.{
  String, ◌≡◌, refl, sym, ap, ◌∙◌, ok, >>=-ok, ok-injective, Bool-cases, inl, inr,
}
use dagr_mcp.Python.{
  Value, null, boolean, integer, floating, str, list, tuple, mapping, opaque, Items, nil, cons,
  Fields, end, field,
}
use dagr_mcp.Python.Text.{codes, leb_codes}
use dagr_mcp.Governed.Freeze.{
  pairs, freeze, freeze_fields, freeze_items, thaw, thaw_pairs, thaw_items,
}
use dagr_mcp.Python.Sort.{insert_field, sort_fields}

-- The value with each mapping sorted by its keys and each tuple read as a list.
unfoldable mutual
  unfolding sort_fields

  pub normalize : Value → Value
  normalize (mapping fields) = mapping (sort_fields (normalize_fields fields))
  normalize (list items) = list (normalize_items items)
  normalize (tuple items) = list (normalize_items items)
  normalize v = v

  pub normalize_fields : Fields → Fields
  normalize_fields end = end
  normalize_fields (field k v rest) = field k (normalize v) (normalize_fields rest)

  pub normalize_items : Items → Items
  normalize_items nil = nil
  normalize_items (cons v rest) = cons (normalize v) (normalize_items rest)

-- Thawing the pairs of a mapping commutes with sorting it.
thaw_pairs-insert_field :
    (k : String) (v : Value) (f : Fields)
    → thaw_pairs (pairs (insert_field k v f)) ≡ insert_field k (thaw v) (thaw_pairs (pairs f))
unfolding insert_field pairs thaw
thaw_pairs-insert_field k v end = refl
thaw_pairs-insert_field k v (field j w rest) = elim (Bool-cases (leb_codes (codes k) (codes j))) [
  | inl e ↦ rw e
  | inr e ↦ rw (e, thaw_pairs-insert_field k v rest)
]

thaw_pairs-sort_fields :
    (f : Fields) → thaw_pairs (pairs (sort_fields f)) ≡ sort_fields (thaw_pairs (pairs f))
unfolding sort_fields pairs thaw
thaw_pairs-sort_fields end = refl
thaw_pairs-sort_fields (field k v rest) =
    rw (thaw_pairs-insert_field k v (sort_fields rest), thaw_pairs-sort_fields rest)

mutual
  unfolding freeze pairs thaw normalize

  thaw-freeze_value : (v : Value) {w : Value} → freeze v ≡ ok w → thaw w ≡ normalize v
  thaw-freeze_value (mapping fields) h =
      let (frozen, e, q) = >>=-ok (freeze_fields fields) _ h in
      ap thaw (sym (ok-injective q))
      ∙ ap mapping (thaw_pairs-sort_fields frozen ∙ ap sort_fields (thaw-freeze_fields fields e))
  thaw-freeze_value (list items) h =
      let (frozen, e, q) = >>=-ok (freeze_items items) _ h in
      ap thaw (sym (ok-injective q)) ∙ ap list (thaw-freeze_items items e)
  thaw-freeze_value (tuple items) h =
      let (frozen, e, q) = >>=-ok (freeze_items items) _ h in
      ap thaw (sym (ok-injective q)) ∙ ap list (thaw-freeze_items items e)
  thaw-freeze_value (opaque name) h = absurd cc
  thaw-freeze_value null h = ap thaw (sym (ok-injective h))
  thaw-freeze_value (boolean b) h = ap thaw (sym (ok-injective h))
  thaw-freeze_value (integer n) h = ap thaw (sym (ok-injective h))
  thaw-freeze_value (floating bits) h = ap thaw (sym (ok-injective h))
  thaw-freeze_value (str s) h = ap thaw (sym (ok-injective h))

  thaw-freeze_fields :
      (f : Fields) {w : Fields} → freeze_fields f ≡ ok w → thaw_pairs (pairs w) ≡ normalize_fields f
  thaw-freeze_fields end h = ap (λ w. thaw_pairs (pairs w)) (sym (ok-injective h))
  thaw-freeze_fields (field k v rest) h =
      let (frozen, e, q) = >>=-ok (freeze v) _ h in
      let (more, e₂, q₂) = >>=-ok (freeze_fields rest) _ q in
      ap (λ w. thaw_pairs (pairs w)) (sym (ok-injective q₂))
      ∙ ap (λ u. field k u (thaw_pairs (pairs more))) (thaw-freeze_value v e)
      ∙ ap (field k (normalize v)) (thaw-freeze_fields rest e₂)

  thaw-freeze_items :
      (i : Items) {w : Items} → freeze_items i ≡ ok w → thaw_items w ≡ normalize_items i
  thaw-freeze_items nil h = ap thaw_items (sym (ok-injective h))
  thaw-freeze_items (cons v rest) h =
      let (frozen, e, q) = >>=-ok (freeze v) _ h in
      let (more, e₂, q₂) = >>=-ok (freeze_items rest) _ q in
      ap thaw_items (sym (ok-injective q₂))
      ∙ ap (λ u. cons u (thaw_items more)) (thaw-freeze_value v e)
      ∙ ap (cons (normalize v)) (thaw-freeze_items rest e₂)

-- Thawing what `_freeze_value` returns gives the value back, with each mapping sorted by its keys and
-- each tuple read as a list, at every depth.
pub thaw-freeze : (v : Value) {w : Value} → freeze v ≡ ok w → thaw w ≡ normalize v
thaw-freeze v h = thaw-freeze_value v h
