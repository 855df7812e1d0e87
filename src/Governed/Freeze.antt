-- ===== src/Governed/Freeze.antt =====
-- `_freeze_value`, `_thaw_value` and `_freeze_correlation_metadata` of governed_action.py. A frozen
-- value is the Python tuple that the code builds.
use dagr_mcp.Prelude.{String, Result, ok, raised, ◌>>=◌, str_eq, if◌then◌else◌}
use dagr_mcp.Python.{
  Value, null, boolean, integer, floating, str, list, tuple, mapping, opaque, Items, nil, cons,
  Fields, end, field,
}
use dagr_mcp.Python.Sort.{sort_fields}
use dagr_mcp.Governed.{GovernedError, unsupported_type}

abbrev pub tagged : String → Items → Value
tagged tag body = tuple (cons (str tag) (cons (tuple body) nil))

-- The tuple of the pairs of a mapping.
unfoldable pub pairs : Fields → Items
pairs end = nil
pairs (field k v rest) = cons (tuple (cons (str k) (cons v nil))) (pairs rest)

unfoldable mutual
  pub freeze : Value → Result GovernedError Value
  freeze (mapping fields) =
      freeze_fields fields >>= λ frozen. ok (tagged "__mapping__" (pairs (sort_fields frozen)))
  freeze (list items) = freeze_items items >>= λ frozen. ok (tagged "__sequence__" frozen)
  freeze (tuple items) = freeze_items items >>= λ frozen. ok (tagged "__sequence__" frozen)
  freeze (opaque name) = raised (unsupported_type name)
  freeze null = ok null
  freeze (boolean b) = ok (boolean b)
  freeze (integer n) = ok (integer n)
  freeze (floating bits) = ok (floating bits)
  freeze (str s) = ok (str s)

  pub freeze_fields : Fields → Result GovernedError Fields
  freeze_fields end = ok end
  freeze_fields (field k v rest) =
      freeze v >>= λ frozen. freeze_fields rest >>= λ more. ok (field k frozen more)

  pub freeze_items : Items → Result GovernedError Items
  freeze_items nil = ok nil
  freeze_items (cons v rest) =
      freeze v >>= λ frozen. freeze_items rest >>= λ more. ok (cons frozen more)

-- `_thaw_value`. A tagged tuple with a body that is no tuple, or with an item of a mapping that is no
-- pair with a text, is no result of `freeze`, and is left alone.
unfoldable mutual
  pub thaw : Value → Value
  thaw (tuple (cons (str tag) (cons (tuple body) nil))) =
      let fields = thaw_pairs body in
      let items = thaw_items body in
      if str_eq tag "__mapping__"
      then mapping fields
      else if str_eq tag "__sequence__"
      then list items
      else tuple (cons (str tag) (cons (tuple body) nil))
  thaw v = v

  pub thaw_pairs : Items → Fields
  thaw_pairs nil = end
  thaw_pairs (cons (tuple (cons (str k) (cons v nil))) rest) = field k (thaw v) (thaw_pairs rest)
  thaw_pairs (cons v rest) = thaw_pairs rest

  pub thaw_items : Items → Items
  thaw_items nil = nil
  thaw_items (cons v rest) = cons (thaw v) (thaw_items rest)

-- The frozen pairs of a metadata mapping, which stand by their fields.
unfoldable pub freeze_correlation_metadata : Fields → Result GovernedError Fields
unfolding freeze sort_fields
freeze_correlation_metadata metadata = freeze_fields metadata >>= λ frozen. ok (sort_fields frozen)
