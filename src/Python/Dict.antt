-- ===== src/Python/Dict.antt =====
-- Python's `dict` with text keys, in insertion order.
use dagr_mcp.Prelude.{
  String, ◌≡◌, refl, Bool, Option, none, some, is_some, List, [], ◌∷◌, arith, str_eq, eq_iff,
  if◌then◌else◌,
}
use dagr_mcp.Python.{Value, Fields, end, field}

-- `d.get(key)`, where an absent key has no value.
unfoldable pub get : Fields → String → Option Value
get end key = none
get (field k v rest) key = if str_eq k key then some v else get rest key

-- `d[key] = value`
unfoldable pub put : Fields → String → Value → Fields
put end key v = field key v end
put (field k w rest) key v = if str_eq k key then field k v rest else field k w (put rest key v)

-- `key in d`
abbrev pub has : Fields → String → Bool
has d key = is_some (get d key)

-- `None` where the key is absent.
abbrev pub or_null : Option Value → Value
or_null none = Value.null
or_null (some v) = v

-- `d.get(key)`
abbrev pub get_value : Fields → String → Value
get_value d key = or_null (get d key)

pub get-put :
    (d : Fields) (key j : String) (v : Value)
    → get (put d key v) j ≡ (if str_eq key j then some v else get d j)
unfolding get put
get-put end key j v = refl
get-put (field k w rest) key j v =
    ground (arith, eq_iff k key, eq_iff k j, eq_iff key j, get-put rest key j v)

pub put-put : (d : Fields) (key : String) (v w : Value) → put (put d key v) key w ≡ put d key w
unfolding put
put-put end key v w = ground (arith, eq_iff key key)
put-put (field k u rest) key v w = ground (arith, eq_iff k key, put-put rest key v w)

-- `if value: d[key] = value`, for an optional text.
abbrev pub put_text : Fields → String → Option String → Fields
put_text d key none = d
put_text d key (some s) = if str_eq s "" then d else put d key (Value.str s)

-- `k in {…}`
abbrev pub mem_text : String → List String → Bool
mem_text k [] = Bool.false
mem_text k (j ∷ ks) = if str_eq j k then Bool.true else mem_text k ks
