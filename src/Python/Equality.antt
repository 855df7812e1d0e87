-- ===== src/Python/Equality.antt =====
-- Python's `==` on the values that JSON texts have.
use dagr_mcp.Prelude.{ℕ, suc, Bool, true, false, ◌&&◌, str_eq, ◌==◌}
use dagr_mcp.Python.{
  ℤ, pos, negsuc, Value, null, boolean, integer, floating, str, list, tuple, mapping, opaque, Items,
  nil, cons, Fields, end, field,
}
use dagr_mcp.Python.Dict.{has, get_value}

-- `True` and `False` are the numbers 1 and 0.
abbrev pub number_of : Bool → ℤ
number_of true = pos 1
number_of false = pos 0

abbrev pub eq_int : ℤ → ℤ → Bool
eq_int (pos m) (pos n) = m == n
eq_int (negsuc m) (negsuc n) = m == n
eq_int _ _ = false

abbrev pub count_fields : Fields → ℕ
count_fields end = 0
count_fields (field k v rest) = suc (count_fields rest)

-- The comparison of numbers where one is a float, which is not computed here.
abbrev pub FloatComparison : Type 0
FloatComparison = Value → Value → Bool

module _ (eq_float : FloatComparison) where
  -- Neither value is a container or a text.
  unfoldable pub eq_scalar : Value → Value → Bool
  eq_scalar null null = true
  eq_scalar (boolean a) (boolean b) = eq_int (number_of a) (number_of b)
  eq_scalar (boolean a) (integer n) = eq_int (number_of a) n
  eq_scalar (integer m) (boolean b) = eq_int m (number_of b)
  eq_scalar (integer m) (integer n) = eq_int m n
  eq_scalar (floating a) w = eq_float (floating a) w
  eq_scalar v (floating b) = eq_float v (floating b)
  eq_scalar (opaque a) (opaque b) = str_eq a b
  eq_scalar _ _ = false

  -- Two mappings are equal when they have as many keys, and each key of one has an equal value in
  -- the other.
  unfoldable mutual
    pub eq_value : Value → Value → Bool
    eq_value (str s) (str t) = str_eq s t
    eq_value (str s) w = false
    eq_value (list xs) (list ys) = eq_items xs ys
    eq_value (list xs) w = false
    eq_value (tuple xs) (tuple ys) = eq_items xs ys
    eq_value (tuple xs) w = false
    eq_value (mapping d) (mapping e) = count_fields d == count_fields e && eq_fields d e
    eq_value (mapping d) w = false
    eq_value null w = eq_scalar null w
    eq_value (boolean b) w = eq_scalar (boolean b) w
    eq_value (integer n) w = eq_scalar (integer n) w
    eq_value (floating bits) w = eq_scalar (floating bits) w
    eq_value (opaque name) w = eq_scalar (opaque name) w

    pub eq_items : Items → Items → Bool
    eq_items nil nil = true
    eq_items (cons v xs) (cons w ys) = eq_value v w && eq_items xs ys
    eq_items _ _ = false

    pub eq_fields : Fields → Fields → Bool
    eq_fields end e = true
    eq_fields (field k v rest) e = has e k && eq_value v (get_value e k) && eq_fields rest e
