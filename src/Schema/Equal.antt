-- ===== src/Schema/Equal.antt =====
-- `json_equal` and `_is_type` of src/city2core/schema.py.
pub mod Laws
pub mod Sound
use city.Base.{
  ℕ, zero, suc, ◌==◌, leb, ltb, String, ◌=?◌, Bool, true, false, not, ◌&&◌, ◌||◌, Option, none,
  some, if◌then◌else◌,
}
use city.Model.Json.{
  ℤ, pos, negsuc, Json, Items, Fields, null, boolean, int, str, arr, obj, nil, cons, end, field,
  get, has,
}

unfoldable pub int_equal : ℤ → ℤ → Bool
int_equal (pos a) (pos b) = a == b
int_equal (negsuc a) (negsuc b) = a == b
int_equal _ _ = false

-- `a < b`
unfoldable pub int_less : ℤ → ℤ → Bool
int_less (pos a) (pos b) = ltb a b
int_less (pos a) (negsuc b) = false
int_less (negsuc a) (pos b) = true
int_less (negsuc a) (negsuc b) = ltb b a

-- `d.keys() <= e.keys()`
unfoldable pub keys_among : Fields → Fields → Bool
unfolding has
keys_among end e = true
keys_among (field k v d) e = has k e && keys_among d e

unfoldable pub bool_equal : Bool → Bool → Bool
bool_equal true b = b
bool_equal false b = not b

unfoldable mutual
  unfolding int_equal keys_among bool_equal get

  pub json_equal : Json → Json → Bool
  json_equal null null = true
  json_equal (boolean a) (boolean b) = bool_equal a b
  json_equal (int a) (int b) = int_equal a b
  json_equal (str a) (str b) = a =? b
  json_equal (arr xs) (arr ys) = items_equal xs ys
  json_equal (obj d) (obj e) = keys_among d e && keys_among e d && fields_equal d e
  json_equal _ _ = false

  -- `all(json_equal(a, b) for a, b in zip(left, right))`, on lists of the same length
  pub items_equal : Items → Items → Bool
  items_equal nil nil = true
  items_equal (cons x xs) (cons y ys) = json_equal x y && items_equal xs ys
  items_equal _ _ = false

  -- `all(json_equal(left[key], right[key]) for key in left)`
  pub fields_equal : Fields → Fields → Bool
  fields_equal end e = true
  fields_equal (field k v d) e =
      elim (get k e) [ none ↦ false | some w ↦ json_equal v w ] && fields_equal d e

-- `_is_type`; a number is an integer here
unfoldable pub is_type : Json → String → Bool
is_type (arr _) t = t =? "array"
is_type (boolean _) t = t =? "boolean"
is_type (int _) t = (t =? "integer") || (t =? "number")
is_type null t = t =? "null"
is_type (obj _) t = t =? "object"
is_type (str _) t = t =? "string"
