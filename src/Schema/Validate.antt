-- ===== src/Schema/Validate.antt =====
-- `validate_instance` and `validate_named` of src/city2core/schema.py. The calls of itself that
-- `validate_instance` makes are an argument of its body, and the fuel bounds their depth, as
-- Python's recursion limit does.
pub mod Ends
pub mod Depth
use Prim.Native.String.{count}
use city.Base.{
  ℕ, zero, suc, ltb, ◌==◌, String, ◌=?◌, Bool, true, false, not, ◌&&◌, ◌||◌, Option, none, some,
  List, [], ◌∷◌, if◌then◌else◌,
}
use city.Model.Json.{
  ℤ, pos, Json, Items, Fields, null, boolean, int, str, arr, obj, nil, cons, end, field, get, has,
  truthy,
}
use city.Schema.Equal.{json_equal, is_type, int_less}
use city.Schema.Resolve.{SchemaStore, Resolved, resolve}

-- How a validation ends: it returns, it raises `ValidationError`, it raises something else since
-- the schema is not well formed, or the recursion is too deep.
pub data Verdict : Type 0 where
  valid invalid malformed too_deep : Verdict

-- one check after another
infixl 5 ◌then◌
unfoldable pub ◌then◌ : Verdict → Verdict → Verdict
valid then w = w
v then w = v

unfoldable pub verdict : Bool → Verdict
verdict true = valid
verdict false = invalid

-- a call of `validate_instance`: the instance, the schema, the schema's name and the root
abbrev pub Checker : Type 0
Checker = Json → Json → String → Json → Verdict

-- the number of schemas that accept the instance
pub data Matches : Type 0 where
  matched : ℕ → Matches
  stopped : Verdict → Matches

abbrev pub counted : Verdict → Matches → Matches
counted valid (matched n) = matched (suc n)
counted invalid (matched n) = matched n
counted malformed m = stopped malformed
counted too_deep m = stopped too_deep
counted v (stopped w) = stopped w

abbrev pub judged : (ℕ → Bool) → Matches → Verdict
judged enough (matched n) = verdict (enough n)
judged enough (stopped w) = w

abbrev pub negated : Verdict → Verdict
negated valid = invalid
negated invalid = valid
negated w = w

module _ (store : SchemaStore) (call : Checker) (name : String) (root : Json) where
  unfoldable pub check_ref : Json → Option Json → Verdict
  unfolding resolve
  check_ref v none = valid
  check_ref v (some (str ref)) = elim (resolve store ref name root) [
    | none ↦ invalid
    | some r ↦ call v r.node r.name r.root
  ]
  check_ref v (some _) = malformed

  unfoldable pub check_all : Json → Items → Verdict
  unfolding ◌then◌
  check_all v nil = valid
  check_all v (cons s l) = call v s name root then check_all v l

  unfoldable pub check_all_of : Json → Option Json → Verdict
  unfolding check_all
  check_all_of v none = valid
  check_all_of v (some (arr l)) = check_all v l
  check_all_of v (some _) = malformed

  unfoldable pub count_matches : Json → Items → Matches
  count_matches v nil = matched 0
  count_matches v (cons s l) = counted (call v s name root) (count_matches v l)

  -- `anyOf` and `oneOf`
  unfoldable pub check_some_of : (ℕ → Bool) → Json → Option Json → Verdict
  unfolding count_matches verdict
  check_some_of enough v none = valid
  check_some_of enough v (some (arr l)) = judged enough (count_matches v l)
  check_some_of enough v (some _) = malformed

  unfoldable pub check_not : Json → Option Json → Verdict
  check_not v none = valid
  check_not v (some s) = negated (call v s name root)

  -- `propertyNames`: each key is checked as a text
  unfoldable pub check_names : Fields → Json → Verdict
  unfolding ◌then◌
  check_names end s = valid
  check_names (field k v d) s = call (str k) s name root then check_names d s

  unfoldable pub check_property_names : Fields → Option Json → Verdict
  unfolding check_names
  check_property_names d (some (obj s)) = check_names d (obj s)
  check_property_names d _ = valid

  -- a value whose key has no schema
  unfoldable pub check_additional : Json → Option Json → Verdict
  check_additional v (some (boolean false)) = invalid
  check_additional v (some (obj s)) = call v (obj s) name root
  check_additional v _ = valid

  unfoldable pub check_value : Json → Option Json → Option Json → Verdict
  unfolding check_additional
  check_value v (some s) additional = call v s name root
  check_value v none additional = check_additional v additional

  unfoldable pub check_values : Fields → Fields → Option Json → Verdict
  unfolding ◌then◌ check_value get
  check_values end properties additional = valid
  check_values (field k v d) properties additional =
      check_value v (get k properties) additional then check_values d properties additional

  unfoldable pub check_properties : Fields → Option Json → Option Json → Verdict
  unfolding check_values
  check_properties d none additional = check_values d end additional
  check_properties d (some (obj p)) additional = check_values d p additional
  check_properties d (some _) additional = malformed

  unfoldable pub check_each : Items → Json → Verdict
  unfolding ◌then◌
  check_each nil s = valid
  check_each (cons v l) s = call v s name root then check_each l s

  unfoldable pub check_items : Items → Option Json → Verdict
  unfolding check_each
  check_items l (some (obj s)) = check_each l (obj s)
  check_items l _ = valid

-- `schema.get("type")`
unfoldable pub any_type : Json → Items → Verdict
unfolding is_type
any_type v nil = invalid
any_type v (cons (str t) l) = let rest = any_type v l in if is_type v t then valid else rest
any_type v (cons _ l) = malformed

unfoldable pub check_type : Json → Option Json → Verdict
unfolding any_type
check_type v none = valid
check_type v (some null) = valid
check_type v (some (str t)) = any_type v (cons (str t) nil)
check_type v (some (arr l)) = any_type v l
check_type v (some _) = malformed

unfoldable pub check_const : Json → Option Json → Verdict
unfolding json_equal verdict
check_const v none = valid
check_const v (some c) = verdict (json_equal v c)

unfoldable pub any_equal : Json → Items → Bool
unfolding json_equal
any_equal v nil = false
any_equal v (cons c l) = json_equal v c || any_equal v l

unfoldable pub check_enum : Json → Option Json → Verdict
unfolding any_equal verdict
check_enum v none = valid
check_enum v (some (arr l)) = verdict (any_equal v l)
check_enum v (some _) = malformed

-- `required`
unfoldable pub all_there : Fields → Items → Verdict
unfolding has
all_there d nil = valid
all_there d (cons (str k) l) = let rest = all_there d l in if has k d then rest else invalid
all_there d (cons _ l) = malformed

unfoldable pub check_required : Fields → Option Json → Verdict
unfolding all_there
check_required d none = valid
check_required d (some (arr l)) = all_there d l
check_required d (some _) = malformed

-- a bound that an integer is tested against
unfoldable pub check_bound : (ℤ → ℤ → Bool) → ℤ → Option Json → Verdict
unfolding verdict
check_bound fine n none = valid
check_bound fine n (some (int m)) = verdict (fine n m)
check_bound fine n (some _) = malformed

unfoldable pub size : Items → ℕ
size nil = 0
size (cons v l) = suc (size l)

-- whether no value equals an earlier one; `earlier` holds those
unfoldable pub all_unique : Items → Items → Bool
unfolding any_equal
all_unique earlier nil = true
all_unique earlier (cons v l) = not (any_equal v earlier) && all_unique (cons v earlier) l

unfoldable pub check_unique : Items → Option Json → Verdict
unfolding all_unique truthy verdict
check_unique l none = valid
check_unique l (some u) = if truthy u then verdict (all_unique nil l) else valid

abbrev pub at_least : ℤ → ℤ → Bool
at_least n m = not (int_less n m)

abbrev pub at_most : ℤ → ℤ → Bool
at_most n m = not (int_less m n)

abbrev pub above : ℤ → ℤ → Bool
above n m = int_less m n

unfoldable pub check_pattern : SchemaStore → String → Option Json → Verdict
unfolding verdict
check_pattern store t none = valid
check_pattern store t (some (str p)) = verdict (store.search p t)
check_pattern store t (some _) = malformed

-- the checks of the instance's own type
unfoldable pub check_kind : SchemaStore → Checker → String → Json → Json → Fields → Verdict
unfolding ◌then◌ check_property_names check_required check_properties check_bound size check_unique
    check_items check_pattern int_less get
check_kind store call name root (obj d) s =
    check_property_names store call name root d (get "propertyNames" s)
    then check_required d (get "required" s)
    then check_properties store call name root d (get "properties" s) (get "additionalProperties" s)
check_kind store call name root (arr l) s =
    check_bound at_least (pos (size l)) (get "minItems" s)
    then check_bound at_most (pos (size l)) (get "maxItems" s)
    then check_unique l (get "uniqueItems" s)
    then check_items store call name root l (get "items" s)
check_kind store call name root (str t) s =
    check_bound at_least (pos (count t)) (get "minLength" s)
    then check_bound at_most (pos (count t)) (get "maxLength" s)
    then check_pattern store t (get "pattern" s)
check_kind store call name root (int n) s =
    check_bound at_least n (get "minimum" s)
    then check_bound at_most n (get "maximum" s)
    then check_bound above n (get "exclusiveMinimum" s)
    then check_bound (λ a b. int_less a b) n (get "exclusiveMaximum" s)
check_kind store call name root _ s = valid

-- the body of `validate_instance`
unfoldable pub check_schema : SchemaStore → Checker → Json → Fields → String → Json → Verdict
unfolding ◌then◌ check_ref check_all_of check_some_of check_not check_type check_const check_enum
    check_kind get
check_schema store call v s name root =
    check_ref store call name root v (get "$ref" s)
    then check_all_of store call name root v (get "allOf" s)
    then check_some_of store call name root (λ n. not (n == 0)) v (get "anyOf" s)
    then check_some_of store call name root (λ n. n == 1) v (get "oneOf" s)
    then check_not store call name root v (get "not" s)
    then check_type v (get "type" s)
    then check_const v (get "const" s)
    then check_enum v (get "enum" s)
    then check_kind store call name root v s

-- `document_root or schema`
unfoldable pub root_or : Json → Json → Json
unfolding truthy
root_or root schema = if truthy root then root else schema

unfoldable pub validate_instance : SchemaStore → ℕ → Checker
unfolding check_schema root_or
validate_instance store zero v schema name root = too_deep
validate_instance store (suc fuel) v (obj s) name root =
    check_schema store (validate_instance store fuel) v s name (root_or root (obj s))
validate_instance store (suc fuel) v _ name root = malformed

-- `validate_named`; an unknown name is a `ValidationError`
unfoldable pub validate_named : SchemaStore → ℕ → Json → String → Verdict
unfolding validate_instance get
validate_named store fuel v name = elim (get name store.documents) [
  | none ↦ invalid
  | some s ↦ validate_instance store fuel v s name null
]
