-- ===== src/Schema/Validate/Depth.antt =====
-- Enough fuel for `validate_instance` of src/city2core/schema.py.
use Prim.Native.String.{count}
use city.Base.{
  ℕ, zero, suc, String, ◌≡◌, refl, Bool, true, false, Option, none, some, and_parts, and_both, ◌&&◌,
}
use city.Model.Json.{
  ℤ, pos, Json, Items, Fields, null, boolean, int, str, arr, obj, nil, cons, end, field, get,
  truthy,
}
use city.Schema.Resolve.{SchemaStore, Resolved, resolve}
use city.Schema.Validate
use city.Schema.Validate.{Checker, Matches, matched, stopped, Verdict}
use city.Schema.Validate.Ends.{
  ends, fits, fits_items, fields_fit, ref_fits, target_fits, shallow_fits, shallow_items, fits_more,
  fits-get, ends-then, ends-verdict, ends-check_bound, ends-check_type, ends-check_const,
  ends-check_enum, ends-check_required, ends-check_unique, ends-check_pattern,
}

-- a count that no recursion stopped
unfoldable ends_count : Matches → Bool
unfolding ends
ends_count (matched n) = true
ends_count (stopped v) = ends v

counted-ends :
    (v : Verdict) (m : Matches)
    → ends v ≡ true
    → ends_count m ≡ true
    → ends_count (Validate.counted v m) ≡ true
unfolding ends_count ends
counted-ends Validate.valid (matched n) h g = refl
counted-ends Validate.invalid (matched n) h g = refl
counted-ends Validate.malformed (matched n) h g = refl
counted-ends Validate.too_deep (matched n) h g = cc
counted-ends Validate.valid (stopped v) h g = g
counted-ends Validate.invalid (stopped v) h g = g
counted-ends Validate.malformed (stopped v) h g = refl
counted-ends Validate.too_deep (stopped v) h g = cc

negated-ends : (v : Verdict) → ends v ≡ true → ends (Validate.negated v) ≡ true
unfolding ends
negated-ends Validate.valid h = refl
negated-ends Validate.invalid h = refl
negated-ends Validate.malformed h = refl
negated-ends Validate.too_deep h = cc

items_fit :
    (store : SchemaStore) (n : ℕ) (name : String) (root : Json) (l : Items)
    → fits store n name root (arr l) ≡ true
    → fits_items store n name root l ≡ true
unfolding fits shallow_fits shallow_items fits_items
items_fit store zero name root l h = cc
items_fit store (suc n) name root l h = each_fits l h
  where
    each_fits :
        (l : Items)
        → shallow_items store (fits store n) name root l ≡ true
        → fits_items store (suc n) name root l ≡ true
    each_fits nil h = refl
    each_fits (cons v l) h =
        let (a, b) =
          and_parts (shallow_fits store (fits store n) name root v)
            (shallow_items store (fits store n) name root l) h in
        and_both _ _ a (each_fits l b)

field_fits :
    (store : SchemaStore) (n : ℕ) (name : String) (root : Json) (d : Fields) (k : String) (s : Json)
    → fits store n name root (obj d) ≡ true
    → get k d ≡ some s
    → fits store n name root s ≡ true
unfolding fits shallow_fits
field_fits store zero name root d k s h f = cc
field_fits store (suc n) name root d k s h f =
    fits_more store n name root s (fits-get store (fits store n) name root k d s h f).1

module _ (store : SchemaStore) (call : Checker) (n : ℕ)
    (ok : (v s : Json) (name : String) (root : Json)
      → truthy root ≡ true
      → fits store n name root s ≡ true
      → ends (call v s name root) ≡ true)
    (name : String) (root : Json) (there : truthy root ≡ true) where
  all-ends :
      (v : Json) (l : Items)
      → fits_items store n name root l ≡ true
      → ends (Validate.check_all store call name root v l) ≡ true
  unfolding Validate.check_all fits_items ends
  all-ends v nil h = refl
  all-ends v (cons s l) h =
      let (a, b) = and_parts (fits store n name root s) (fits_items store n name root l) h in
      ends-then _ _ (ok v s name root there a) (all-ends v l b)

  count-ends :
      (v : Json) (l : Items)
      → fits_items store n name root l ≡ true
      → ends_count (Validate.count_matches store call name root v l) ≡ true
  unfolding Validate.count_matches fits_items ends_count
  count-ends v nil h = refl
  count-ends v (cons s l) h =
      let (a, b) = and_parts (fits store n name root s) (fits_items store n name root l) h in
      counted-ends _ _ (ok v s name root there a) (count-ends v l b)

  judged-ends :
      (enough : ℕ → Bool) (m : Matches)
      → ends_count m ≡ true
      → ends (Validate.judged enough m) ≡ true
  unfolding ends_count
  judged-ends enough (matched k) h = ends-verdict (enough k)
  judged-ends enough (stopped v) h = h

  names-ends :
      (d : Fields) (s : Json)
      → fits store n name root s ≡ true
      → ends (Validate.check_names store call name root d s) ≡ true
  unfolding Validate.check_names ends
  names-ends end s h = refl
  names-ends (field k v d) s h = ends-then _ _ (ok (str k) s name root there h) (names-ends d s h)

  each-ends :
      (l : Items) (s : Json)
      → fits store n name root s ≡ true
      → ends (Validate.check_each store call name root l s) ≡ true
  unfolding Validate.check_each ends
  each-ends nil s h = refl
  each-ends (cons v l) s h = ends-then _ _ (ok v s name root there h) (each-ends l s h)

  -- what is found fits
  abbrev Fit : Option Json → Type 0
  Fit o = (s : Json) → o ≡ some s → fits store n name root s ≡ true

  -- what a reference leads to fits
  ref-ends :
      (v : Json) (o : Option Json)
      → ((s : Json) → o ≡ some s → ref_fits store (fits store n) name root "$ref" s ≡ true)
      → ends (Validate.check_ref store call name root v o) ≡ true
  unfolding Validate.check_ref ends ref_fits target_fits
  ref-ends v none h = refl
  ref-ends v (some (str ref)) h = at (resolve store ref name root) (h (str ref) refl)
    where
      at :
          (o : Option Resolved)
          → target_fits store (fits store n) name root o ≡ true
          → ends (elim o [ none ↦ Validate.invalid | some r ↦ call v r.node r.name r.root ]) ≡ true
      at none f = refl
      at (some r) f =
          let (a, b) = and_parts (truthy r.root) (fits store n r.name r.root r.node) f in
          ok v r.node r.name r.root a b
  ref-ends v (some null) h = refl
  ref-ends v (some (boolean _)) h = refl
  ref-ends v (some (int _)) h = refl
  ref-ends v (some (arr _)) h = refl
  ref-ends v (some (obj _)) h = refl

  all_of-ends :
      (v : Json) (o : Option Json)
      → Fit o
      → ends (Validate.check_all_of store call name root v o) ≡ true
  unfolding Validate.check_all_of ends fits
  all_of-ends v none h = refl
  all_of-ends v (some (arr l)) h = all-ends v l (items_fit store n name root l (h (arr l) refl))
  all_of-ends v (some null) h = refl
  all_of-ends v (some (boolean _)) h = refl
  all_of-ends v (some (int _)) h = refl
  all_of-ends v (some (str _)) h = refl
  all_of-ends v (some (obj _)) h = refl

  some_of-ends :
      (enough : ℕ → Bool) (v : Json) (o : Option Json)
      → Fit o
      → ends (Validate.check_some_of store call name root enough v o) ≡ true
  unfolding Validate.check_some_of ends
  some_of-ends enough v none h = refl
  some_of-ends enough v (some (arr l)) h =
      judged-ends enough _ (count-ends v l (items_fit store n name root l (h (arr l) refl)))
  some_of-ends enough v (some null) h = refl
  some_of-ends enough v (some (boolean _)) h = refl
  some_of-ends enough v (some (int _)) h = refl
  some_of-ends enough v (some (str _)) h = refl
  some_of-ends enough v (some (obj _)) h = refl

  not-ends :
      (v : Json) (o : Option Json)
      → Fit o
      → ends (Validate.check_not store call name root v o) ≡ true
  unfolding Validate.check_not ends
  not-ends v none h = refl
  not-ends v (some s) h = negated-ends _ (ok v s name root there (h s refl))

  property_names-ends :
      (d : Fields) (o : Option Json)
      → Fit o
      → ends (Validate.check_property_names store call name root d o) ≡ true
  unfolding Validate.check_property_names ends
  property_names-ends d (some (obj s)) h = names-ends d (obj s) (h (obj s) refl)
  property_names-ends d none h = refl
  property_names-ends d (some null) h = refl
  property_names-ends d (some (boolean _)) h = refl
  property_names-ends d (some (int _)) h = refl
  property_names-ends d (some (str _)) h = refl
  property_names-ends d (some (arr _)) h = refl

  additional-ends :
      (v : Json) (o : Option Json)
      → Fit o
      → ends (Validate.check_additional store call name root v o) ≡ true
  unfolding Validate.check_additional ends
  additional-ends v none h = refl
  additional-ends v (some (boolean false)) h = refl
  additional-ends v (some (boolean true)) h = refl
  additional-ends v (some (obj s)) h = ok v (obj s) name root there (h (obj s) refl)
  additional-ends v (some null) h = refl
  additional-ends v (some (int _)) h = refl
  additional-ends v (some (str _)) h = refl
  additional-ends v (some (arr _)) h = refl

  value-ends :
      (v : Json) (o additional : Option Json)
      → Fit o
      → Fit additional
      → ends (Validate.check_value store call name root v o additional) ≡ true
  unfolding Validate.check_value
  value-ends v none additional h g = additional-ends v additional g
  value-ends v (some s) additional h g = ok v s name root there (h s refl)

  values-ends :
      (d p : Fields) (additional : Option Json)
      → ((k : String) → Fit (get k p))
      → Fit additional
      → ends (Validate.check_values store call name root d p additional) ≡ true
  unfolding Validate.check_values ends
  values-ends end p additional h g = refl
  values-ends (field k v d) p additional h g =
      ends-then _ _ (value-ends v (get k p) additional (h k) g) (values-ends d p additional h g)

  properties-ends :
      (d : Fields) (o additional : Option Json)
      → Fit o
      → Fit additional
      → ends (Validate.check_properties store call name root d o additional) ≡ true
  unfolding Validate.check_properties ends get
  properties-ends d none additional h g = values-ends d end additional (λ k s f. absurd (cc)) g
  properties-ends d (some (obj p)) additional h g =
      values-ends d p additional (λ k s f. field_fits store n name root p k s (h (obj p) refl) f) g
  properties-ends d (some null) additional h g = refl
  properties-ends d (some (boolean _)) additional h g = refl
  properties-ends d (some (int _)) additional h g = refl
  properties-ends d (some (str _)) additional h g = refl
  properties-ends d (some (arr _)) additional h g = refl

  items-ends :
      (l : Items) (o : Option Json)
      → Fit o
      → ends (Validate.check_items store call name root l o) ≡ true
  unfolding Validate.check_items ends
  items-ends l (some (obj s)) h = each-ends l (obj s) (h (obj s) refl)
  items-ends l none h = refl
  items-ends l (some null) h = refl
  items-ends l (some (boolean _)) h = refl
  items-ends l (some (int _)) h = refl
  items-ends l (some (str _)) h = refl
  items-ends l (some (arr _)) h = refl

  kind-ends :
      (v : Json) (d : Fields)
      → fields_fit store (fits store n) name root d ≡ true
      → ends (Validate.check_kind store call name root v d) ≡ true
  unfolding Validate.check_kind
  kind-ends (obj e) d h =
      ends-then _ _
        (ends-then _ _ (property_names-ends e _ (found "propertyNames")) (ends-check_required e _))
        (properties-ends e _ _ (found "properties") (found "additionalProperties"))
    where
      found : (k : String) → Fit (get k d)
      found k s f = (fits-get store (fits store n) name root k d s h f).1
  kind-ends (arr l) d h =
      ends-then _ _
        (ends-then _ _
          (ends-then _ _ (bound Validate.at_least (pos (Validate.size l)) "minItems")
            (bound Validate.at_most (pos (Validate.size l)) "maxItems"))
          (ends-check_unique l (get "uniqueItems" d)))
        (items-ends l (get "items" d)
          (λ s f. (fits-get store (fits store n) name root "items" d s h f).1))
    where
      bound :
          (fine : ℤ → ℤ → Bool) (m : ℤ) (k : String)
          → ends (Validate.check_bound fine m (get k d)) ≡ true
      bound fine m k = ends-check_bound fine m (get k d)
  kind-ends (str t) d h =
      ends-then _ _
        (ends-then _ _ (ends-check_bound Validate.at_least (pos (count t)) (get "minLength" d))
          (ends-check_bound Validate.at_most (pos (count t)) (get "maxLength" d)))
        (ends-check_pattern store t (get "pattern" d))
  kind-ends (int m) d h =
      ends-then _ _
        (ends-then _ _
          (ends-then _ _ (ends-check_bound Validate.at_least m (get "minimum" d))
            (ends-check_bound Validate.at_most m (get "maximum" d)))
          (ends-check_bound Validate.above m (get "exclusiveMinimum" d)))
        (ends-check_bound (λ a b. city.Schema.Equal.int_less a b) m (get "exclusiveMaximum" d))
  kind-ends null d h = ends-verdict true
  kind-ends (boolean b) d h = ends-verdict true

  schema-ends :
      (v : Json) (d : Fields)
      → fields_fit store (fits store n) name root d ≡ true
      → ends (Validate.check_schema store call v d name root) ≡ true
  unfolding Validate.check_schema
  schema-ends v d h =
      ends-then _ _
        (ends-then _ _
          (ends-then _ _
            (ends-then _ _
              (ends-then _ _
                (ends-then _ _
                  (ends-then _ _
                    (ends-then _ _
                      (ref-ends v _
                        (λ s f. (fits-get store (fits store n) name root "$ref" d s h f).0))
                      (all_of-ends v _ (found "allOf")))
                    (some_of-ends _ v _ (found "anyOf")))
                  (some_of-ends _ v _ (found "oneOf")))
                (not-ends v _ (found "not")))
              (ends-check_type v _))
            (ends-check_const v _))
          (ends-check_enum v _))
        (kind-ends v d h)
    where
      found : (k : String) → Fit (get k d)
      found k s f = (fits-get store (fits store n) name root k d s h f).1

with_root : (root s : Json) → truthy root ≡ true → Validate.root_or root s ≡ root
unfolding Validate.root_or
with_root root s h = rw h refl

validate_instance-ends :
    (store : SchemaStore) (n : ℕ) (v s : Json) (name : String) (root : Json)
    → truthy root ≡ true
    → fits store n name root s ≡ true
    → ends (Validate.validate_instance store n v s name root) ≡ true
unfolding Validate.validate_instance fits shallow_fits ends
validate_instance-ends store zero v s name root there h = cc
validate_instance-ends store (suc n) v (obj d) name root there h =
    rw (with_root root (obj d) there) (
      schema-ends store (Validate.validate_instance store n) n (validate_instance-ends store n) name
        root there v d h)
validate_instance-ends store (suc n) v null name root there h = refl
validate_instance-ends store (suc n) v (boolean _) name root there h = refl
validate_instance-ends store (suc n) v (int _) name root there h = refl
validate_instance-ends store (suc n) v (str _) name root there h = refl
validate_instance-ends store (suc n) v (arr _) name root there h = refl

-- A document, if there is one of the name, is not empty, and the fuel is enough for it.
unfoldable pub fits_document : SchemaStore → ℕ → String → Option Json → Bool
unfolding fits truthy
fits_document store n name none = true
fits_document store n name (some s) = truthy s && fits store n name s s

-- Validation against a named schema ends, whatever the instance, when the document is not empty and
-- the fuel is above the nesting of the schema, counted through the documents that its "$ref" lead
-- to: the recursion is never too deep.
pub validate_named-ends :
    (store : SchemaStore) (n : ℕ) (v : Json) (name : String)
    → fits_document store n name (get name store.documents) ≡ true
    → ends (Validate.validate_named store n v name) ≡ true
unfolding Validate.validate_named Validate.validate_instance Validate.root_or truthy fits
    shallow_fits ends fits_document
validate_named-ends store n v name h = at (get name store.documents) h
  where
    from_null :
        (n : ℕ) (s : Json)
        → truthy s ≡ true
        → fits store n name s s ≡ true
        → ends (Validate.validate_instance store n v s name null) ≡ true
    from_null zero s there f = cc
    from_null (suc n) (obj d) there f =
        schema-ends store (Validate.validate_instance store n) n (validate_instance-ends store n)
          name (obj d) there v d f
    from_null (suc n) null there f = refl
    from_null (suc n) (boolean _) there f = refl
    from_null (suc n) (int _) there f = refl
    from_null (suc n) (str _) there f = refl
    from_null (suc n) (arr _) there f = refl

    at :
        (o : Option Json)
        → fits_document store n name o ≡ true
        → ends (elim o [
          | none ↦ Validate.invalid
          | some s ↦ Validate.validate_instance store n v s name null
        ])
          ≡ true
    at none f = refl
    at (some s) f = let (a, b) = and_parts (truthy s) (fits store n name s s) f in from_null n s a b
