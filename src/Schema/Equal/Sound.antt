-- ===== src/Schema/Equal/Sound.antt =====
-- What `json_equal` of src/city2core/schema.py tells apart.
use city.Base.{
  String, ◌=?◌, ◌≡◌, refl, sym, ◌∙◌, ap, subst, Bool, true, false, Option, none, some, arith, ◌&&◌,
  text_eq, and_parts, if◌then◌else◌,
}
use city.Model.Json.{
  ℤ, pos, negsuc, Json, Items, Fields, null, boolean, int, str, arr, obj, nil, cons, end, field,
  get, has,
}
use city.Schema.Equal.{int_equal, keys_among, bool_equal, json_equal, items_equal, fields_equal}
use city.Schema.Equal.Laws.{distinct, equal_self}

-- Two values that differ in the order of the fields of their dicts only. A Boolean is never an
-- integer.
mutual
  pub data Same : Json → Json → Type 0 where
    nulls : Same null null
    booleans : (b : Bool) → Same (boolean b) (boolean b)
    ints : (n : ℤ) → Same (int n) (int n)
    texts : (t : String) → Same (str t) (str t)
    lists : {xs ys : Items} → SameItems xs ys → Same (arr xs) (arr ys)
    dicts :
        {d e : Fields}
        → ((k : String) → has k d ≡ has k e)
        → ((k : String) (v w : Json) → get k d ≡ some v → get k e ≡ some w → Same v w)
        → Same (obj d) (obj e)

  pub data SameItems : Items → Items → Type 0 where
    empty : SameItems nil nil
    both :
        {x y : Json} {xs ys : Items}
        → Same x y
        → SameItems xs ys
        → SameItems (cons x xs) (cons y ys)

bool_equal_eq : (a b : Bool) → bool_equal a b ≡ true → a ≡ b
unfolding bool_equal
bool_equal_eq true b h = sym h
bool_equal_eq false true h = cc
bool_equal_eq false false h = refl

int_equal_eq : (a b : ℤ) → int_equal a b ≡ true → a ≡ b
unfolding int_equal
int_equal_eq (pos a) (pos b) h = let e : a ≡ b = ground arith in ap pos e
int_equal_eq (negsuc a) (negsuc b) h = let e : a ≡ b = ground arith in ap negsuc e
int_equal_eq (pos a) (negsuc b) h = cc
int_equal_eq (negsuc a) (pos b) h = cc

has-among : (d e : Fields) (k : String) → keys_among d e ≡ true → has k d ≡ true → has k e ≡ true
unfolding keys_among has get
has-among end e k h f = cc
has-among (field j v d) e k h f =
    let (first, rest) = and_parts (has j e) (keys_among d e) h in
    at (j =? k) refl first (has-among d e k rest)
  where
    at :
        (b : Bool)
        → (j =? k) ≡ b
        → has j e ≡ true
        → (has k d ≡ true → has k e ≡ true)
        → has k e ≡ true
    at true same there later = subst (λ i. has i e ≡ true) (text_eq j k same) there
    at false other there later = later (ground (arith, f, other))

-- The same keys are in both.
same_keys :
    (d e : Fields) (k : String) → keys_among d e ≡ true → keys_among e d ≡ true → has k d ≡ has k e
same_keys d e k there back = at (has k d) (has k e) (has-among d e k there) (has-among e d k back)
  where
    at : (a b : Bool) → (a ≡ true → b ≡ true) → (b ≡ true → a ≡ true) → a ≡ b
    at true b f g = sym (f refl)
    at false true f g = g refl
    at false false f g = refl

mutual
  unfolding json_equal items_equal fields_equal get

  json_same : (v w : Json) → json_equal v w ≡ true → Same v w
  json_same null null h = Same.nulls
  json_same (boolean a) (boolean b) h =
      subst (λ x. Same (boolean a) (boolean x)) (bool_equal_eq a b h) (Same.booleans a)
  json_same (int a) (int b) h = subst (λ x. Same (int a) (int x)) (int_equal_eq a b h) (Same.ints a)
  json_same (str a) (str b) h = subst (λ x. Same (str a) (str x)) (text_eq a b h) (Same.texts a)
  json_same (arr xs) (arr ys) h = Same.lists (items_same xs ys h)
  json_same (obj d) (obj e) h =
      let (keys, fields) = and_parts (keys_among d e && keys_among e d) (fields_equal d e) h in
      let (there, back) = and_parts (keys_among d e) (keys_among e d) keys in
      Same.dicts (λ k. same_keys d e k there back) (fields_same d e fields)
  json_same _ _ h = absurd (cc h)

  items_same : (xs ys : Items) → items_equal xs ys ≡ true → SameItems xs ys
  items_same nil nil h = SameItems.empty
  items_same (cons x xs) (cons y ys) h =
      let (first, rest) = and_parts (json_equal x y) (items_equal xs ys) h in
      SameItems.both (json_same x y first) (items_same xs ys rest)
  items_same _ _ h = absurd (cc h)

  fields_same :
      (d e : Fields)
      → fields_equal d e ≡ true
      → (k : String) (v w : Json) → get k d ≡ some v
      → get k e ≡ some w
      → Same v w
  fields_same end e h k v w f g = absurd (cc f)
  fields_same (field j u d) e h k v w f g =
      let (first, rest) =
        and_parts (elim (get j e) [ none ↦ false | some x ↦ json_equal u x ]) (fields_equal d e)
          h in
      at (j =? k) refl f first (json_same u w) (fields_same d e rest k v w)
    where
      at :
          (b : Bool)
          → (j =? k) ≡ b
          → ◌≡◌ {A = Option Json} (if b then some u else get k d) (some v)
          → elim (get j e) [ none ↦ false | some x ↦ json_equal u x ] ≡ true
          → (json_equal u w ≡ true → Same u w)
          → (get k d ≡ some v → get k e ≡ some w → Same v w)
          → Same v w
      at true same found equal here later =
          let there : get j e ≡ some w = ap (λ i. get i e) (text_eq j k same) ∙ g in
          let value : u ≡ v = cc found in
          subst (λ x. Same x w) value
            (here
              (subst (λ o. elim o [ none ↦ false | some x ↦ json_equal u x ] ≡ true) there equal))
      at false other found equal here later = later found g

-- `json_equal` accepts every value whose dicts have no key twice with itself, and two values only
-- if they differ in nothing but the order of the fields of their dicts: the same types, the same
-- Booleans, integers and texts, lists of the same length with such elements in the same order, and
-- dicts with the same keys and such values.
pub json_equal-Same :
    (v : Json)
    → (distinct v ≡ true → json_equal v v ≡ true) × ((w : Json) → json_equal v w ≡ true → Same v w)
json_equal-Same v = (equal_self v, json_same v)
