-- ===== src/Schema/Equal/Laws.antt =====
-- `json_equal` of src/city2core/schema.py on one value.
use city.Base.{
  String, ◌=?◌, ◌≡◌, refl, Bool, true, false, not, ◌&&◌, Option, none, some, arith, text_eq,
  eq_refl, and_parts, and_both, if◌then◌else◌,
}
use city.Model.Json.{
  ℤ, pos, negsuc, Json, Items, Fields, null, boolean, int, str, arr, obj, nil, cons, end, field,
  get, has,
}
use city.Schema.Equal.{int_equal, keys_among, bool_equal, json_equal, items_equal, fields_equal}

-- No dict in the value has a key twice.
unfoldable mutual
  unfolding has

  pub distinct : Json → Bool
  distinct (arr l) = distinct_items l
  distinct (obj d) = distinct_fields d
  distinct _ = true

  pub distinct_items : Items → Bool
  distinct_items nil = true
  distinct_items (cons v l) = distinct v && distinct_items l

  pub distinct_fields : Fields → Bool
  distinct_fields end = true
  distinct_fields (field k v d) = not (has k d) && distinct v && distinct_fields d

-- All that `d` holds is in `e`.
abbrev Within : Fields → Fields → Type 0
Within d e = (k : String) (v : Json) → get k d ≡ some v → get k e ≡ some v

head-Within : (k : String) (v : Json) (d e : Fields) → Within (field k v d) e → get k e ≡ some v
unfolding get
head-Within k v d e h = h k v (ground (arith, eq_refl k))

tail-Within :
    (k : String) (v : Json) (d e : Fields) → has k d ≡ false → Within (field k v d) e → Within d e
unfolding get has
tail-Within k v d e new h j w f = h j w (at (k =? j) refl)
  where
    at : (b : Bool) → (k =? j) ≡ b → ◌≡◌ {A = Option Json} (if b then some v else get j d) (some w)
    at true same = let eq = text_eq k j same in ground arith
    at false other = f

keys-Within : (d e : Fields) → distinct_fields d ≡ true → Within d e → keys_among d e ≡ true
unfolding keys_among has distinct_fields
keys-Within end e u h = refl
keys-Within (field k v d) e u h =
    let (a, b) = and_parts (not (has k d) && distinct v) (distinct_fields d) u in
    let (new, c) = and_parts (not (has k d)) (distinct v) a in
    let there = head-Within k v d e h in
    let rest = keys-Within d e b (tail-Within k v d e (not-true (has k d) new) h) in
    and_both _ _ (cc there) rest
  where
    not-true : (b : Bool) → not b ≡ true → b ≡ false
    not-true true g = cc
    not-true false g = refl

int_equal_self : (n : ℤ) → int_equal n n ≡ true
unfolding int_equal
int_equal_self (pos n) = ground arith
int_equal_self (negsuc n) = ground arith

bool_equal_self : (b : Bool) → bool_equal b b ≡ true
unfolding bool_equal
bool_equal_self true = refl
bool_equal_self false = refl

not-true : (b : Bool) → not b ≡ true → b ≡ false
not-true true g = cc
not-true false g = refl

found_equal :
    (v w : Json) (o : Option Json)
    → o ≡ some w
    → json_equal v w ≡ true
    → ◌≡◌ {A = Bool} (elim o [ none ↦ false | some x ↦ json_equal v x ]) true
found_equal v w o h g = rw (h) g

mutual
  unfolding json_equal items_equal fields_equal distinct distinct_items distinct_fields

  pub equal_self : (v : Json) → distinct v ≡ true → json_equal v v ≡ true
  equal_self null u = refl
  equal_self (boolean b) u = bool_equal_self b
  equal_self (int n) u = int_equal_self n
  equal_self (str t) u = eq_refl t
  equal_self (arr l) u = items_equal_self l u
  equal_self (obj d) u =
      let keys = keys-Within d d u (λ k v f. f) in
      and_both _ _ (and_both _ _ keys keys) (fields_equal_self d d u (λ k v f. f))

  items_equal_self : (l : Items) → distinct_items l ≡ true → items_equal l l ≡ true
  items_equal_self nil u = refl
  items_equal_self (cons v l) u =
      let (a, b) = and_parts (distinct v) (distinct_items l) u in
      and_both _ _ (equal_self v a) (items_equal_self l b)

  fields_equal_self :
      (d e : Fields) → distinct_fields d ≡ true → Within d e → fields_equal d e ≡ true
  fields_equal_self end e u h = refl
  fields_equal_self (field k v d) e u h =
      let (a, b) = and_parts (not (has k d) && distinct v) (distinct_fields d) u in
      let (new, c) = and_parts (not (has k d)) (distinct v) a in
      and_both _ _ (found_equal v v (get k e) (head-Within k v d e h) (equal_self v c))
        (fields_equal_self d e b (tail-Within k v d e (not-true (has k d) new) h))
