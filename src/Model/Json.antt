-- ===== src/Model/Json.antt =====
-- The Python values that `json` reads and writes. A `dict` is an association list in insertion
-- order; `d[k] = v` on a key that is there writes in place. Integers are signed. Floats are left
-- out: Core emits integers and decimal strings only (docstring of `canonical_json` in
-- src/city2core/model.py). A `String` is a sequence of Unicode scalar values.
use city.Base.{
  ℕ, zero, suc, String, ◌=?◌, ◌≡◌, refl, Bool, true, false, Option, none, some, List, [], ◌∷◌,
  arith, if◌then◌else◌, eq_iff,
}

-- `negsuc n` is -(n + 1).
pub data ℤ : Type 0 where
  pos : ℕ → ℤ
  negsuc : ℕ → ℤ

abbrev pub magnitude : ℤ → ℕ
magnitude (pos n) = n
magnitude (negsuc n) = suc n

mutual
  pub data Json : Type 0 where
    null : Json
    boolean : Bool → Json
    int : ℤ → Json
    str : String → Json
    arr : Items → Json
    obj : Fields → Json

  pub data Items : Type 0 where
    nil : Items
    cons : Json → Items → Items

  pub data Fields : Type 0 where
    end : Fields
    field : String → Json → Fields → Fields

abbrev pub num : ℕ → Json
num n = int (pos n)

-- `d.get(k)`
unfoldable pub get : String → Fields → Option Json
get k end = none
get k (field j v d) = if j =? k then some v else get k d

-- `k in d`
unfoldable pub has : String → Fields → Bool
unfolding get
has k d = elim (get k d) [ none ↦ false | some _ ↦ true ]

-- `d[k] = v`
unfoldable pub put : String → Json → Fields → Fields
put k v end = field k v end
put k v (field j w d) = if j =? k then field j v d else field j w (put k v d)

-- `{**d, **updates}`
unfoldable pub merge : Fields → Fields → Fields
unfolding put
merge d end = d
merge d (field k v updates) = merge (put k v d) updates

-- `{k: v for k, v in d.items() if k not in excluded}`
unfoldable pub exclude : (String → Bool) → Fields → Fields
exclude drop end = end
exclude drop (field k v d) = let rest = exclude drop d in if drop k then rest else field k v rest

-- `k in {…}` for a set of texts that is written out
unfoldable pub elem : String → List String → Bool
elem k [] = false
elem k (j ∷ names) = if j =? k then true else elem k names

-- the names that a dict lacks
unfoldable pub missing : List String → Fields → List String
unfolding has
missing [] d = []
missing (n ∷ names) d = let rest = missing names d in if has n d then rest else n ∷ rest

-- the keys of a dict that are not among some names, `set(d) - names`
unfoldable pub unknown : List String → Fields → List String
unfolding elem
unknown names end = []
unknown names (field k v d) = let rest = unknown names d in if elem k names then rest else k ∷ rest

-- `bool(v)`
unfoldable pub truthy : Json → Bool
truthy null = false
truthy (boolean b) = b
truthy (int (pos zero)) = false
truthy (int _) = true
truthy (str s) = if s =? "" then false else true
truthy (arr nil) = false
truthy (arr _) = true
truthy (obj end) = false
truthy (obj _) = true

unfoldable pub items : List String → Items
items [] = nil
items (s ∷ l) = cons (str s) (items l)

-- A key that was written holds what was written, and every other key what it held.
pub get-put :
    (k j : String) (v : Json) (d : Fields)
    → get j (put k v d) ≡ (if k =? j then some v else get j d)
unfolding get put
get-put k j v end = refl
get-put k j v (field i w d) = ground (arith, eq_iff k j, eq_iff i k, eq_iff i j, get-put k j v d)
