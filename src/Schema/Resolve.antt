-- ===== src/Schema/Resolve.antt =====
-- `SchemaStore.resolve` of src/city2core/schema.py. `Path(target).name` is a parameter.
use Prim.Native.Char.{Char, code}
use city.Base.{
  ℕ, ◌==◌, String, ◌=?◌, ◌&◌, Bool, ◌&&◌, Option, none, some, List, [], ◌∷◌, if◌then◌else◌,
}
use city.Model.Json.{Json, Fields, obj, get}

-- The schema documents, by name.
pub record SchemaStore : Type 0 where
  pub documents : Fields
  pub path_name : String → String
  -- `re.search(pattern, text) is not None`
  pub search : String → String → Bool

abbrev before : Char → String × Option String → String × Option String
before c (s, rest) = (String.◌∷◌ c s, rest)

-- `text.partition(c)`, for the character of a code; `none` when it is not there
unfoldable pub partition : ℕ → String → String × Option String
partition n String.[] = ("", none)
partition n (String.◌∷◌ c s) =
    let rest = before c (partition n s) in if code c == n then ("", some s) else rest

abbrev onto : Char → List String → List String
onto c [] = String.◌∷◌ c "" ∷ []
onto c (s ∷ l) = String.◌∷◌ c s ∷ l

-- `text.split(c)`
unfoldable pub split : ℕ → String → List String
split n String.[] = "" ∷ []
split n (String.◌∷◌ c s) = let rest = split n s in if code c == n then "" ∷ rest else onto c rest

-- `text.replace(ab, new)`, for the characters of two codes
unfoldable pub replace_pair : ℕ → ℕ → String → String → String
replace_pair a b new String.[] = ""
replace_pair a b new (String.◌∷◌ c String.[]) = String.◌∷◌ c ""
replace_pair a b new (String.◌∷◌ c (String.◌∷◌ d s)) =
    let rest = replace_pair a b new s in
    let next = replace_pair a b new (String.◌∷◌ d s) in
    if code c == a && code d == b then new & rest else String.◌∷◌ c next

-- `raw_part.replace("~1", "/").replace("~0", "~")`
unfoldable pub unescape : String → String
unfolding replace_pair
unescape part = replace_pair 126 48 "~" (replace_pair 126 49 "/" part)

-- `node[part]`
unfoldable pub child : String → Json → Option Json
unfolding get
child part (obj d) = get part d
child part _ = none

unfoldable pub descend : List String → Json → Option Json
unfolding child unescape
descend [] node = some node
descend (part ∷ parts) node = elim (child (unescape part) node) [
  | none ↦ none
  | some n ↦ descend parts n
]

-- a fragment that is not empty begins with "/"
unfoldable pub fragment_parts : String → Option (List String)
unfolding split
fragment_parts String.[] = some []
fragment_parts (String.◌∷◌ c s) = if code c == 47 then some (split 47 s) else none

abbrev fragment_of : Option String → Option (List String)
fragment_of none = some []
fragment_of (some f) = fragment_parts f

-- the document that a reference is about, with its name
unfoldable pub document_of : SchemaStore → String → String → Json → Option (Json × String)
unfolding get
document_of store target current_name current_root =
    if target =? ""
    then some (current_root, current_name)
    else elim (get (store.path_name target) store.documents) [
      | none ↦ none
      | some d ↦ some (d, store.path_name target)
    ]

-- The node, the name of its document and the document; `none` is a `ValidationError`.
pub record Resolved : Type 0 where
  pub node : Json
  pub name : String
  pub root : Json

abbrev located : Option (List String) → Option (Json × String) → Option Resolved
located none d = none
located (some parts) none = none
located (some parts) (some (root, name)) = elim (descend parts root) [
  | none ↦ none
  | some n ↦ some (record { node = n; name = name; root = root })
]

unfoldable pub resolve : SchemaStore → String → String → Json → Option Resolved
unfolding partition fragment_parts document_of descend
resolve store ref current_name current_root =
    let parts = partition 35 ref in
    located (fragment_of parts.1) (document_of store parts.0 current_name current_root)
