-- ===== src/Model/Canonical.antt =====
-- `canonical_json`, `sha256_json` and `digest_profile` of src/city2core/model.py. The digest of a
-- text (`hashlib`) and the quoted form of a text (`json.dumps` of a `str`) are parameters.
-- `_assert_canonical_value` cannot refuse a text here, since a `String` holds no surrogate.
use Prim.Native.Char.{code}
use city.Base.{
  ℕ, zero, suc, ◌+◌, ◌-◌, ◌/◌, ◌%◌, ltb, leb, ◌==◌, String, ◌&◌, Bool, true, false, ◌&&◌, Option,
  none, some, List, [], ◌∷◌, if◌then◌else◌,
}
use city.Model.Json.{
  pos, negsuc, magnitude, Json, Items, Fields, null, boolean, int, str, arr, obj, nil, cons, end,
  field, exclude, elem,
}

-- The library calls below a digest.
pub record Digest : Type 0 where
  -- `hashlib.sha256(text.encode("utf-8")).hexdigest()`
  pub sha256_text : String → String
  -- `json.dumps(text, ensure_ascii=False, separators=(",", ":"))`
  pub dumps_text : String → String

-- the largest integer of the profile, 2 ^ 53 - 1
abbrev pub max_safe_integer : ℕ
max_safe_integer = 9007199254740991

mutual
  pub is_canonical : Json → Bool
  is_canonical (int n) = leb (magnitude n) max_safe_integer
  is_canonical (arr xs) = are_canonical xs
  is_canonical (obj d) = fields_canonical d
  is_canonical _ = true

  pub are_canonical : Items → Bool
  are_canonical nil = true
  are_canonical (cons x xs) = is_canonical x && are_canonical xs

  pub fields_canonical : Fields → Bool
  fields_canonical end = true
  fields_canonical (field k v d) = is_canonical v && fields_canonical d

abbrev digit : ℕ → String
digit n =
    if n == 0
    then "0"
    else if n == 1
    then "1"
    else if n == 2
    then "2"
    else if n == 3
    then "3"
    else if n == 4
    then "4"
    else if n == 5
    then "5"
    else if n == 6
    then "6"
    else if n == 7
    then "7"
    else if n == 8
    then "8"
    else "9"

-- `str(n)` of a natural number, on fuel; a number below 10 ^ fuel is printed in full.
decimal_loop : ℕ → ℕ → String → String
decimal_loop zero n acc = acc
decimal_loop (suc fuel) n acc =
    let text = digit (n % 10) & acc in
    let rest = decimal_loop fuel (n / 10) text in if ltb n 10 then text else rest

-- The profile's integers have at most 16 digits.
pub decimal : ℕ → String
unfolding decimal_loop
decimal n = decimal_loop 17 n ""

-- The UTF-16 code units of a text.
unfoldable pub utf16 : String → List ℕ
utf16 String.[] = []
utf16 (String.◌∷◌ c s) =
    let rest = utf16 s in
    if ltb (code c) 0x10000
    then code c ∷ rest
    else (0xD800 + (code c - 0x10000) / 0x400) ∷ (0xDC00 + (code c - 0x10000) % 0x400) ∷ rest

-- `a <= b` on lists of code units, which is the order of their big-endian bytes.
units_le : List ℕ → List ℕ → Bool
units_le [] b = true
units_le (x ∷ a) [] = false
units_le (x ∷ a) (y ∷ b) =
    let rest = units_le a b in if ltb x y then true else if x == y then rest else false

-- An encoded entry goes before the first entry with a larger key.
insert_entry : String × String → List (String × String) → List (String × String)
unfolding utf16 units_le
insert_entry e [] = e ∷ []
insert_entry e (f ∷ l) =
    let later = f ∷ insert_entry e l in
    if units_le (utf16 e.0) (utf16 f.0) then e ∷ f ∷ l else later

sort_entries : List (String × String) → List (String × String)
unfolding insert_entry
sort_entries [] = []
sort_entries (e ∷ l) = insert_entry e (sort_entries l)

join : List String → String
join [] = ""
join (s ∷ []) = s
join (s ∷ t ∷ l) = s & "," & join (t ∷ l)

module _ (lib : Digest) where
  entry_texts : List (String × String) → List String
  entry_texts [] = []
  entry_texts ((k, v) ∷ l) = (lib.dumps_text k & ":" & v) ∷ entry_texts l

  mutual
    unfolding join sort_entries entry_texts decimal

    pub encode_canonical : Json → String
    encode_canonical null = "null"
    encode_canonical (boolean true) = "true"
    encode_canonical (boolean false) = "false"
    encode_canonical (int (pos n)) = decimal n
    encode_canonical (int (negsuc n)) = "-" & decimal (suc n)
    encode_canonical (str s) = lib.dumps_text s
    encode_canonical (arr xs) = "[" & join (encode_items xs) & "]"
    encode_canonical (obj d) = "{" & join (entry_texts (sort_entries (encode_fields d))) & "}"

    pub encode_items : Items → List String
    encode_items nil = []
    encode_items (cons x xs) = encode_canonical x ∷ encode_items xs

    pub encode_fields : Fields → List (String × String)
    encode_fields end = []
    encode_fields (field k v d) = (k, encode_canonical v) ∷ encode_fields d

  -- `none` is the `ValueError` of a value outside the profile.
  unfoldable pub canonical_json : Json → Option String
  unfolding is_canonical encode_canonical
  canonical_json v = if is_canonical v then some (encode_canonical v) else none

  unfoldable pub sha256_json : Json → Option String
  sha256_json v = elim (canonical_json v) [ none ↦ none | some t ↦ some (lib.sha256_text t) ]

  unfoldable pub digest_profile : Fields → List String → Option String
  unfolding exclude elem sha256_json
  digest_profile d excluded = sha256_json (obj (exclude (λ k. elem k excluded) d))
