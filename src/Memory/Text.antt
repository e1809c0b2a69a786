-- ===== src/Memory/Text.antt =====
-- The operations on texts of src/city2core/memory.py: a `len`, a slice and a position count code
-- points.
use Prim.Native.Char.{Char, code}
use Prim.Native.String.{count}
use city.Base.{
  ℕ, zero, suc, ◌+◌, ◌-◌, ◌/◌, ◌%◌, leb, ◌==◌, String, ◌&◌, Bool, true, false, ◌&&◌, List, [], ◌∷◌,
  if◌then◌else◌,
}
use city.Model.Canonical.{decimal}
use city.Store.Tx.{Env}

unfoldable pub token_count : String → ℕ
token_count value = (count value + 3) / 4

-- `text[:n]`
unfoldable pub take_text : ℕ → String → String
take_text zero s = ""
take_text (suc n) String.[] = ""
take_text (suc n) (String.◌∷◌ c s) = String.◌∷◌ c (take_text n s)

-- `text.rstrip()`
unfoldable pub rstrip : (Char → Bool) → String → String
rstrip space String.[] = ""
rstrip space (String.◌∷◌ c s) =
    let rest = rstrip space s in if space c && (count rest == 0) then "" else String.◌∷◌ c rest

unfoldable pub starts_with : String → String → Bool
starts_with String.[] t = true
starts_with (String.◌∷◌ c s) String.[] = false
starts_with (String.◌∷◌ c s) (String.◌∷◌ d t) = (code c == code d) && starts_with s t

-- `text.count(term)` from a position on; `skip` characters belong to an occurrence that was counted
unfoldable pub occurrences_from : String → ℕ → String → ℕ
unfolding starts_with
occurrences_from term skip String.[] = 0
occurrences_from term zero (String.◌∷◌ c s) =
    let found = 1 + occurrences_from term (count term - 1) s in
    let rest = occurrences_from term 0 s in
    if starts_with term (String.◌∷◌ c s) then found else rest
occurrences_from term (suc skip) (String.◌∷◌ c s) = occurrences_from term skip s

-- `text.count(term)`
unfoldable pub occurrences : String → String → ℕ
unfolding occurrences_from
occurrences term text =
    let found = occurrences_from term 0 text in if count term == 0 then count text + 1 else found

-- `term.replace('"', '""')`
unfoldable pub doubled_quotes : String → String
doubled_quotes String.[] = ""
doubled_quotes (String.◌∷◌ c s) =
    let rest = doubled_quotes s in
    if code c == 34 then String.◌∷◌ c (String.◌∷◌ c rest) else String.◌∷◌ c rest

-- `separator.join(l)`
unfoldable pub join_text : String → List String → String
join_text separator [] = ""
join_text separator (s ∷ []) = s
join_text separator (s ∷ t ∷ l) = s & separator & join_text separator (t ∷ l)

-- `text.split()`: the pieces between the spaces that are not empty
unfoldable pub spaced_pieces : (Char → Bool) → String → List String
spaced_pieces space String.[] = "" ∷ []
spaced_pieces space (String.◌∷◌ c s) =
    let rest = spaced_pieces space s in if space c then "" ∷ rest else longer c rest
  where
    longer : Char → List String → List String
    longer c [] = []
    longer c (t ∷ l) = String.◌∷◌ c t ∷ l

unfoldable pub not_empty : List String → List String
not_empty [] = []
not_empty (t ∷ l) = let rest = not_empty l in if count t == 0 then rest else t ∷ rest

-- `normalize_text` of src/city2core/model.py
unfoldable pub normalize_text : Env → String → String
unfolding join_text spaced_pieces not_empty
normalize_text env value = join_text " " (not_empty (spaced_pieces env.is_space (env.folded value)))

-- leading zeros up to a width of `n` digits
unfoldable pub padded : ℕ → String → String
padded n text = zeros (n - count text) text
  where
    zeros : ℕ → String → String
    zeros zero t = t
    zeros (suc k) t = "0" & zeros k t

-- `_format_score`
unfoldable pub format_score : ℕ → String
unfolding padded
format_score units = decimal (units / 1000000) & "." & padded 6 (decimal (units % 1000000))

-- `f"{9_999_999_999_999_999 - micros:016d}"`; the sign counts for the width
unfoldable pub inverted : ℕ → String
unfolding padded
inverted micros =
    if leb micros 9999999999999999
    then padded 16 (decimal (9999999999999999 - micros))
    else "-" & padded 15 (decimal (micros - 9999999999999999))
