-- ===== src/Memory/Pack.antt =====
-- The loop of `assemble_context` in src/city2core/memory.py that packs records into sections with
-- token budgets, `_section` and `_max_sensitivity`.
pub mod Bounds
use city.Base.{
  ℕ, ◌+◌, ◌-◌, ◌*◌, ltb, ◌==◌, String, ◌=?◌, Bool, true, false, ◌&&◌, Option, none, some, List, [],
  ◌∷◌, ◌++◌, if◌then◌else◌,
}
use Prim.Native.Char.{Char}
use Prim.Native.String.{count}
use city.Model.Json.{Fields, elem}
use city.Store.Tx.{Tx, key_error, ◌>>=◌, ◌>>◌, pure, or_raise}
use city.Memory.Fields.{text_at, texts_at, meets}
use city.Memory.Text.{token_count, take_text, rstrip}
use city.Memory.Retrieve.{Exclusion, sensitivity_rank}

-- the section of a type of memory
unfoldable pub type_section : String → Option String
type_section t =
    if t =? "decision"
    then some "project_decisions"
    else if t =? "preference"
    then some "project_decisions"
    else if t =? "feedback"
    then some "role_authority"
    else if t =? "procedure"
    then some "procedures"
    else if elem t ("fact" ∷ "reference" ∷ "outcome" ∷ "hypothesis" ∷ [])
    then some "knowledge"
    else none

-- `_section`
unfoldable pub section_of : Fields → Tx String
unfolding type_section elem meets
section_of record_dict = do
  scope ← text_at "scope" record_dict
  labels ← texts_at "labels" record_dict
  memory_type ← text_at "type" record_dict
  if scope =? "company" && meets ("constitution" ∷ "hard_policy" ∷ []) labels
      then pure "constitution"
      else or_raise (key_error memory_type) (type_section memory_type)

-- What the loop reads of a record.
pub record Entry : Type 0 where
  pub memory_id : String
  pub section : String
  pub statement : String
  pub sensitivity : String

unfoldable pub entry_of : Fields → Tx Entry
unfolding section_of
entry_of record_dict = do
  section ← section_of record_dict
  memory_id ← text_at "memory_id" record_dict
  statement ← text_at "statement" record_dict
  sensitivity ← text_at "sensitivity" record_dict
  pure (record {
    memory_id = memory_id;
    section = section;
    statement = statement;
    sensitivity = sensitivity;
  })

-- An entry of `selected`; `excerpt_sha256` is the digest of the excerpt.
pub record Selected : Type 0 where
  pub memory_id : String
  pub excerpt : String
  pub section : String
  pub token_count : ℕ

-- The variables of the loop; `used` and `truncated` are dicts with a default.
pub record Packing : Type 0 where
  pub selected : List Selected
  pub excluded : List Exclusion
  pub used : String → ℕ
  pub truncated : String → Bool

-- `l.append(x)`
unfoldable pub append : {A : Type 0} → A → List A → List A
append x [] = x ∷ []
append x (y ∷ l) = y ∷ append x l

-- `d[section] = value`
abbrev pub set_at : {A : Type 0} → String → A → (String → A) → String → A
set_at section value f s = if section =? s then value else f s

unfoldable pub leave_out : Entry → Packing → Packing
unfolding append
leave_out e p = record p {
  excluded = append (record { memory_id = e.memory_id; reason = "section_budget" }) p.excluded;
  truncated = set_at e.section true p.truncated;
}

abbrev pub selection : Entry → String → Selected
selection e excerpt = record {
  memory_id = e.memory_id;
  excerpt = excerpt;
  section = e.section;
  token_count = token_count excerpt;
}

unfoldable pub take_in : Entry → String → Bool → Packing → Packing
unfolding append token_count
take_in e excerpt cut p = record p {
  selected = append (selection e excerpt) p.selected;
  used = set_at e.section (p.used e.section + token_count excerpt) p.used;
  truncated = if cut then set_at e.section true p.truncated else p.truncated;
}

-- `excerpt[: remaining * 4].rstrip()`
unfoldable pub cut_excerpt : (Char → Bool) → ℕ → String → String
unfolding take_text rstrip
cut_excerpt space remaining statement = rstrip space (take_text (remaining * 4) statement)

-- One round of the loop. What remains is not negative here: a budget that is used up leaves 0.
unfoldable pub pack_one : (Char → Bool) → (String → ℕ) → Entry → Packing → Packing
unfolding leave_out take_in cut_excerpt token_count
pack_one space budget e p =
    let remaining = budget e.section - p.used e.section in
    let excerpt = cut_excerpt space remaining e.statement in
    if remaining == 0
    then leave_out e p
    else if ltb remaining (token_count e.statement)
    then if count excerpt == 0 then leave_out e p else take_in e excerpt true p
    else take_in e e.statement false p

unfoldable pub pack : (Char → Bool) → (String → ℕ) → List Entry → Packing → Packing
unfolding pack_one
pack space budget [] p = p
pack space budget (e ∷ l) p = pack space budget l (pack_one space budget e p)

abbrev pub empty_packing : List Exclusion → Packing
empty_packing excluded = record {
  selected = [];
  excluded = excluded;
  used = λ s. 0;
  truncated = λ s. false;
}

-- `sum(item["token_count"] for item in selected)`
unfoldable pub total_tokens : List Selected → ℕ
total_tokens [] = 0
total_tokens (x ∷ l) = x.token_count + total_tokens l

unfoldable pub is_selected : String → List Selected → Bool
is_selected id [] = false
is_selected id (x ∷ l) = if x.memory_id =? id then true else is_selected id l

-- `max` by the rank of the sensitivity, the first one of equals
unfoldable pub max_sensitivity_from : String × ℕ → List Selected → List Entry → Tx (String × ℕ)
unfolding is_selected sensitivity_rank
max_sensitivity_from best selected [] = pure best
max_sensitivity_from best selected (e ∷ l) = elim (is_selected e.memory_id selected) [
  | false ↦ max_sensitivity_from best selected l
  | true ↦ or_raise (key_error e.sensitivity) (sensitivity_rank e.sensitivity) >>= λ rank.
      elim (ltb best.1 rank) [
        | true ↦ max_sensitivity_from (e.sensitivity, rank) selected l
        | false ↦ max_sensitivity_from best selected l
      ]
]

-- `_max_sensitivity`; "public" is the default, and the lowest
unfoldable pub max_sensitivity : List Selected → List Entry → Tx String
unfolding max_sensitivity_from
max_sensitivity selected entries = do
  best ← max_sensitivity_from ("public", 0) selected entries
  pure best.0
