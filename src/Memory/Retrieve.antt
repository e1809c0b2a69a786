-- ===== src/Memory/Retrieve.antt =====
-- `MemoryService.retrieve` and `_max_observed` of src/city2core/memory.py.
pub mod Permitted
pub mod Order
use city.Base.{
  ℕ, suc, ◌+◌, ◌*◌, ◌/◌, ltb, ◌==◌, String, ◌=?◌, ◌&◌, Bool, true, false, not, ◌&&◌, Option, none,
  some, List, [], ◌∷◌, ◌++◌, map, if◌then◌else◌,
}
use city.Model.Json.{Fields, get, elem}
use city.Store.Tables.{memory_state_text, MemoryRow, FtsRow}
use city.Store.Tx.{
  Tx, core_error, key_error, unknown_clearance, ◌>>=◌, ◌>>◌, pure, guard, reads, or_raise, asks,
  utc_now, time_of,
}
use city.Core.Call.{is_empty}
use city.Core.Rows.{present}
use city.Memory.Fields.{text_at, texts_at, sources, collect, some_of}
use city.Memory.Sort.{sort, text_le}
use city.Memory.Text.{
  normalize_text, join_text, occurrences, doubled_quotes, inverted, format_score,
}
use city.Memory.Rows.{memory_key, source_text, stale_reason}
use city.Memory.Stale.{is_accepted}

-- `SENSITIVITY`
unfoldable pub sensitivity_rank : String → Option ℕ
sensitivity_rank t =
    if t =? "public"
    then some 0
    else if t =? "internal"
    then some 1
    else if t =? "confidential"
    then some 2
    else if t =? "restricted"
    then some 3
    else none

-- `TYPE_PRIORITY`
unfoldable pub type_priority : String → Option ℕ
type_priority t =
    if t =? "decision"
    then some 10
    else if t =? "preference"
    then some 20
    else if t =? "feedback"
    then some 30
    else if t =? "procedure"
    then some 40
    else if t =? "fact"
    then some 50
    else if t =? "reference"
    then some 60
    else if t =? "outcome"
    then some 70
    else if t =? "hypothesis"
    then some 80
    else none

-- An entry of `ranked`; the second part of the tuple is the negated score.
pub record Ranked : Type 0 where
  pub priority : ℕ
  pub score_units : ℕ
  pub inverted_time : String
  pub memory_id : String
  pub record_json : Fields

-- `a <= b` on the first four parts
unfoldable pub rank_le : Ranked → Ranked → Bool
unfolding text_le
rank_le a b =
    if a.priority == b.priority
    then if a.score_units == b.score_units
      then if a.inverted_time =? b.inverted_time
        then text_le a.memory_id b.memory_id
        else text_le a.inverted_time b.inverted_time
      else ltb b.score_units a.score_units
    else ltb a.priority b.priority

pub record Exclusion : Type 0 where
  pub memory_id : String
  pub reason : String

-- `RetrievalResult`; an entry of `ranked_candidates` is an identifier with its score, and its rank
-- is its position.
pub record Retrieval : Type 0 where
  pub normalized_query : String
  pub candidate_memory_ids : List String
  pub ranked_candidates : List (String × String)
  pub records : List Fields
  pub excluded : List Exclusion
  pub filters : List String

-- the larger of two texts, the first one of equals
abbrev larger : String → String → String
larger a b = if text_le b a then a else b

unfoldable pub max_text : String → List String → String
unfolding text_le
max_text t [] = t
max_text t (s ∷ l) = max_text (larger t s) l

-- `_max_observed`
unfoldable pub max_observed : Fields → Tx String
unfolding max_text
max_observed record_dict = do
  refs ← sources record_dict
  times ← collect (text_at "observed_at") refs
  elim times [ [] ↦ text_at "created_at" record_dict | t ∷ l ↦ pure (max_text t l) ]

-- `list(set(l))`
unfoldable pub distinct : List String → List String
unfolding elem
distinct [] = []
distinct (s ∷ l) = let rest = distinct l in if elem s rest then rest else s ∷ rest

unfoldable pub total_occurrences : List String → String → ℕ
unfolding occurrences
total_occurrences [] text = 0
total_occurrences (t ∷ terms) text = occurrences t text + total_occurrences terms text

-- `len(l)`
unfoldable pub length : {A : Type 0} → List A → ℕ
length [] = 0
length (x ∷ l) = suc (length l)

-- `max(1, n)`
abbrev at_least_one : ℕ → ℕ
at_least_one n = if n == 0 then 1 else n

unfoldable pub score_of : List String → String → List String → ℕ
unfolding total_occurrences length
score_of [] haystack found = 1000000 / at_least_one (length found)
score_of (t ∷ terms) haystack found =
    (total_occurrences (t ∷ terms) haystack * 1000000) / at_least_one (length found)

-- the entry of a record that is not left out
unfoldable pub rank_entry : List String → MemoryRow → Tx Ranked
unfolding source_text join_text score_of max_observed type_priority inverted
rank_entry terms r = do
  statement ← text_at "statement" r.record_json
  labels ← texts_at "labels" r.record_json
  source ← source_text r.record_json
  haystack ←
      asks (λ env. normalize_text env (join_text " " ((statement ∷ labels) ++ (source ∷ []))))
  found ← asks (λ env. env.words haystack)
  memory_type ← text_at "type" r.record_json
  priority ← or_raise (key_error memory_type) (type_priority memory_type)
  observed ← max_observed r.record_json
  time ← time_of observed
  micros ← asks (λ env. env.timestamp_micros time)
  pure (record {
    priority = priority;
    score_units = score_of terms haystack found;
    inverted_time = inverted micros;
    memory_id = r.memory_id;
    record_json = r.record_json;
  })

-- why a row is left out, by its state, its sensitivity and its sources
unfoldable pub sensitivity_reason : MemoryRow → ℕ → String → Tx (Option String)
unfolding sensitivity_rank stale_reason
sensitivity_reason r clearance now = do
  rank ← or_raise (key_error r.sensitivity) (sensitivity_rank r.sensitivity)
  if ltb clearance rank then pure (some "sensitivity_denied") else stale_reason r.record_json now

unfoldable pub row_reason : MemoryRow → ℕ → String → Tx (Option String)
unfolding sensitivity_reason is_accepted
row_reason r clearance now =
    if is_accepted r.review_state
    then sensitivity_reason r clearance now
    else pure (some (memory_state_text r.review_state))

-- the row's reason, or that the query does not match it
abbrev missed : Bool → Option String → Option String
missed there (some t) = some t
missed true none = none
missed false none = some "query_miss"

-- The lists that the loop fills.
pub record Ranking : Type 0 where
  pub candidate_ids : List String
  pub ranked : List Ranked
  pub excluded : List Exclusion

abbrev pub exclude_row : String → String → Ranking → Ranking
exclude_row id reason k = record k {
  excluded = record { memory_id = id; reason = reason } ∷ k.excluded;
}

abbrev pub include_row : Ranked → Ranking → Ranking
include_row e k = record k { candidate_ids = e.memory_id ∷ k.candidate_ids; ranked = e ∷ k.ranked }

-- one round of the loop
unfoldable pub place_row :
    List String → List String → ℕ → String → MemoryRow → Tx (Ranking → Ranking)
unfolding row_reason rank_entry elem
place_row terms matches clearance now r = do
  reason ← row_reason r clearance now
  elim (missed (elem r.memory_id matches) reason) [
    | some t ↦ pure (exclude_row r.memory_id t)
    | none ↦ rank_entry terms r >>= λ e. pure (include_row e)
  ]

-- the loop over the rows
unfoldable pub rank_rows : List String → List String → ℕ → String → List MemoryRow → Tx Ranking
unfolding place_row
rank_rows terms matches clearance now [] =
    pure (record { candidate_ids = []; ranked = []; excluded = [] })
rank_rows terms matches clearance now (r ∷ rows) = do
  step ← place_row terms matches clearance now r
  rest ← rank_rows terms matches clearance now rows
  pure (step rest)

-- WHERE scope IN (…)
unfoldable pub in_scopes : List String → List MemoryRow → List MemoryRow
unfolding elem
in_scopes scopes [] = []
in_scopes scopes (r ∷ t) =
    let rest = in_scopes scopes t in if elem r.scope scopes then r ∷ rest else rest

unfoldable pub accepted_ids : List MemoryRow → List String
unfolding is_accepted
accepted_ids [] = []
accepted_ids (r ∷ t) =
    let rest = accepted_ids t in if is_accepted r.review_state then r.memory_id ∷ rest else rest

-- `'"' + term + '"'`, with its quotes doubled
unfoldable pub quoted : String → String
unfolding doubled_quotes
quoted term = "\"" & doubled_quotes term & "\""

-- what the index holds of the terms
unfoldable pub matching : List String → List MemoryRow → Tx (List String)
unfolding accepted_ids quoted join_text
matching [] rows = pure (accepted_ids rows)
matching (t ∷ terms) rows = do
  index ← reads (λ db. db.memory_fts)
  asks (λ env. env.fts_match index (join_text " OR " (map quoted (t ∷ terms))))

-- what the results hold of `ranked`
unfoldable pub scores_of : List Ranked → List (String × String)
unfolding format_score
scores_of [] = []
scores_of (e ∷ l) = (e.memory_id, format_score e.score_units) ∷ scores_of l

unfoldable pub records_of : List Ranked → List Fields
records_of [] = []
records_of (e ∷ l) = e.record_json ∷ records_of l

abbrev pub chosen_time : Option String → Tx String
chosen_time none = utc_now
chosen_time (some t) = if t =? "" then utc_now else pure t

-- the rows of the scopes, by identifier
unfoldable pub scoped_rows : List String → List MemoryRow → List MemoryRow
unfolding in_scopes sort text_le
scoped_rows scopes t = sort (λ a b. text_le a.memory_id b.memory_id) (in_scopes scopes t)

unfoldable pub retrieve_from : String → List String → ℕ → Option String → Tx Retrieval
unfolding distinct sort text_le scoped_rows matching rank_rows rank_le scores_of records_of
retrieve_from query allowed_scopes clearance given = do
  now ← chosen_time given
  time_of now
  normalized ← asks (λ env. normalize_text env query)
  found ← asks (λ env. env.words normalized)
  let terms = sort text_le (distinct found)
  rows ← reads (λ db. scoped_rows allowed_scopes db.memories)
  matches ← matching terms rows
  ranking ← rank_rows terms matches clearance now rows
  let ranked = sort rank_le ranking.ranked
  pure (record {
    normalized_query = normalized;
    candidate_memory_ids = ranking.candidate_ids;
    ranked_candidates = scores_of ranked;
    records = records_of ranked;
    excluded = ranking.excluded;
    filters =
        "scope_allowlist" ∷ "accepted_only" ∷ "sensitivity_clearance" ∷ "validity_window"
        ∷ "source_current" ∷ "fts_match" ∷ [];
  })

-- without a scope there is nothing to search
unfoldable pub retrieve_nothing : String → Tx Retrieval
retrieve_nothing query = do
  normalized ← asks (λ env. normalize_text env query)
  pure (record {
    normalized_query = normalized;
    candidate_memory_ids = [];
    ranked_candidates = [];
    records = [];
    excluded = [];
    filters = "scope_allowlist" ∷ [];
  })

unfoldable pub retrieve : String → List String → String → Option String → Tx Retrieval
unfolding sensitivity_rank retrieve_from retrieve_nothing
retrieve query allowed_scopes clearance now = do
  rank ← or_raise (core_error unknown_clearance) (sensitivity_rank clearance)
  if is_empty allowed_scopes
      then retrieve_nothing query
      else retrieve_from query allowed_scopes rank now
