-- ===== src/Memory/Rows.antt =====
-- The statements on the tables of memory in src/city2core/memory.py: `_row`, `_insert_projection`,
-- `_update_projection`, `_index_record` and `_stale_reason`, and the profile of a candidate.
pub mod Reads
pub mod Writes
pub mod Fresh
use city.Base.{
  ℕ, leb, String, ◌=?◌, ◌&◌, Bool, true, false, not, ◌&&◌, Option, none, some, List, [], ◌∷◌, map,
  if◌then◌else◌,
}
use city.Model.Json.{Json, Fields, str, obj, get, exclude, elem}
use city.Store.Tables.{MemoryState, MemoryRow, FtsRow}
use city.Store.Rows.{Db, Marker}
use city.Store.Table.{find, update}
use city.Store.Tx.{
  Tx, core_error, unknown_memory, sqlite_error, ◌>>=◌, ◌>>◌, pure, reads, guard, or_raise, write,
  insert_row, asks, sha_json, check_canonical, time_of,
}
use city.Store.Events.{current_version}
use city.Memory.Fields.{text_at, texts_at, sources, string_of, any_of, collect}
use city.Memory.Text.{normalize_text, join_text}

abbrev pub memory_key : MemoryRow → String
memory_key r = r.memory_id

abbrev pub with_memories : List MemoryRow → Db → Db
with_memories t db = record db { memories = t }

-- `tx.current_version` at `memory_records`
unfoldable pub memory_version : String → Db → ℕ
unfolding current_version
memory_version id db = current_version memory_key (λ r. r.aggregate_version) id db.memories

unfoldable pub memory_row : String → Tx MemoryRow
unfolding find
memory_row id = do
  row ← reads (λ db. find memory_key id db.memories)
  or_raise (core_error unknown_memory) row

-- `str(source.get(key, ""))`
unfoldable pub shown_field : String → Fields → Tx String
unfolding get
shown_field k d = elim (get k d) [ none ↦ pure "" | some v ↦ string_of v ]

unfoldable pub source_parts : Fields → Tx (List String)
unfolding shown_field
source_parts source =
    collect (λ k. shown_field k source)
      ("authoritative_owner" ∷ "uri" ∷ "path" ∷ "source_revision" ∷ [])

-- `_source_text`
unfoldable pub source_text : Fields → Tx String
unfolding source_parts join_text
source_text record_dict = do
  refs ← sources record_dict
  texts ← collect (λ source. source_parts source >>= λ parts. pure (join_text " " parts)) refs
  asks (λ env. normalize_text env (join_text " " texts))

unfoldable pub labels_text : Fields → Tx String
unfolding join_text
labels_text record_dict = do
  labels ← texts_at "labels" record_dict
  asks (λ env. normalize_text env (join_text " " labels))

-- `_candidate_profile`
unfoldable pub candidate_profile : Fields → Fields
unfolding exclude elem
candidate_profile record_dict =
    exclude (λ k. elem k ("aggregate_version" ∷ "created_at" ∷ "memory_id" ∷ "review_state" ∷ []))
      record_dict

-- SELECT record_json FROM memory_records WHERE scope = … AND candidate_sha256 = …
unfoldable pub same_candidate : String → String → List MemoryRow → Option MemoryRow
same_candidate scope sha [] = none
same_candidate scope sha (r ∷ t) =
    if r.scope =? scope && r.candidate_sha256 =? sha then some r else same_candidate scope sha t

-- the CHECK constraints of two columns
unfoldable pub known_type : String → Bool
unfolding elem
known_type t = elem t (
    "fact" ∷ "decision" ∷ "procedure" ∷ "feedback" ∷ "outcome" ∷ "hypothesis" ∷ "reference"
    ∷ "preference" ∷ [])

unfoldable pub known_sensitivity : String → Bool
unfolding elem
known_sensitivity t = elem t ("public" ∷ "internal" ∷ "confidential" ∷ "restricted" ∷ [])

unfoldable pub text_column : Option Json → Tx (Option String)
text_column none = pure none
text_column (some v) = do t ← string_of v; pure (some t)

-- `_insert_projection`, with its UNIQUE(scope, candidate_sha256)
unfoldable pub insert_projection : Fields → String → Marker → String → Tx (Unit {0})
unfolding same_candidate known_type known_sensitivity labels_text source_text get text_column
insert_projection record_dict candidate_sha marker now = do
  memory_id ← text_at "memory_id" record_dict
  scope ← text_at "scope" record_dict
  memory_type ← text_at "type" record_dict
  record_sha ← sha_json (obj record_dict)
  statement ← text_at "statement" record_dict
  labels ← labels_text record_dict
  source ← source_text record_dict
  check_canonical (obj record_dict)
  created_by ← text_at "created_by" record_dict
  revalidate_at ← text_at "revalidate_at" record_dict
  valid_from ← text_at "valid_from" record_dict
  valid_until ← text_column (get "valid_until" record_dict)
  sensitivity ← text_at "sensitivity" record_dict
  created_at ← text_at "created_at" record_dict
  guard (known_type memory_type && known_sensitivity sensitivity) sqlite_error
  taken ← reads (λ db. same_candidate scope candidate_sha db.memories)
  elim taken [ some r ↦ guard false sqlite_error | none ↦ pure tt ]
  insert_row memory_key (λ db. db.memories) with_memories
      (record {
        memory_id = memory_id;
        aggregate_version = 1;
        scope = scope;
        memory_type = memory_type;
        review_state = MemoryState.candidate;
        candidate_sha256 = candidate_sha;
        record_sha256 = record_sha;
        statement = statement;
        labels_text = labels;
        source_text = source;
        record_json = record_dict;
        created_by = created_by;
        reviewed_by = none;
        accepted_at = none;
        stale_reason = none;
        revalidate_at = revalidate_at;
        valid_from = valid_from;
        valid_until = valid_until;
        sensitivity = sensitivity;
        last_event_id = marker.event_id;
        last_event_sha256 = marker.event_sha256;
        event_high_water = marker.database_sequence;
        created_at = created_at;
        updated_at = now;
      })

-- `COALESCE(given, old)`
abbrev coalesce : Option String → Option String → Option String
coalesce none old = old
coalesce (some t) old = some t

-- The keyword arguments of `_update_projection`.
pub record Review : Type 0 where
  pub reviewed_by : Option String
  pub accepted_at : Option String
  pub stale_reason : Option String

abbrev pub no_review : Review
no_review = record { reviewed_by = none; accepted_at = none; stale_reason = none }

-- what the UPDATE sets
unfoldable pub memory_moved :
    MemoryState
    → ℕ
    → Marker
    → String
    → Review
    → Fields
    → String
    → String
    → Option String
    → MemoryRow
    → MemoryRow
memory_moved state version marker now review record_dict sha revalidate_at valid_until r =
    record r {
      aggregate_version = version;
      review_state = state;
      record_sha256 = sha;
      record_json = record_dict;
      reviewed_by = coalesce review.reviewed_by r.reviewed_by;
      accepted_at = coalesce review.accepted_at r.accepted_at;
      stale_reason = review.stale_reason;
      revalidate_at = revalidate_at;
      valid_until = valid_until;
      last_event_id = marker.event_id;
      last_event_sha256 = marker.event_sha256;
      event_high_water = marker.database_sequence;
      updated_at = now;
    }

-- `_update_projection`. The state and the version are those that the caller has put into the record.
unfoldable pub update_projection :
    MemoryState → ℕ → Fields → Marker → String → Review → Tx (Unit {0})
unfolding memory_moved update get text_column
update_projection state version record_dict marker now review = do
  sha ← sha_json (obj record_dict)
  check_canonical (obj record_dict)
  revalidate_at ← text_at "revalidate_at" record_dict
  valid_until ← text_column (get "valid_until" record_dict)
  id ← text_at "memory_id" record_dict
  write (λ db.
      with_memories
        (update memory_key id
          (memory_moved state version marker now review record_dict sha revalidate_at valid_until)
          db.memories)
        db)

-- DELETE FROM memory_fts WHERE memory_id = …
unfoldable pub without_index : String → List FtsRow → List FtsRow
without_index id [] = []
without_index id (r ∷ t) =
    let rest = without_index id t in if r.memory_id =? id then rest else r ∷ rest

unfoldable pub unindex : String → Tx (Unit {0})
unfolding without_index
unindex id = write (λ db. record db { memory_fts = without_index id db.memory_fts })

-- `_index_record`
unfoldable pub index_record : Fields → Tx (Unit {0})
unfolding unindex labels_text source_text
index_record record_dict = do
  id ← text_at "memory_id" record_dict
  unindex id
  statement ← text_at "statement" record_dict
  normal ← asks (λ env. normalize_text env statement)
  labels ← labels_text record_dict
  source ← source_text record_dict
  write (λ db. record db {
    memory_fts =
        record { memory_id = id; statement = normal; labels = labels; source_metadata = source }
        ∷ db.memory_fts;
  })

-- a source is current
unfoldable pub is_current : Fields → Tx Bool
is_current source = do status ← text_at "validity_status" source; pure (status =? "current")

-- the comparison of a time that may be missing with the present
unfoldable pub is_past : Option Json → ℕ → Tx Bool
is_past none current = pure false
is_past (some v) current = do t ← time_of (← string_of v); pure (leb t current)

-- whether every source is current, up to the first one that is not
unfoldable pub all_current : List Fields → Tx Bool
unfolding is_current
all_current [] = pure true
all_current (source ∷ refs) = do
  current ← is_current source
  elim current [ true ↦ all_current refs | false ↦ pure false ]

unfoldable pub source_reason : Fields → Tx (Option String)
unfolding all_current
source_reason record_dict = do
  refs ← sources record_dict
  current ← all_current refs
  pure (if current then none else some "source_not_current")

unfoldable pub expiry_reason : Fields → ℕ → Tx (Option String)
unfolding source_reason get is_past
expiry_reason record_dict current = do
  expired ← is_past (get "valid_until" record_dict) current
  if expired then pure (some "validity_expired") else source_reason record_dict

-- `_stale_reason`
unfoldable pub stale_reason : Fields → String → Tx (Option String)
unfolding expiry_reason
stale_reason record_dict now = do
  current ← time_of now
  due ← time_of (← text_at "revalidate_at" record_dict)
  if leb due current then pure (some "revalidation_due") else expiry_reason record_dict current
