-- ===== src/Memory/Export.antt =====
-- `rebuild_index`, `export_memories`, `import_export` and `get` of src/city2core/memory.py. The
-- verification of the store that ends `rebuild_index` is an argument.
use city.Base.{
  ℕ, suc, String, ◌=?◌, ◌&◌, Bool, false, not, Option, none, some, List, [], ◌∷◌, if◌then◌else◌,
}
use mathlib.Core.List.{reverse}
use city.Model.Json.{Json, Items, Fields, str, num, obj, arr, nil, cons, get, put, exclude, items}
use city.Store.Tables.{MemoryRow}
use city.Store.Rows.{Db, Event}
use city.Store.Tx.{
  Env, Tx, State, Result, ok, err, core_error, unsupported_export, integrity_error, ◌>>=◌, ◌>>◌,
  pure, fail, guard, reads, write, sha_json, field_of, list_of,
}
use city.Store.Events.{event_from_row}
use city.Core.Call.{dict, invoke, pick, get_or}
use city.Memory.Fields.{text_at, dicts_of, each, any_of}
use city.Memory.Sort.{sort, text_le}
use city.Memory.Rows.{memory_row, index_record}
use city.Memory.Validate.{validate_memory}
use city.Memory.Sweep.{accepted_rows, answered}
use city.Memory.Create.{create_candidate}

-- `get`
unfoldable pub get_memory : String → Tx Fields
get_memory id = do row ← memory_row id; pure row.record_json

-- the accepted rows, by identifier
unfoldable pub accepted_sorted : List MemoryRow → List MemoryRow
unfolding accepted_rows sort text_le
accepted_sorted t = sort (λ a b. text_le a.memory_id b.memory_id) (accepted_rows t)

-- the transaction of `rebuild_index`
unfoldable pub rebuild_in : Tx (List MemoryRow)
unfolding accepted_sorted index_record
rebuild_in = do
  write (λ db. record db { memory_fts = [] })
  rows ← reads (λ db. accepted_sorted db.memories)
  each (λ r. index_record r.record_json) rows
  pure rows

unfoldable pub length : List MemoryRow → ℕ
length [] = 0
length (r ∷ t) = suc (length t)

-- A raise inside rolls the index back; the verification comes after the commit.
unfoldable pub rebuild_index : (Db → Bool) → Env → Db → Result ℕ × Db
unfolding rebuild_in length
rebuild_index verified env db = elim (rebuild_in env (record { db = db; calls = 0 })) [
  | err e ↦ (err e, db)
  | ok (rows, s) ↦ (if verified s.db then ok (length rows) else err integrity_error, s.db)
]

-- the events of memories, the oldest first, each with its digest
unfoldable pub memory_events : List Event → Items
unfolding event_from_row put
memory_events [] = nil
memory_events (e ∷ l) =
    let rest = memory_events l in
    if e.aggregate_type =? "memory"
    then cons (obj (put "event_sha256" (str e.event_sha256) (event_from_row e))) rest
    else rest

unfoldable pub exported_records : List MemoryRow → Items
exported_records [] = nil
exported_records (r ∷ t) = cons (obj r.record_json) (exported_records t)

-- `export_memories`; `database_id` is that of `core_meta`
unfoldable pub export_memories : String → Tx Fields
unfolding memory_events exported_records accepted_sorted dict
export_memories database_id = do
  high_water ← reads (λ db. db.global_sequence)
  events ← reads (λ db. memory_events (reverse db.events))
  records ← reads (λ db. exported_records (accepted_sorted db.memories))
  writer ← city.Store.Tx.writer
  let export = dict (
      ("schema_version", str "city2.memory-export/v1")
      ∷ ("source_database_id", str database_id)
      ∷ ("source_writer_id", str writer)
      ∷ ("source_event_high_water", num high_water)
      ∷ ("memory_events", arr events)
      ∷ ("accepted_memories", arr records)
      ∷ [])
  sha ← sha_json (obj export)
  pure (dict (("export", obj export) ∷ ("sha256", str sha) ∷ []))

-- whether the local log has the event with another digest
unfoldable pub collides : String → String → List Event → Bool
collides id sha [] = false
collides id sha (e ∷ l) =
    if e.event_id =? id then not (e.event_sha256 =? sha) else collides id sha l

-- `event.get("event_sha256") == sha`
unfoldable pub is_text : String → Option Json → Bool
is_text sha (some (str t)) = t =? sha
is_text sha _ = false

-- the loop over the exported events; `seen` are the identifiers so far
unfoldable pub check_exported : List String → List Fields → Tx (Unit {0})
unfolding any_of collides exclude is_text get
check_exported seen [] = pure tt
check_exported seen (event ∷ l) = do
  event_sha ← sha_json (obj (exclude (λ k. k =? "event_sha256") event))
  guard (is_text event_sha (get "event_sha256" event)) integrity_error
  event_id ← text_at "event_id" event
  guard (not (any_of (λ t. t =? event_id) seen)) integrity_error
  local ← reads (λ db. collides event_id event_sha db.events)
  guard (not local) integrity_error
  check_exported (event_id ∷ seen) l

unfoldable pub check_accepted : Fields → Tx (Unit {0})
check_accepted record_dict = do
  validate_memory record_dict
  state ← text_at "review_state" record_dict
  guard (state =? "accepted") integrity_error

-- the checks before anything is imported
unfoldable pub checked_export : Fields → Tx (List Fields)
unfolding check_exported check_accepted
checked_export export = do
  version ← pure (get_or "schema_version" (str "") export)
  guard (is_version version) (core_error unsupported_export)
  events ← dicts_of (← list_of (get_or "memory_events" (arr nil) export))
  check_exported [] events
  records ← dicts_of (← list_of (get_or "accepted_memories" (arr nil) export))
  each check_accepted records
  pure records
  where
    is_version : Json → Bool
    is_version (str t) = t =? "city2.memory-export/v1"
    is_version _ = false

-- the fields of a candidate, of an exported record
unfoldable pub imported_fields : Fields → Tx Fields
unfolding get
imported_fields record_dict = do
  chosen ←
      pick
        ("scope" ∷ "type" ∷ "statement" ∷ "evidence_refs" ∷ "asserted_by" ∷ "owner" ∷ "valid_from"
          ∷ "fact_class" ∷ "revalidation_policy" ∷ "revalidate_at" ∷ "confidence" ∷ "sensitivity"
          ∷ "labels" ∷ [])
        record_dict
  pure
      (elim (get "valid_until" record_dict) [ none ↦ chosen | some v ↦ put "valid_until" v chosen ])

-- the fields and the key of one record's command
unfoldable pub import_input : String → Fields → Tx (Fields × String)
unfolding imported_fields
import_input import_key record_dict = do
  fields ← imported_fields record_dict
  memory_id ← text_at "memory_id" record_dict
  pure (fields, "memory:import:" & import_key & ":" & memory_id)

-- `candidate["memory_id"]`
unfoldable pub id_of : Env → Db → Fields → Result String
id_of env db d = elim (text_at "memory_id" d env (record { db = db; calls = 0 })) [
  | err e ↦ err e
  | ok (t, s) ↦ ok t
]

-- one record's command, and then the rest of the loop
unfoldable pub import_one :
    Env
    → String
    → Fields
    → String
    → Db
    → (Db → Result (List String) × Db)
    → Result (List String) × Db
unfolding invoke create_candidate id_of
import_one env actor fields key db next =
    let (outcome, after) = invoke env (create_candidate fields actor) key db in
    elim outcome [
      | err e ↦ (err e, after)
      | ok d ↦ elim (id_of env after d) [
        | err e ↦ (err e, after)
        | ok id ↦ answered id (next after)
      ]
    ]

-- the loop of `import_export`; the n-th record has the n-th environment
unfoldable pub import_records :
    (ℕ → Env) → String → String → List Fields → Db → Result (List String) × Db
unfolding import_input import_one
import_records envs actor import_key [] db = (ok [], db)
import_records envs actor import_key (d ∷ l) db =
    elim (import_input import_key d (envs 0) (record { db = db; calls = 0 })) [
      | err e ↦ (err e, db)
      | ok ((fields, key), s) ↦
          import_one (envs 0) actor fields key db
            (λ after. import_records (λ n. envs (suc n)) actor import_key l after)
    ]

abbrev imported : Env → Fields → Result (List String) × Db → Result Fields × Db
imported env export (err e, db) = (err e, db)
imported env export (ok ids, db) =
    elim (sha_json (obj export) env (record { db = db; calls = 0 })) [
      | err e ↦ (err e, db)
      | ok (sha, s) ↦ (
        ok (dict (("imported_memory_ids", arr (items ids)) ∷ ("export_sha256", str sha) ∷ [])),
        db,
      )
    ]

unfoldable pub import_export : (ℕ → Env) → Fields → String → String → Db → Result Fields × Db
unfolding checked_export import_records dict items
import_export envs export actor import_key db =
    elim (checked_export export (envs 0) (record { db = db; calls = 0 })) [
      | err e ↦ (err e, db)
      | ok (records, s) ↦
          imported (envs 0) export (import_records (λ n. envs (suc n)) actor import_key records db)
    ]
