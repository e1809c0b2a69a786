-- ===== src/Store/Events.antt =====
-- `WriteTransaction` of src/city2core/store.py: aggregate versions and the event log.
pub mod Append
use city.Base.{
  ℕ, suc, ◌+◌, ltb, ◌==◌, String, ◌=?◌, Bool, true, false, ◌&&◌, ◌||◌, Option, none, some, List, [],
  ◌∷◌, if◌then◌else◌,
}
use city.Model.Json.{Json, Fields, str, num, obj, end, field}
use city.Model.Ids
use city.Model.Ids.{zero_sha256}
use city.Store.Rows.{Db, Event, Marker}
use city.Store.Table.{find}
use city.Store.Tx.{
  Tx, State, ◌>>=◌, ◌>>◌, pure, reads, guard, execute, write, utc_now, new_id, fault, accepts,
  sha_json, check_canonical, writer, version_conflict, event_conflict, store_error,
}

-- `_event_from_row`; the same dict is what `append_event` hashes.
unfoldable pub event_from_row : Event → Fields
event_from_row e = field "schema_version" (str "city2.event/v1") (
    field "event_id" (str e.event_id) (
      field "aggregate_type" (str e.aggregate_type) (
        field "aggregate_id" (str e.aggregate_id) (
          field "event_type" (str e.event_type) (
            field "aggregate_version" (num e.aggregate_version) (
              field "aggregate_sequence" (num e.aggregate_sequence) (
                field "writer_id" (str e.writer_id) (
                  field "writer_sequence" (num e.writer_sequence) (
                    field "database_sequence" (num e.database_sequence) (
                      field "actor" (str e.actor) (
                        field "occurred_at" (str e.occurred_at) (
                          field "recorded_at" (str e.recorded_at) (
                            field "idempotency_key" (str e.idempotency_key) (
                              field "prior_event_sha256" (str e.prior_event_sha256) (
                                field "payload_sha256" (str e.payload_sha256) (
                                  field "payload" e.payload
                                    (field "sensitivity" (str e.sensitivity) end)))))))))))))))))

-- The event of an aggregate with the highest sequence number.
abbrev newer : Event → Option Event → Option Event
newer e none = some e
newer e (some f) = if ltb e.aggregate_sequence f.aggregate_sequence then some f else some e

unfoldable pub latest : String → List Event → Option Event
latest id [] = none
latest id (e ∷ l) = let rest = latest id l in if e.aggregate_id =? id then newer e rest else rest

abbrev pub prior_version : Option Event → ℕ
prior_version none = 0
prior_version (some e) = e.aggregate_version

abbrev pub prior_sequence : Option Event → ℕ
prior_sequence none = 0
prior_sequence (some e) = e.aggregate_sequence

abbrev pub prior_hash : Option Event → String
prior_hash none = zero_sha256
prior_hash (some e) = e.event_sha256

-- The UNIQUE constraints of `events`.
clashes : Event → List Event → Bool
clashes e [] = false
clashes e (f ∷ l) =
    (e.database_sequence == f.database_sequence)
    || (e.event_id =? f.event_id)
    || (e.aggregate_id =? f.aggregate_id && e.aggregate_version == f.aggregate_version)
    || (e.aggregate_id =? f.aggregate_id && e.aggregate_sequence == f.aggregate_sequence)
    || (e.writer_id =? f.writer_id && e.writer_sequence == f.writer_sequence)
    || clashes e l

insert_event : Event → Db → Option Db
unfolding clashes
insert_event e db =
    if clashes e db.events then none else some (record db { events = e ∷ db.events })

-- The keyword arguments of `append_event`.
pub record NewEvent : Type 0 where
  pub aggregate_type : String
  pub aggregate_id : String
  pub event_type : String
  pub aggregate_version : ℕ
  pub actor : String
  pub payload : Fields
  pub sensitivity : String

-- The row of a new event; the digest comes last, since the dict that is hashed does not hold it.
abbrev event_row :
    String → NewEvent → Option Event → String → ℕ → ℕ → String → String → String → String → Event
event_row key e previous writer_id writer_sequence database_sequence id now payload_sha256 sha =
    record {
      database_sequence = database_sequence;
      event_id = id;
      aggregate_type = e.aggregate_type;
      aggregate_id = e.aggregate_id;
      event_type = e.event_type;
      aggregate_version = e.aggregate_version;
      aggregate_sequence = prior_sequence previous + 1;
      writer_id = writer_id;
      writer_sequence = writer_sequence;
      actor = e.actor;
      occurred_at = now;
      recorded_at = now;
      idempotency_key = key;
      prior_event_sha256 = prior_hash previous;
      payload_sha256 = payload_sha256;
      payload = obj e.payload;
      event_sha256 = sha;
      sensitivity = e.sensitivity;
    }

-- `idempotency_key` is the attribute of the transaction.
unfoldable pub append_event : String → NewEvent → Tx Marker
unfolding clashes insert_event
append_event idempotency_key e = do
  previous ← reads (λ db. latest e.aggregate_id db.events)
  guard (e.aggregate_version == prior_version previous + 1) event_conflict
  writer_sequence ← reads (λ db. db.writer_sequence + 1)
  database_sequence ← reads (λ db. db.global_sequence + 1)
  recorded_at ← utc_now
  event_id ← new_id Ids.event
  writer_id ← writer
  payload_sha256 ← sha_json (obj e.payload)
  let event =
      event_row idempotency_key e previous writer_id writer_sequence database_sequence event_id
        recorded_at payload_sha256
  valid ← accepts "event.schema.json" (obj (event_from_row (event "")))
  guard valid store_error
  event_sha256 ← sha_json (obj (event_from_row (event "")))
  check_canonical (obj e.payload)
  execute (insert_event (event event_sha256))
  write (λ db. record db { writer_sequence = writer_sequence })
  write (λ db. record db { global_sequence = database_sequence })
  fault "after_event_append"
  pure (record {
    event_id = event_id;
    event_sha256 = event_sha256;
    database_sequence = database_sequence;
    aggregate_version = e.aggregate_version;
  })

-- What the three statements that write leave of the database.
abbrev pub logged : Event → Db → Db
logged event db = record db {
  events = event ∷ db.events;
  writer_sequence = db.writer_sequence + 1;
  global_sequence = db.global_sequence + 1;
}

unfoldable pub projection_updated : Tx (Unit {0})
projection_updated = fault "after_projection_update"

-- `current_version` of one projection table: the version of the row, or 0.
unfoldable pub current_version : {R : Type 0} → (R → String) → (R → ℕ) → String → List R → ℕ
unfolding find
current_version key version id t = elim (find key id t) [ none ↦ 0 | some r ↦ version r ]

unfoldable pub expect_version : ℕ → (Db → ℕ) → Tx (Unit {0})
expect_version expected actual = do found ← reads actual; guard (found == expected) version_conflict
