-- ===== src/Store/Events/Append.antt =====
-- What `append_event` of src/city2core/store.py has done when it returns.
use city.Base.{◌+◌, String, ◌≡◌, refl, ap, ◌∙◌, some, ◌∷◌, arith, inl, inr, Bool-cases}
use city.Model.Json.{obj}
use city.Model.Canonical.{sha256_json}
use city.Store.Rows.{Db, Event, Marker}
use city.Store.Tx.{Env, Tx, ◌>>=◌}
use city.Store.Post.{Post, seq, view, returns}
use city.Store.Post.Steps.{
  reads_lem, guard_lem, utc_now_lem, new_id_lem, writer_lem, sha_json_lem, accepts_lem,
  check_canonical_lem, execute_lem, write_then, fault_lem,
}
use city.Store.Events.{
  NewEvent, append_event, insert_event, clashes, latest, prior_version, prior_sequence, prior_hash,
  event_from_row, event_row, logged,
}

-- The event that an append leaves at the end of the log of `db`.
pub record Appended (env : Env) (e : NewEvent) (db : Db) (event : Event) : Type 0 where
  pub follows : e.aggregate_version ≡ prior_version (latest e.aggregate_id db.events) + 1
  pub aggregate_id : event.aggregate_id ≡ e.aggregate_id
  pub aggregate_type : event.aggregate_type ≡ e.aggregate_type
  pub event_type : event.event_type ≡ e.event_type
  pub payload : event.payload ≡ obj e.payload
  pub aggregate_version : event.aggregate_version ≡ e.aggregate_version
  pub aggregate_sequence :
      event.aggregate_sequence ≡ prior_sequence (latest e.aggregate_id db.events) + 1
  pub prior : event.prior_event_sha256 ≡ prior_hash (latest e.aggregate_id db.events)
  pub database_sequence : event.database_sequence ≡ db.global_sequence + 1
  pub writer_sequence : event.writer_sequence ≡ db.writer_sequence + 1
  pub writer_id : event.writer_id ≡ env.writer_id
  pub payload_hash : sha256_json env.digest event.payload ≡ some event.payload_sha256
  pub event_hash : sha256_json env.digest (obj (event_from_row event)) ≡ some event.event_sha256

inserted :
    (e : Event) (db d : Db) → insert_event e db ≡ some d → d ≡ record db { events = e ∷ db.events }
unfolding insert_event
inserted e db d h = elim (Bool-cases (clashes e db.events)) [
  | inl c ↦ absurd (cc (rw (c, insert_event) at h))
  | inr c ↦ let g = rw (c, insert_event) at h in ground arith
]

abbrev pub marker_of : Event → Marker
marker_of event = record {
  event_id = event.event_id;
  event_sha256 = event.event_sha256;
  database_sequence = event.database_sequence;
  aggregate_version = event.aggregate_version;
}

-- An append that returns has put one event at the end of the log, and changed no other table.
pub append_event_lem :
    (env : Env) (db : Db) (key : String) (e : NewEvent)
    → Post env db (append_event key e) (λ m db'.
      (event : Event) × Appended env e db event × (m ≡ marker_of event) × (db' ≡ logged event db))
unfolding append_event event_from_row
append_event_lem env db key e = view (reads_lem _) λ previous p. view (guard_lem _ _) λ _ g.
    view (reads_lem _) λ w hw. view (reads_lem _) λ d hd. view utc_now_lem λ now _.
      view (new_id_lem _) λ id _. view writer_lem λ writer_id hid. view (sha_json_lem _) λ psha hp.
        view (accepts_lem _ _) λ valid _. view (guard_lem _ _) λ _ _.
          view (sha_json_lem _) λ sha hs. view (check_canonical_lem _) λ _ _.
            seq (execute_lem _) λ _ d1 h1. write_then _ _ λ _. write_then _ _ λ _.
              view (fault_lem _) λ _ _. returns _ (
                event_row key e previous writer_id w d id now psha sha,
                record {
                  follows = ground arith;
                  aggregate_id = refl;
                  aggregate_type = refl;
                  event_type = refl;
                  payload = refl;
                  aggregate_version = refl;
                  aggregate_sequence = ap (λ q. prior_sequence q + 1) p;
                  prior = ap prior_hash p;
                  database_sequence = hd;
                  writer_sequence = hw;
                  writer_id = hid;
                  payload_hash = hp;
                  event_hash = hs;
                },
                refl,
                ground (
                  arith,
                  inserted (event_row key e previous writer_id w d id now psha sha) db d1 h1,
                ),
              )

-- The rest of a block after an append: it runs on the database with the event.
module _ {B : Type 0} {env : Env} {db : Db} {Q : B → Db → Type 0} where
  pub append_then :
      (key : String) (e : NewEvent) (f : Marker → Tx B)
      → ((event : Event)
          → Appended env e db event
          → Post env (logged event db) (f (marker_of event)) Q)
      → Post env db (append_event key e >>= f) Q
  append_then key e f k =
      seq (append_event_lem env db key e)
        λ m db' (event, facts, marker, same). rw (marker, same) (k event facts)

-- Only the log and its counters matter to an append.
pub same_log :
    {env : Env} {e : NewEvent} {d db : Db} {event : Event}
    → d.events ≡ db.events
    → d.global_sequence ≡ db.global_sequence
    → d.writer_sequence ≡ db.writer_sequence
    → Appended env e d event
    → Appended env e db event
same_log {e = e} h g w a = record {
  follows = a.follows ∙ ap (λ l. prior_version (latest e.aggregate_id l) + 1) h;
  aggregate_id = a.aggregate_id;
  aggregate_type = a.aggregate_type;
  event_type = a.event_type;
  payload = a.payload;
  aggregate_version = a.aggregate_version;
  aggregate_sequence =
      a.aggregate_sequence ∙ ap (λ l. prior_sequence (latest e.aggregate_id l) + 1) h;
  prior = a.prior ∙ ap (λ l. prior_hash (latest e.aggregate_id l)) h;
  database_sequence = a.database_sequence ∙ ap (λ n. n + 1) g;
  writer_sequence = a.writer_sequence ∙ ap (λ n. n + 1) w;
  payload_hash = a.payload_hash;
  writer_id = a.writer_id;
  event_hash = a.event_hash;
}
