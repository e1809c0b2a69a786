-- ===== src/Core/Objective.antt =====
-- Objectives in src/city2core/core.py: `create_objective`, `set_objective_status` and
-- `revise_objective`.
use city.Base.{
  ℕ, ◌+◌, String, ◌=?◌, ◌&◌, Bool, true, false, not, Option, none, some, List, [], ◌∷◌,
  if◌then◌else◌,
}
use city.Model.Json.{Fields, str, num, obj, put, merge, unknown}
use city.Model.Ids
use city.Store.States.{ObjectiveStatus, objective_status_text}
use city.Store.Rows.{ObjectiveRow, Marker}
use city.Store.Table.{update}
use city.Store.Tx.{
  Tx, core_error, objective_transition, terminal_objective, unknown_fields, no_change,
  profile_unchanged, ◌>>=◌, ◌>>◌, pure, guard, or_raise, write, insert_row, utc_now, sha_profile,
  check_canonical, text_of, id_or_new,
}
use city.Store.Events.{NewEvent, append_event, expect_version, projection_updated}
use city.Core.Call.{Call, dict, required, pick, get_or, validate, is_empty}
use city.Core.Rows.{
  objective_key, with_objectives, objective_row, objective_version, insert_objective_revision,
}
use city.Core.Revise.{has_fields}

abbrev pub objective_fields : List String
objective_fields =
    "title" ∷ "intent" ∷ "accountable_owner" ∷ "review_at" ∷ "measurable_outcomes"
    ∷ "stop_conditions" ∷ "authority_ceiling" ∷ "budget" ∷ []

-- what the digest of an objective leaves out
abbrev pub mutable_fields : List String
mutable_fields = "aggregate_version" ∷ "objective_sha256" ∷ "status" ∷ []

abbrev pub objective_event : String → String → ℕ → String → Fields → NewEvent
objective_event objective_id event_type version actor payload = record {
  aggregate_type = "objective";
  aggregate_id = objective_id;
  event_type = event_type;
  aggregate_version = version;
  actor = actor;
  payload = payload;
  sensitivity = "internal";
}

unfoldable pub create_objective_in : Fields → String → String → Tx Fields
create_objective_in fields actor key = do
  now ← utc_now
  given ← id_or_new "objective_id" fields Ids.objective
  chosen ← pick objective_fields fields
  let unsigned =
      merge
        (dict (
          ("schema_version", str "city2.objective/v1")
          ∷ ("objective_id", given)
          ∷ ("aggregate_version", num 1)
          ∷ ("objective_revision", num 1)
          ∷ ("objective_sha256", str "")
          ∷ ("created_by", str actor)
          ∷ ("created_at", get_or "created_at" (str now) fields)
          ∷ ("status", str "proposed")
          ∷ []))
        chosen
  sha ← sha_profile unsigned mutable_fields
  let record_dict = put "objective_sha256" (str sha) unsigned
  validate "objective.schema.json" record_dict
  objective_id ← text_of given
  expect_version 0 (objective_version objective_id)
  marker ← append_event key (
      objective_event objective_id "objective.created" 1 actor
        (dict (("objective", obj record_dict) ∷ [])))
  check_canonical (obj record_dict)
  insert_objective_revision (record {
    id = objective_id;
    revision = 1;
    sha256 = sha;
    record_json = record_dict;
    created_at = now;
  })
  insert_row objective_key (λ db. db.objectives) with_objectives
      (record {
        objective_id = objective_id;
        aggregate_version = 1;
        objective_revision = 1;
        objective_sha256 = sha;
        status = ObjectiveStatus.proposed;
        record_json = record_dict;
        last_event_id = marker.event_id;
        last_event_sha256 = marker.event_sha256;
        event_high_water = marker.database_sequence;
        updated_at = now;
      })
  projection_updated
  pure record_dict

unfoldable pub create_objective : Fields → String → Call
unfolding create_objective_in
create_objective fields actor = record {
  prepare = do
    required objective_fields fields
    pure (
        dict (
          ("command", str "create_objective")
          ∷ ("fields", obj fields)
          ∷ ("actor", str actor)
          ∷ []));
  operation = create_objective_in fields actor;
}

-- `allowed.get(current, set())`
unfoldable pub allowed_statuses : ObjectiveStatus → List ObjectiveStatus
allowed_statuses ObjectiveStatus.proposed = ObjectiveStatus.active ∷ ObjectiveStatus.cancelled ∷ []
allowed_statuses ObjectiveStatus.active =
    ObjectiveStatus.paused ∷ ObjectiveStatus.completed ∷ ObjectiveStatus.cancelled
    ∷ ObjectiveStatus.superseded ∷ []
allowed_statuses ObjectiveStatus.paused =
    ObjectiveStatus.active ∷ ObjectiveStatus.cancelled ∷ ObjectiveStatus.superseded ∷ []
allowed_statuses _ = []

-- the status of that text, if it is among some
unfoldable pub status_among : String → List ObjectiveStatus → Option ObjectiveStatus
unfolding objective_status_text
status_among status [] = none
status_among status (s ∷ l) =
    let rest = status_among status l in if objective_status_text s =? status then some s else rest

unfoldable pub status_moved :
    ObjectiveStatus → ℕ → Marker → String → Fields → ObjectiveRow → ObjectiveRow
status_moved status version marker now record_dict r = record r {
  aggregate_version = version;
  status = status;
  record_json = record_dict;
  last_event_id = marker.event_id;
  last_event_sha256 = marker.event_sha256;
  event_high_water = marker.database_sequence;
  updated_at = now;
}

unfoldable pub set_objective_status_in : String → String → ℕ → String → String → Tx Fields
unfolding allowed_statuses status_among status_moved update
set_objective_status_in objective_id status expected_version actor key = do
  expect_version expected_version (objective_version objective_id)
  row ← objective_row objective_id
  to ←
      or_raise (core_error (objective_transition row.status status))
        (status_among status (allowed_statuses row.status))
  let record_dict =
      merge row.record_json
        (dict (("aggregate_version", num (expected_version + 1)) ∷ ("status", str status) ∷ []))
  validate "objective.schema.json" record_dict
  marker ← append_event key (
      objective_event objective_id ("objective." & status) (expected_version + 1) actor
        (dict (("from", str (objective_status_text row.status)) ∷ ("to", str status) ∷ [])))
  check_canonical (obj record_dict)
  now ← utc_now
  write (λ db.
      with_objectives
        (update objective_key objective_id
          (status_moved to (expected_version + 1) marker now record_dict) db.objectives)
        db)
  projection_updated
  pure record_dict

unfoldable pub set_objective_status : String → String → ℕ → String → Call
unfolding set_objective_status_in
set_objective_status objective_id status expected_version actor = record {
  prepare = pure (
      dict (
        ("command", str "set_objective_status")
        ∷ ("objective_id", str objective_id)
        ∷ ("status", str status)
        ∷ ("expected_version", num expected_version)
        ∷ ("actor", str actor)
        ∷ []));
  operation = set_objective_status_in objective_id status expected_version actor;
}

-- {"completed", "cancelled", "superseded"}
unfoldable pub is_closed : ObjectiveStatus → Bool
is_closed ObjectiveStatus.completed = true
is_closed ObjectiveStatus.cancelled = true
is_closed ObjectiveStatus.superseded = true
is_closed _ = false

unfoldable pub objective_revised :
    ℕ → ℕ → String → Marker → String → Fields → ObjectiveRow → ObjectiveRow
objective_revised version revision sha marker now record_dict r = record r {
  aggregate_version = version;
  objective_revision = revision;
  objective_sha256 = sha;
  record_json = record_dict;
  last_event_id = marker.event_id;
  last_event_sha256 = marker.event_sha256;
  event_high_water = marker.database_sequence;
  updated_at = now;
}

unfoldable pub revise_objective_in : String → Fields → ℕ → String → String → Tx Fields
unfolding is_closed objective_revised update
revise_objective_in objective_id updates expected_version actor key = do
  expect_version expected_version (objective_version objective_id)
  row ← objective_row objective_id
  guard (not (is_closed row.status)) (core_error terminal_objective)
  let revision_number = row.objective_revision + 1
  let unsigned = merge (merge row.record_json updates) (
      dict (
        ("aggregate_version", num (expected_version + 1))
        ∷ ("objective_revision", num revision_number)
        ∷ ("objective_sha256", str "")
        ∷ (
          "supersedes",
          obj (
              dict (
                ("objective_id", str objective_id)
                ∷ ("objective_revision", num row.objective_revision)
                ∷ ("objective_sha256", str row.objective_sha256)
                ∷ [])),
        )
        ∷ []))
  sha ← sha_profile unsigned mutable_fields
  let record_dict = put "objective_sha256" (str sha) unsigned
  validate "objective.schema.json" record_dict
  guard (not (sha =? row.objective_sha256)) (core_error profile_unchanged)
  now ← utc_now
  marker ← append_event key (
      objective_event objective_id "objective.revised" (expected_version + 1) actor (
        dict (
          ("objective_revision", num revision_number)
          ∷ ("objective_sha256", str sha)
          ∷ ("supersedes_revision", num row.objective_revision)
          ∷ [])))
  check_canonical (obj record_dict)
  insert_objective_revision (record {
    id = objective_id;
    revision = revision_number;
    sha256 = sha;
    record_json = record_dict;
    created_at = now;
  })
  write (λ db.
      with_objectives
        (update objective_key objective_id
          (objective_revised (expected_version + 1) revision_number sha marker now record_dict)
          db.objectives)
        db)
  projection_updated
  pure record_dict

unfoldable pub revise_objective : String → Fields → ℕ → String → Call
unfolding revise_objective_in has_fields unknown
revise_objective objective_id updates expected_version actor = record {
  prepare = do
    guard (is_empty (unknown objective_fields updates))
        (core_error (unknown_fields (unknown objective_fields updates)))
    guard (has_fields updates) (core_error no_change)
    pure (
        dict (
          ("command", str "revise_objective")
          ∷ ("objective_id", str objective_id)
          ∷ ("updates", obj updates)
          ∷ ("expected_version", num expected_version)
          ∷ ("actor", str actor)
          ∷ []));
  operation = revise_objective_in objective_id updates expected_version actor;
}
