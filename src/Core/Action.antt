-- ===== src/Core/Action.antt =====
-- External actions in src/city2core/core.py: `prepare_action`, `begin_action_dispatch`,
-- `reconcile_action` and `_action_transition`.
use city.Base.{
  ℕ, ◌+◌, String, ◌=?◌, ◌&◌, Bool, true, false, ◌&&◌, ◌||◌, Option, none, some, List, [], ◌∷◌,
  if◌then◌else◌,
}
use city.Model.Json.{
  Json, Items, Fields, null, boolean, int, str, num, obj, arr, nil, cons, end, field, get, put,
  merge,
}
use city.Model.Ids
use city.Store.States.{TaskState, ActionState, action_state_text}
use city.Store.Rows.{TaskRow, ActionRow, Marker}
use city.Store.Table.{update, insert}
use city.Store.Tx.{
  Tx, core_error, secret_key, operation_key_taken, compensation_mismatch, action_transition,
  task_transition, invalid_outcome, confirmation_evidence, value_error, sqlite_error, ◌>>=◌, ◌>>◌,
  pure, fail, guard, reads, or_raise, write, insert_row, utc_now, sha_json, check_canonical,
  field_of, text_of, id_or_new, fault,
}
use city.Store.Events.{NewEvent, append_event, expect_version, projection_updated}
use city.Core.Call.{Call, dict, required, pick, validate}
use city.Core.Rows.{
  task_key, action_key, with_tasks, with_actions, task_row, action_row, action_version, present,
}
use city.Core.Transition.{task_event, marked, clear_lease_columns}
use city.Core.Lease.{require_current_lease}
use city.Core.Submit.{is_running, same_text}

-- `_reject_secret_keys`: whether a key of the value, at any depth, has the shape of a secret.
module _ (secret : String → Bool) where
  unfoldable mutual
    pub json_secret : Json → Bool
    json_secret (arr xs) = items_secret xs
    json_secret (obj d) = fields_secret d
    json_secret _ = false

    pub items_secret : Items → Bool
    items_secret nil = false
    items_secret (cons x xs) = json_secret x || items_secret xs

    pub fields_secret : Fields → Bool
    fields_secret end = false
    fields_secret (field k v d) = secret k || json_secret v || fields_secret d

unfoldable pub reject_secret_keys : Fields → Tx (Unit {0})
unfolding fields_secret
reject_secret_keys d env s =
    guard (if fields_secret env.secret_key d then false else true) (core_error secret_key) env s

-- SELECT action_id FROM actions WHERE operation_idempotency_key = …
unfoldable pub key_owner : String → List ActionRow → Option ActionRow
key_owner k [] = none
key_owner k (a ∷ t) =
    let rest = key_owner k t in if a.operation_idempotency_key =? k then some a else rest

abbrev pub is_none : Option ActionRow → Bool
is_none none = true
is_none (some a) = false

abbrev pub action_event : String → String → ℕ → String → Fields → NewEvent
action_event action_id event_type version actor payload = record {
  aggregate_type = "action";
  aggregate_id = action_id;
  event_type = event_type;
  aggregate_version = version;
  actor = actor;
  payload = payload;
  sensitivity = "confidential";
}

-- The INSERT into `actions`, with its UNIQUE(operation_idempotency_key).
unfoldable pub insert_action : ActionRow → Tx (Unit {0})
unfolding key_owner insert
insert_action r = do
  taken ← reads (λ db. key_owner r.operation_idempotency_key db.actions)
  guard (is_none taken) sqlite_error
  insert_row action_key (λ db. db.actions) with_actions r

-- what `compensation` adds to the record
unfoldable pub compensation_part : Option Json → Tx Fields
unfolding same_text
compensation_part none = pure end
compensation_part (some (obj d)) = do
  parameters ← field_of "canonical_parameters" d
  expected ← sha_json parameters
  given ← or_raise (core_error compensation_mismatch) (get "parameters_sha256" d)
  guard (same_text given (str expected)) (core_error compensation_mismatch)
  pure (field "compensation" (obj d) end)
compensation_part (some _) = fail value_error

unfoldable pub prepare_action_in : Fields → String → String → String → Tx Fields
unfolding is_running require_current_lease key_owner insert_action compensation_part
prepare_action_in fields fencing_token actor key = do
  task_id ← text_of (← field_of "task_id" fields)
  run_id ← text_of (← field_of "run_id" fields)
  task ← task_row task_id
  require_current_lease task run_id fencing_token
  guard (is_running task.state) (core_error (task_transition task.state))
  operation_key ← text_of (← field_of "operation_idempotency_key" fields)
  existing ← reads (λ db. key_owner operation_key db.actions)
  guard (is_none existing) (core_error operation_key_taken)
  given ← id_or_new "action_id" fields Ids.action
  now ← utc_now
  chosen ←
      pick
        ("task_id" ∷ "run_id" ∷ "capability" ∷ "target" ∷ "provider" ∷ "canonical_parameters"
          ∷ "approval_id" ∷ "approval_sha256" ∷ "operation_idempotency_key" ∷ [])
        fields
  parameters ← field_of "canonical_parameters" fields
  parameters_sha ← sha_json parameters
  compensation ← compensation_part (get "compensation" fields)
  let action_dict =
      merge
        (merge
          (dict (
            ("schema_version", str "city2.action/v1")
            ∷ ("action_id", given)
            ∷ ("aggregate_version", num 1)
            ∷ ("task_revision", num task.task_revision)
            ∷ ("parameters_sha256", str parameters_sha)
            ∷ ("state", str "prepared")
            ∷ ("prepared_at", str now)
            ∷ ("updated_at", str now)
            ∷ []))
          chosen)
        compensation
  validate "action.schema.json" action_dict
  action_id ← text_of given
  marker ←
      append_event key
        (action_event action_id "action.prepared" 1 actor (dict (("action", obj action_dict) ∷ [])))
  check_canonical (obj action_dict)
  insert_action (record {
    action_id = action_id;
    aggregate_version = 1;
    task_id = task_id;
    task_revision = task.task_revision;
    run_id = run_id;
    operation_idempotency_key = operation_key;
    state = ActionState.prepared;
    record_json = action_dict;
    provider_operation_id = none;
    provider_evidence_sha256 = none;
    last_event_id = marker.event_id;
    last_event_sha256 = marker.event_sha256;
    event_high_water = marker.database_sequence;
    created_at = now;
    updated_at = now;
  })
  projection_updated
  pure action_dict

unfoldable pub prepare_action : Fields → String → String → Call
unfolding prepare_action_in reject_secret_keys
prepare_action fields fencing_token actor = record {
  prepare = do
    required
        ("task_id" ∷ "run_id" ∷ "capability" ∷ "target" ∷ "provider" ∷ "canonical_parameters"
          ∷ "approval_id" ∷ "approval_sha256" ∷ "operation_idempotency_key" ∷ [])
        fields
    reject_secret_keys fields
    pure (
        dict
          (("command", str "prepare_action") ∷ ("fields", obj fields) ∷ ("actor", str actor) ∷ []));
  operation = prepare_action_in fields fencing_token actor;
}

-- `dispatched_at` and `confirmed_at`
unfoldable pub stamped : ActionState → String → Fields
stamped ActionState.dispatched now = field "dispatched_at" (str now) end
stamped ActionState.confirmed now = field "confirmed_at" (str now) end
stamped _ now = end

unfoldable pub action_moved :
    ActionState → ℕ → Marker → String → Fields → Option Json → Option String → ActionRow → ActionRow
action_moved to_state version marker now record_json operation_id evidence_sha r = record r {
  aggregate_version = version;
  state = to_state;
  record_json = record_json;
  provider_operation_id = operation_id;
  provider_evidence_sha256 = evidence_sha;
  last_event_id = marker.event_id;
  last_event_sha256 = marker.event_sha256;
  event_high_water = marker.database_sequence;
  updated_at = now;
}

-- `sha256_json(details["provider_evidence"]) if details.get("provider_evidence") else None`
unfoldable pub evidence_sha : Option Json → Tx (Option String)
evidence_sha none = pure none
evidence_sha (some v) = elim (city.Model.Json.truthy v) [
  | true ↦ sha_json v >>= λ t. pure (some t)
  | false ↦ pure none
]

-- `TASK_TERMINAL`, and "needs_reconciliation"
unfoldable pub may_escalate : TaskState → Bool
may_escalate TaskState.accepted = false
may_escalate TaskState.rejected = false
may_escalate TaskState.cancelled = false
may_escalate TaskState.failed_terminal = false
may_escalate TaskState.needs_reconciliation = false
may_escalate _ = true

unfoldable pub escalated : ℕ → Marker → String → TaskRow → TaskRow
escalated version marker now r = record (clear_lease_columns (marked version marker now r)) {
  state = TaskState.needs_reconciliation;
}

-- An unknown outcome stops the task.
unfoldable pub escalate_task : String → String → String → String → String → Tx (Unit {0})
unfolding may_escalate escalated update
escalate_task task_id action_id now actor key = do
  task ← task_row task_id
  elim (may_escalate task.state) [
    | true ↦ do
      marker ← append_event key (
          task_event task.task_id "task.needs_reconciliation" (task.aggregate_version + 1) actor
            (dict (("action_id", str action_id) ∷ ("reason", str "unknown_external_outcome") ∷ [])))
      write (λ db.
          with_tasks
            (update task_key task.task_id (escalated (task.aggregate_version + 1) marker now)
              db.tasks)
            db)
    | false ↦ pure tt
  ]

unfoldable pub is_unknown : ActionState → Bool
is_unknown ActionState.unknown = true
is_unknown _ = false

unfoldable pub action_transition_in :
    String
    → ℕ
    → (ActionState → Bool)
    → ActionState
    → String
    → Fields
    → String
    → Bool
    → String
    → Tx Fields
unfolding stamped action_moved evidence_sha escalate_task update
action_transition_in action_id expected_version from_states to_state actor details boundary escalate
      key =
    do
      expect_version expected_version (action_version action_id)
      row ← action_row action_id
      guard (from_states row.state) (core_error (action_transition row.state))
      now ← utc_now
      let action_dict =
          merge
            (merge
              (merge row.record_json (
                dict (
                  ("aggregate_version", num (expected_version + 1))
                  ∷ ("state", str (action_state_text to_state))
                  ∷ ("updated_at", str now)
                  ∷ [])))
              (stamped to_state now))
            details
      validate "action.schema.json" action_dict
      marker ← append_event key (
          action_event action_id ("action." & action_state_text to_state) (expected_version + 1)
            actor
            (merge
              (dict (
                ("from", str (action_state_text row.state))
                ∷ ("to", str (action_state_text to_state))
                ∷ []))
              details))
      evidence ← evidence_sha (get "provider_evidence" details)
      check_canonical (obj action_dict)
      write (λ db.
          with_actions
            (update action_key action_id
              (action_moved to_state (expected_version + 1) marker now action_dict
                (get "provider_operation_id" details) evidence)
              db.actions)
            db)
      elim escalate [ true ↦ escalate_task row.task_id action_id now actor key | false ↦ pure tt ]
      projection_updated
      fault boundary
      shown ← action_row action_id
      pure shown.record_json

abbrev action_command : String → ℕ → ActionState → Fields → String → Fields
action_command action_id expected_version to_state details actor = dict (
    ("command", str "action_transition")
    ∷ ("action_id", str action_id)
    ∷ ("expected_version", num expected_version)
    ∷ ("to_state", str (action_state_text to_state))
    ∷ ("details", obj details)
    ∷ ("actor", str actor)
    ∷ [])

-- {"prepared"}
unfoldable pub is_prepared : ActionState → Bool
is_prepared ActionState.prepared = true
is_prepared _ = false

unfoldable pub begin_action_dispatch : String → ℕ → String → Call
unfolding action_transition_in is_prepared
begin_action_dispatch action_id expected_version actor = record {
  prepare = pure (action_command action_id expected_version ActionState.dispatched end actor);
  operation =
      action_transition_in action_id expected_version is_prepared ActionState.dispatched actor end
        "after_dispatch_recorded" false;
}

-- {"confirmed", "failed", "unknown", "compensated"}
unfoldable pub outcome_state : String → Option ActionState
outcome_state outcome =
    if outcome =? "confirmed"
    then some ActionState.confirmed
    else if outcome =? "failed"
    then some ActionState.failed
    else if outcome =? "unknown"
    then some ActionState.unknown
    else if outcome =? "compensated"
    then some ActionState.compensated
    else none

-- `allowed[outcome]`
unfoldable pub may_reconcile : ActionState → ActionState → Bool
may_reconcile ActionState.confirmed ActionState.dispatched = true
may_reconcile ActionState.confirmed ActionState.unknown = true
may_reconcile ActionState.failed ActionState.prepared = true
may_reconcile ActionState.failed ActionState.dispatched = true
may_reconcile ActionState.failed ActionState.unknown = true
may_reconcile ActionState.unknown ActionState.dispatched = true
may_reconcile ActionState.compensated ActionState.confirmed = true
may_reconcile _ _ = false

abbrev has_evidence : Option Fields → Bool
has_evidence none = false
has_evidence (some end) = false
has_evidence (some _) = true

abbrev evidence_part : Option Fields → Fields
evidence_part none = end
evidence_part (some end) = end
evidence_part (some d) = field "provider_evidence" (obj d) end

abbrev operation_part : Option String → Fields → Fields
operation_part none rest = rest
operation_part (some t) rest = if t =? "" then rest else field "provider_operation_id" (str t) rest

-- the `details` of `reconcile_action`
unfoldable pub reconcile_details : Option String → Option Fields → Fields
reconcile_details operation_id evidence = operation_part operation_id (evidence_part evidence)

unfoldable pub reconcile_in :
    String → String → ℕ → String → Option String → Option Fields → String → Tx Fields
unfolding outcome_state may_reconcile reconcile_details action_transition_in is_unknown
reconcile_in action_id outcome expected_version actor operation_id evidence key = do
  to_state ← or_raise (core_error invalid_outcome) (outcome_state outcome)
  action_transition_in action_id expected_version (may_reconcile to_state) to_state actor
      (reconcile_details operation_id evidence) "after_action_acknowledgement" (is_unknown to_state)
      key

unfoldable pub reconcile_action :
    String → String → ℕ → String → Option String → Option Fields → Call
unfolding reconcile_in
reconcile_action action_id outcome expected_version actor operation_id evidence = record {
  prepare = do
    to_state ← or_raise (core_error invalid_outcome) (outcome_state outcome)
    guard (if outcome =? "confirmed" then present operation_id && has_evidence evidence else true)
        (core_error confirmation_evidence)
    pure (
        action_command action_id expected_version to_state (reconcile_details operation_id evidence)
          actor);
  operation = reconcile_in action_id outcome expected_version actor operation_id evidence;
}
