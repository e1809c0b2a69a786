-- ===== src/Core/Task.antt =====
-- The methods of src/city2core/core.py that move a task without a lease or a result.
use city.Base.{
  ℕ, String, ◌=?◌, Bool, true, false, not, ◌||◌, Option, none, some, List, [], ◌∷◌, if◌then◌else◌,
}
use city.Model.Json.{Json, Items, Fields, str, num, obj, arr, nil, cons, end, merge, items, missing}
use city.Model.Ids
use city.Store.States.{TaskState, ObjectiveStatus}
use city.Store.Tx.{
  Tx, core_error, value_error, task_transition, objective_not_open, invalid_decision,
  finding_required, disposition_missing, ◌>>=◌, ◌>>◌, pure, guard, or_raise, insert_row, utc_now,
  sha_json, check_canonical, field_of, text_of, nat_of, id_or_new,
}
use city.Store.Events.{append_event, expect_version, projection_updated}
use city.Core.Call.{Call, dict, required, pick, get_or, validate, is_empty}
use city.Core.Rows.{
  task_key, with_tasks, objective_row, task_row, task_version, task_revision, insert_task_revision,
}
use city.Core.Transition.{
  task_event, keep_lease, transition_in_tx, task_command, simple_task_transition,
}

-- {"proposed", "awaiting_approval", "expired"}
unfoldable pub may_be_ready : TaskState → Bool
may_be_ready TaskState.proposed = true
may_be_ready TaskState.awaiting_approval = true
may_be_ready TaskState.expired = true
may_be_ready _ = false

-- {"proposed"}
unfoldable pub is_proposed : TaskState → Bool
is_proposed TaskState.proposed = true
is_proposed _ = false

unfoldable pub set_task_ready : String → ℕ → String → Call
unfolding simple_task_transition may_be_ready
set_task_ready task_id expected_version actor =
    simple_task_transition task_id TaskState.ready may_be_ready expected_version actor

unfoldable pub request_task_approval : String → ℕ → String → Call
unfolding simple_task_transition is_proposed
request_task_approval task_id expected_version actor =
    simple_task_transition task_id TaskState.awaiting_approval is_proposed expected_version actor

abbrev pub task_fields : List String
task_fields =
    "task_type" ∷ "title" ∷ "intent" ∷ "requested_role" ∷ "authority_class" ∷ "inputs"
    ∷ "constraints" ∷ "acceptance_criteria" ∷ "memory_scopes" ∷ "time_budget_seconds"
    ∷ "max_attempts" ∷ "task_dedupe_key" ∷ []

-- {"active", "proposed"}
unfoldable pub is_open : ObjectiveStatus → Bool
is_open ObjectiveStatus.active = true
is_open ObjectiveStatus.proposed = true
is_open _ = false

unfoldable pub create_task_in : Fields → String → String → Tx Fields
unfolding is_open
create_task_in fields actor key = do
  objective_id ← field_of "objective_id" fields
  objective ← objective_row (← text_of objective_id)
  guard (is_open objective.status) (core_error objective_not_open)
  now ← utc_now
  given ← id_or_new "task_id" fields Ids.task
  chosen ← pick task_fields fields
  let created_at = get_or "created_at" (str now) fields
  let revision =
      merge
        (dict (
          ("task_id", given)
          ∷ ("task_revision", num 1)
          ∷ ("objective_id", str objective.objective_id)
          ∷ ("objective_revision", num objective.objective_revision)
          ∷ ("objective_sha256", str objective.objective_sha256)
          ∷ ("created_by", str actor)
          ∷ ("created_at", created_at)
          ∷ []))
        chosen
  task_sha ← sha_json (obj revision)
  max_attempts ← field_of "max_attempts" fields
  let record_dict = dict (
      ("schema_version", str "city2.task-record/v1")
      ∷ ("task_id", given)
      ∷ ("task_revision", num 1)
      ∷ ("task_envelope_sha256", str task_sha)
      ∷ ("objective_id", str objective.objective_id)
      ∷ ("objective_revision", num objective.objective_revision)
      ∷ ("objective_sha256", str objective.objective_sha256)
      ∷ ("aggregate_version", num 1)
      ∷ ("state", str "proposed")
      ∷ ("attempt_count", num 0)
      ∷ ("max_attempts", max_attempts)
      ∷ ("created_at", created_at)
      ∷ ("updated_at", created_at)
      ∷ [])
  validate "task-record.schema.json" record_dict
  task_id ← text_of given
  attempts ← nat_of max_attempts
  expect_version 0 (task_version task_id)
  marker ← append_event key (
      task_event task_id "task.created" 1 actor
        (dict (("task_revision", obj revision) ∷ ("state", str "proposed") ∷ [])))
  check_canonical (obj revision)
  insert_task_revision (record {
    id = task_id;
    revision = 1;
    sha256 = task_sha;
    record_json = revision;
    created_at = now;
  })
  insert_row task_key (λ db. db.tasks) with_tasks
      (record {
        task_id = task_id;
        aggregate_version = 1;
        task_revision = 1;
        task_sha256 = task_sha;
        objective_id = objective.objective_id;
        objective_revision = objective.objective_revision;
        objective_sha256 = objective.objective_sha256;
        state = TaskState.proposed;
        attempt_count = 0;
        max_attempts = attempts;
        current_run_id = none;
        lease_owner = none;
        lease_fencing_token = none;
        lease_expires_at = none;
        last_event_id = marker.event_id;
        last_event_sha256 = marker.event_sha256;
        event_high_water = marker.database_sequence;
        created_at = now;
        updated_at = now;
      })
  projection_updated
  pure record_dict

unfoldable pub create_task : Fields → String → Call
unfolding create_task_in
create_task fields actor = record {
  prepare = do
    required ("objective_id" ∷ task_fields) fields
    pure (
        dict (("command", str "create_task") ∷ ("fields", obj fields) ∷ ("actor", str actor) ∷ []));
  operation = create_task_in fields actor;
}

-- {"accepted", "rejected", "changes_requested"}
unfoldable pub review_state : String → Option TaskState
review_state decision =
    if decision =? "accepted"
    then some TaskState.accepted
    else if decision =? "rejected"
    then some TaskState.rejected
    else if decision =? "changes_requested"
    then some TaskState.changes_requested
    else none

-- `set(value)` of a list of texts
unfoldable pub texts : Items → Option (List String)
texts nil = some []
texts (cons (str s) xs) = elim (texts xs) [ none ↦ none | some l ↦ some (s ∷ l) ]
texts (cons _ xs) = none

-- the elements of `set(ids) - set(dispositions)`
unfoldable pub undisposed : Json → Fields → Option (List String)
unfolding texts missing
undisposed (arr xs) dispositions = elim (texts xs) [
  | none ↦ none
  | some ids ↦ some (missing ids dispositions)
]
undisposed _ dispositions = none

unfoldable pub is_review : TaskState → Bool
is_review TaskState.review = true
is_review _ = false

unfoldable pub is_accepted : TaskState → Bool
is_accepted TaskState.accepted = true
is_accepted _ = false

unfoldable pub review_task_in :
    String → String → ℕ → String → List String → Fields → String → String → Tx Fields
unfolding review_state undisposed is_review is_accepted
review_task_in task_id decision expected_version review_id finding_ids dispositions actor key = do
  to_state ← or_raise (core_error invalid_decision) (review_state decision)
  expect_version expected_version (task_version task_id)
  row ← task_row task_id
  guard (is_review row.state) (core_error (task_transition row.state))
  revision ← task_revision task_id row.task_revision
  open_ids ←
      or_raise value_error
        (undisposed (get_or "unresolved_finding_ids" (arr nil) revision) dispositions)
  guard (not (is_accepted to_state) || is_empty open_ids) (core_error disposition_missing)
  transition_in_tx key row to_state expected_version actor
      (dict (
        ("review_id", str review_id)
        ∷ ("finding_ids", arr (items finding_ids))
        ∷ ("finding_dispositions", obj dispositions)
        ∷ []))
      none keep_lease

unfoldable pub given_dispositions : Option Fields → Fields
given_dispositions none = end
given_dispositions (some d) = d

unfoldable pub review_task :
    String → String → ℕ → String → List String → Option Fields → String → Call
unfolding review_task_in given_dispositions
review_task task_id decision expected_version review_id finding_ids dispositions actor = record {
  prepare = do
    to_state ← or_raise (core_error invalid_decision) (review_state decision)
    guard (not (decision =? "changes_requested") || not (is_empty finding_ids))
        (core_error finding_required)
    pure (
        task_command "review_task" task_id expected_version actor (
          dict (
            ("decision", str decision)
            ∷ ("review_id", str review_id)
            ∷ ("finding_ids", arr (items finding_ids))
            ∷ ("finding_dispositions", obj (given_dispositions dispositions))
            ∷ [])));
  operation =
      review_task_in task_id decision expected_version review_id finding_ids
        (given_dispositions dispositions) actor;
}
