-- ===== src/Core/Lease.antt =====
-- Leases in src/city2core/core.py: `lease_task`, `start_run`, `expire_lease` and
-- `_require_current_lease`.
use city.Base.{
  ℕ, ◌+◌, ltb, leb, ◌==◌, String, ◌=?◌, Bool, true, false, not, ◌&&◌, ◌||◌, Option, none, some,
  List, [], ◌∷◌, if◌then◌else◌,
}
use city.Model.Json.{Json, Fields, str, num, obj, boolean, end, field, get, put, merge}
use city.Model.Ids
use city.Store.States.{TaskState, RunStatus}
use city.Store.Rows.{TaskRow, Marker}
use city.Store.Table.{update}
use city.Store.Tx.{
  Tx, core_error, task_transition, expiry_not_future, attempt_ceiling, lease_not_expired,
  stale_fence, lease_expired, ◌>>=◌, ◌>>◌, pure, guard, reads, write, insert_row, utc_now, new_id,
  token_urlsafe, sha_json, sha_profile, check_canonical, time_of, fault,
}
use city.Store.Events.{append_event, expect_version, projection_updated}
use city.Core.Call.{Call, dict, pick, validate}
use city.Core.Rows.{
  task_key, run_key, with_tasks, with_runs, task_row, task_version, task_revision, task,
}
use city.Core.Transition.{marked, keep_lease, drop_lease, transition_in_tx, task_command}
use city.Core.Revise.{is_uncertain, task_actions, has_lease}

-- a column equals a text that is given
abbrev pub holds : Option String → String → Bool
holds none t = false
holds (some s) t = s =? t

-- `str(value)` of a column
abbrev pub shown : Option String → String
shown none = "None"
shown (some t) = t

unfoldable pub require_current_lease : TaskRow → String → String → Tx (Unit {0})
require_current_lease row run_id fencing_token = do
  guard (holds row.current_run_id run_id && holds row.lease_fencing_token fencing_token) stale_fence
  expires ← time_of (shown row.lease_expires_at)
  now ← utc_now
  current ← time_of now
  guard (ltb current expires) lease_expired

-- {"ready", "expired"}
unfoldable pub may_lease : TaskState → Bool
may_lease TaskState.ready = true
may_lease TaskState.expired = true
may_lease _ = false

-- The arguments of `lease_task` beside the task, its version and the actor.
pub record LeaseRequest : Type 0 where
  pub owner : String
  pub expires_at : String
  pub resolved_agent_id : String
  pub resolved_manifest_version : ℕ
  pub resolved_manifest_sha256 : String

abbrev request_fields : LeaseRequest → List (String × Json)
request_fields r =
    ("resolved_agent_id", str r.resolved_agent_id)
    ∷ ("resolved_manifest_version", num r.resolved_manifest_version)
    ∷ ("resolved_manifest_sha256", str r.resolved_manifest_sha256)
    ∷ []

abbrev envelope_fields : List String
envelope_fields =
    "task_type" ∷ "title" ∷ "intent" ∷ "created_by" ∷ "requested_role" ∷ "authority_class"
    ∷ "inputs" ∷ "constraints" ∷ "acceptance_criteria" ∷ "memory_scopes" ∷ "time_budget_seconds"
    ∷ "max_attempts" ∷ "task_dedupe_key" ∷ []

-- the optional fields that a revision has
unfoldable pub optional_fields : List String → Fields → Fields
unfolding get
optional_fields [] revision = end
optional_fields (n ∷ names) revision =
    let rest = optional_fields names revision in
    elim (get n revision) [ none ↦ rest | some v ↦ field n v rest ]

-- the envelope before its digest is put in
unfoldable pub task_envelope : TaskRow → LeaseRequest → ℕ → ℕ → String → Fields → Fields → Fields
unfolding dict optional_fields merge
task_envelope row r attempt version fence chosen revision =
    merge
      (merge
        (merge
          (dict (
            ("schema_version", str "city2.task/v1")
            ∷ ("task_id", str row.task_id)
            ∷ ("task_revision", num row.task_revision)
            ∷ ("task_envelope_sha256", str "")
            ∷ ("objective_id", str row.objective_id)
            ∷ ("objective_revision", num row.objective_revision)
            ∷ ("objective_sha256", str row.objective_sha256)
            ∷ ("attempt_number", num attempt)
            ∷ ("expected_task_version", num version)
            ∷ ("lease_fencing_token", str fence)
            ∷ []))
          (dict (request_fields r)))
        chosen)
      (optional_fields ("supersedes_run_id" ∷ "review_id" ∷ "unresolved_finding_ids" ∷ []) revision)

unfoldable pub leased_row :
    ℕ → Marker → String → ℕ → String → String → String → LeaseRequest → TaskRow → TaskRow
leased_row version marker now attempt envelope_sha run_id fence r t =
    record (marked version marker now t) {
      state = TaskState.leased;
      attempt_count = attempt;
      task_sha256 = envelope_sha;
      current_run_id = some run_id;
      lease_owner = some r.owner;
      lease_fencing_token = some fence;
      lease_expires_at = some r.expires_at;
    }

unfoldable pub lease_task_in : String → ℕ → LeaseRequest → String → String → Tx Fields
unfolding may_lease task_envelope leased_row update
lease_task_in task_id expected_version request actor key = do
  expect_version expected_version (task_version task_id)
  row ← task_row task_id
  guard (may_lease row.state) (core_error (task_transition row.state))
  let attempt = row.attempt_count + 1
  guard (leb attempt row.max_attempts) (core_error attempt_ceiling)
  run_id ← new_id Ids.run
  fence ← token_urlsafe
  revision ← task_revision task_id row.task_revision
  chosen ← pick envelope_fields revision
  let unsigned = task_envelope row request attempt (expected_version + 1) fence chosen revision
  envelope_sha ← sha_profile unsigned ("task_envelope_sha256" ∷ [])
  let envelope = put "task_envelope_sha256" (str envelope_sha) unsigned
  validate "task-envelope.schema.json" envelope
  now ← utc_now
  fence_sha ← sha_json (str fence)
  marker ← append_event key (record {
    aggregate_type = "task";
    aggregate_id = task_id;
    event_type = "task.leased";
    aggregate_version = expected_version + 1;
    actor = actor;
    payload = dict (
        ("run_id", str run_id)
        ∷ ("owner", str request.owner)
        ∷ ("fencing_token_sha256", str fence_sha)
        ∷ ("expires_at", str request.expires_at)
        ∷ ("attempt_number", num attempt)
        ∷ ("task_envelope_sha256", str envelope_sha)
        ∷ []);
    sensitivity = "confidential";
  })
  check_canonical (obj envelope)
  insert_row run_key (λ db. db.runs) with_runs
      (record {
        run_id = run_id;
        task_id = task_id;
        task_revision = row.task_revision;
        attempt_number = attempt;
        status = RunStatus.leased;
        task_envelope_json = envelope;
        task_envelope_sha256 = envelope_sha;
        result_json = none;
        result_sha256 = none;
        created_at = now;
        updated_at = now;
      })
  write (λ db.
      with_tasks
        (update task_key task_id
          (leased_row (expected_version + 1) marker now attempt envelope_sha run_id fence request)
          db.tasks)
        db)
  projection_updated
  fault "after_lease_acquisition"
  leased ← task task_id
  pure (dict (("run_id", str run_id) ∷ ("task", obj leased) ∷ ("task_envelope", obj envelope) ∷ []))

unfoldable pub lease_task : String → ℕ → LeaseRequest → String → Call
unfolding lease_task_in
lease_task task_id expected_version request actor = record {
  prepare = do
    expires ← time_of request.expires_at
    now ← utc_now
    current ← time_of now
    guard (ltb current expires) (core_error expiry_not_future)
    pure (
        task_command "lease_task" task_id expected_version actor (
          merge (dict (("owner", str request.owner) ∷ ("expires_at", str request.expires_at) ∷ []))
            (dict (request_fields request))));
  operation = lease_task_in task_id expected_version request actor;
}

unfoldable pub is_leased : TaskState → Bool
is_leased TaskState.leased = true
is_leased _ = false

unfoldable pub start_run_in : String → String → String → ℕ → String → String → Tx Fields
unfolding is_leased require_current_lease
start_run_in task_id run_id fencing_token expected_version actor key = do
  expect_version expected_version (task_version task_id)
  row ← task_row task_id
  require_current_lease row run_id fencing_token
  guard (is_leased row.state) (core_error (task_transition row.state))
  transition_in_tx key row TaskState.running expected_version actor
      (dict (("run_id", str run_id) ∷ [])) (some RunStatus.running) keep_lease

unfoldable pub start_run : String → String → String → ℕ → String → Call
unfolding start_run_in
start_run task_id run_id fencing_token expected_version actor = record {
  prepare = do
    token_sha ← sha_json (str fencing_token)
    pure (
        task_command "start_run" task_id expected_version actor
          (dict (("run_id", str run_id) ∷ ("fencing_token_sha256", str token_sha) ∷ [])));
  operation = start_run_in task_id run_id fencing_token expected_version actor;
}

-- `now or utc_now()`
unfoldable pub given_now : Option String → Tx String
given_now none = utc_now
given_now (some t) = if t =? "" then utc_now else pure t

unfoldable pub after_expiry : ℕ → Bool → TaskRow → TaskState
after_expiry uncertain replay_safe row =
    if not (uncertain == 0) || not replay_safe
    then TaskState.needs_reconciliation
    else if leb row.max_attempts row.attempt_count
    then TaskState.failed_terminal
    else TaskState.ready

unfoldable pub expire_lease_in : String → ℕ → Bool → Option String → String → String → Tx Fields
unfolding has_lease given_now is_uncertain task_actions after_expiry
expire_lease_in task_id expected_version replay_safe given actor key = do
  expect_version expected_version (task_version task_id)
  row ← task_row task_id
  guard (has_lease row.state) (core_error (task_transition row.state))
  expires ← time_of (shown row.lease_expires_at)
  now ← given_now given
  current ← time_of now
  guard (leb expires current) (core_error lease_not_expired)
  uncertain ← reads (task_actions is_uncertain task_id)
  transition_in_tx key row (after_expiry uncertain replay_safe row) expected_version actor
      (dict (("replay_safe", boolean replay_safe) ∷ ("unresolved_actions", num uncertain) ∷ []))
      (some RunStatus.expired) drop_lease

unfoldable pub expire_lease : String → ℕ → Bool → Option String → String → Call
unfolding expire_lease_in
expire_lease task_id expected_version replay_safe given actor = record {
  prepare = pure (
      task_command "expire_lease" task_id expected_version actor
        (dict (("replay_safe", boolean replay_safe) ∷ [])));
  operation = expire_lease_in task_id expected_version replay_safe given actor;
}
