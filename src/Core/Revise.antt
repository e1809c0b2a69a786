-- ===== src/Core/Revise.antt =====
-- `revise_task` and `resume_after_reconciliation` of src/city2core/core.py, and the cancellation
-- of a task.
use city.Base.{
  ℕ, ◌+◌, ◌==◌, String, ◌=?◌, Bool, true, false, not, ◌&&◌, Option, none, some, List, [], ◌∷◌,
  if◌then◌else◌,
}
use city.Model.Json.{Fields, str, num, obj, arr, boolean, end, merge, items, unknown}
use city.Store.States.{TaskState, RunStatus, ActionState}
use city.Store.Rows.{Db, TaskRow, RunRow, Marker}
use city.Store.Table.{update, count_where}
use city.Store.Tx.{
  Tx, core_error, unknown_fields, no_change, profile_unchanged, task_transition, no_prior_run,
  unresolved_actions, ◌>>=◌, ◌>>◌, pure, guard, reads, or_raise, write, utc_now, sha_json,
  check_canonical, field_of, nat_of,
}
use city.Store.Events.{append_event, expect_version, projection_updated}
use city.Core.Call.{Call, dict, is_empty}
use city.Core.Rows.{
  task_key, with_tasks, task_row, task_version, task_revision, task, latest_run, column,
  insert_task_revision,
}
use city.Core.Transition.{
  task_event, marked, drop_lease, drop_fence, transition_in_tx, task_command,
}
use city.Core.Task.{task_fields}

unfoldable pub is_changes_requested : TaskState → Bool
is_changes_requested TaskState.changes_requested = true
is_changes_requested _ = false

unfoldable pub revised : ℕ → Marker → String → ℕ → String → ℕ → TaskRow → TaskRow
revised version marker now revision_number task_sha max_attempts r =
    record (marked version marker now r) {
      task_revision = revision_number;
      task_sha256 = task_sha;
      state = TaskState.ready;
      max_attempts = max_attempts;
    }

unfoldable pub revise_task_in :
    String → Fields → ℕ → String → List String → String → String → Tx Fields
unfolding is_changes_requested revised latest_run
revise_task_in task_id updates expected_version review_id finding_ids actor key = do
  expect_version expected_version (task_version task_id)
  row ← task_row task_id
  guard (is_changes_requested row.state) (core_error (task_transition row.state))
  previous ← task_revision task_id row.task_revision
  last ← reads (λ db. latest_run task_id db.runs)
  run ← or_raise (core_error no_prior_run) last
  now ← utc_now
  let revision_number = row.task_revision + 1
  let revision = merge (merge previous updates) (
      dict (
        ("task_revision", num revision_number)
        ∷ ("created_at", str now)
        ∷ ("supersedes_run_id", str run.run_id)
        ∷ ("review_id", str review_id)
        ∷ ("unresolved_finding_ids", arr (items finding_ids))
        ∷ []))
  task_sha ← sha_json (obj revision)
  guard (not (task_sha =? row.task_sha256)) (core_error profile_unchanged)
  marker ← append_event key (
      task_event task_id "task.revised" (expected_version + 1) actor (
        dict (
          ("task_revision", num revision_number)
          ∷ ("task_sha256", str task_sha)
          ∷ ("review_id", str review_id)
          ∷ ("unresolved_finding_ids", arr (items finding_ids))
          ∷ ("supersedes_run_id", str run.run_id)
          ∷ [])))
  check_canonical (obj revision)
  insert_task_revision (record {
    id = task_id;
    revision = revision_number;
    sha256 = task_sha;
    record_json = revision;
    created_at = now;
  })
  limit ← field_of "max_attempts" revision
  max_attempts ← nat_of limit
  write (λ db.
      with_tasks
        (update task_key task_id
          (revised (expected_version + 1) marker now revision_number task_sha max_attempts)
          db.tasks)
        db)
  projection_updated
  task task_id

unfoldable pub has_fields : Fields → Bool
has_fields end = false
has_fields _ = true

unfoldable pub revise_task : String → Fields → ℕ → String → List String → String → Call
unfolding revise_task_in has_fields unknown
revise_task task_id updates expected_version review_id finding_ids actor = record {
  prepare = do
    guard (is_empty (unknown task_fields updates))
        (core_error (unknown_fields (unknown task_fields updates)))
    guard (has_fields updates) (core_error no_change)
    pure (
        task_command "revise_task" task_id expected_version actor (
          dict (
            ("updates", obj updates)
            ∷ ("review_id", str review_id)
            ∷ ("unresolved_finding_ids", arr (items finding_ids))
            ∷ [])));
  operation = revise_task_in task_id updates expected_version review_id finding_ids actor;
}

-- state IN ('dispatched', 'unknown')
unfoldable pub is_uncertain : ActionState → Bool
is_uncertain ActionState.dispatched = true
is_uncertain ActionState.unknown = true
is_uncertain _ = false

-- state IN ('prepared', 'dispatched', 'unknown')
unfoldable pub is_unresolved : ActionState → Bool
unfolding is_uncertain
is_unresolved ActionState.prepared = true
is_unresolved s = is_uncertain s

-- SELECT COUNT(*) FROM actions WHERE task_id = … AND …
unfoldable pub task_actions : (ActionState → Bool) → String → Db → ℕ
unfolding count_where
task_actions test task_id db = count_where (λ a. a.task_id =? task_id && test a.state) db.actions

unfoldable pub is_completed : RunStatus → Bool
is_completed RunStatus.completed = true
is_completed _ = false

unfoldable pub after_reconciliation : Option RunRow → TaskState
unfolding is_completed
after_reconciliation none = TaskState.ready
after_reconciliation (some run) =
    if is_completed run.status then TaskState.review else TaskState.ready

unfoldable pub is_reconciling : TaskState → Bool
is_reconciling TaskState.needs_reconciliation = true
is_reconciling _ = false

unfoldable pub becomes_ready : TaskState → Bool
becomes_ready TaskState.ready = true
becomes_ready _ = false

unfoldable pub resume_in : String → ℕ → String → String → Tx Fields
unfolding is_unresolved task_actions after_reconciliation is_reconciling becomes_ready latest_run
resume_in task_id expected_version actor key = do
  expect_version expected_version (task_version task_id)
  row ← task_row task_id
  guard (is_reconciling row.state) (core_error (task_transition row.state))
  uncertain ← reads (task_actions is_unresolved task_id)
  guard (uncertain == 0) (core_error unresolved_actions)
  run ← reads (λ db. latest_run task_id db.runs)
  transition_in_tx key row (after_reconciliation run) expected_version actor
      (dict (("reconciliation_complete", boolean true) ∷ [])) none
      (record { clear_lease = becomes_ready (after_reconciliation run); clear_fence = false })

unfoldable pub resume_after_reconciliation : String → ℕ → String → Call
unfolding resume_in
resume_after_reconciliation task_id expected_version actor = record {
  prepare =
      pure (task_command "resume_after_reconciliation" task_id expected_version actor (dict []));
  operation = resume_in task_id expected_version actor;
}

-- {"proposed", "awaiting_approval", "ready", "expired"}
unfoldable pub may_cancel : TaskState → Bool
may_cancel TaskState.proposed = true
may_cancel TaskState.awaiting_approval = true
may_cancel TaskState.ready = true
may_cancel TaskState.expired = true
may_cancel _ = false

-- {"leased", "running"}
unfoldable pub has_lease : TaskState → Bool
has_lease TaskState.leased = true
has_lease TaskState.running = true
has_lease _ = false

unfoldable pub fence_in : TaskRow → ℕ → String → String → Tx Fields
unfolding has_lease
fence_in row expected_version actor key = do
  guard (has_lease row.state) (core_error (task_transition row.state))
  transition_in_tx key row TaskState.cancellation_requested expected_version actor
      (dict (("fenced_run_id", column row.current_run_id) ∷ [])) none drop_fence

unfoldable pub request_cancellation_in : String → ℕ → String → String → Tx Fields
unfolding may_cancel
request_cancellation_in task_id expected_version actor key = do
  expect_version expected_version (task_version task_id)
  row ← task_row task_id
  elim (may_cancel row.state) [
    | true ↦
        transition_in_tx key row TaskState.cancelled expected_version actor (dict []) none
          drop_lease
    | false ↦ fence_in row expected_version actor key
  ]

unfoldable pub request_cancellation : String → ℕ → String → Call
unfolding request_cancellation_in
request_cancellation task_id expected_version actor = record {
  prepare = pure (task_command "request_cancellation" task_id expected_version actor (dict []));
  operation = request_cancellation_in task_id expected_version actor;
}

unfoldable pub is_cancelling : TaskState → Bool
is_cancelling TaskState.cancellation_requested = true
is_cancelling _ = false

unfoldable pub confirm_cancellation_in : String → ℕ → String → String → Tx Fields
unfolding is_cancelling is_unresolved task_actions
confirm_cancellation_in task_id expected_version actor key = do
  expect_version expected_version (task_version task_id)
  row ← task_row task_id
  guard (is_cancelling row.state) (core_error (task_transition row.state))
  uncertain ← reads (task_actions is_unresolved task_id)
  guard (uncertain == 0) (core_error unresolved_actions)
  transition_in_tx key row TaskState.cancelled expected_version actor (dict [])
      (some RunStatus.cancelled) drop_lease

unfoldable pub confirm_cancellation : String → ℕ → String → Call
unfolding confirm_cancellation_in
confirm_cancellation task_id expected_version actor = record {
  prepare = pure (task_command "confirm_cancellation" task_id expected_version actor (dict []));
  operation = confirm_cancellation_in task_id expected_version actor;
}
