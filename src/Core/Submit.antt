-- ===== src/Core/Submit.antt =====
-- `submit_result` of src/city2core/core.py.
use city.Base.{
  ℕ, ◌+◌, ltb, leb, ◌==◌, String, ◌=?◌, Bool, true, false, not, ◌&&◌, ◌||◌, none, some, [], ◌∷◌,
  if◌then◌else◌,
}
use city.Model.Json.{Json, Fields, str, obj}
use city.Store.States.{TaskState, RunStatus, task_state_text, run_status_text}
use city.Store.Rows.{Db, TaskRow, RunRow, Marker}
use city.Store.Table.{update, count_where}
use city.Store.Tx.{
  Tx, core_error, task_transition, stale_fence, run_not_owner, future_version, ◌>>=◌, ◌>>◌, pure,
  guard, reads, write, utc_now, sha_json, field_of, text_of, nat_of, fault,
}
use city.Store.Events.{append_event, expect_version, projection_updated}
use city.Core.Call.{Call, dict, required, validate}
use city.Core.Rows.{task_key, run_key, with_tasks, with_runs, task_row, run_row, task_version, task}
use city.Core.Transition.{task_event, marked, clear_lease_columns}
use city.Core.Revise.{is_uncertain, is_cancelling}
use city.Core.Lease.{holds}

-- `==` of two JSON values where the schemas make both texts
unfoldable pub same_text : Json → Json → Bool
same_text (str s) (str t) = s =? t
same_text _ _ = false

unfoldable pub is_running : TaskState → Bool
is_running TaskState.running = true
is_running _ = false

unfoldable pub result_run : RunStatus → Fields → String → String → RunRow → RunRow
result_run status result sha now r = record r {
  status = status;
  result_json = some result;
  result_sha256 = some sha;
  updated_at = now;
}

-- SELECT COUNT(*) FROM actions WHERE run_id = … AND state IN ('dispatched', 'unknown')
unfoldable pub run_uncertain : String → Db → ℕ
unfolding count_where is_uncertain
run_uncertain run_id db = count_where (λ a. a.run_id =? run_id && is_uncertain a.state) db.actions

unfoldable pub after_result : ℕ → Bool → TaskRow → TaskState
after_result uncertain completed row =
    if not (uncertain == 0)
    then TaskState.needs_reconciliation
    else if completed
    then TaskState.review
    else if ltb row.attempt_count row.max_attempts
    then TaskState.ready
    else TaskState.failed_terminal

unfoldable pub finished : TaskState → ℕ → Marker → String → TaskRow → TaskRow
finished next_state version marker now r =
    record (clear_lease_columns (marked version marker now r)) {
      state = next_state;
      current_run_id = none;
    }

-- A result that comes after the cancellation: it is kept, and the task stays where it is.
unfoldable pub quarantine : TaskRow → String → Fields → String → String → Tx Fields
unfolding result_run update
quarantine row run_id result actor key = do
  now ← utc_now
  result_sha ← sha_json (obj result)
  write (λ db.
      with_runs
        (update run_key run_id (result_run RunStatus.completed_after_cancel result result_sha now)
          db.runs)
        db)
  marker ← append_event key (
      task_event row.task_id "task.result_quarantined_after_cancel" (row.aggregate_version + 1)
        actor (dict (("run_id", str run_id) ∷ ("result_sha256", str result_sha) ∷ [])))
  write (λ db.
      with_tasks
        (update task_key row.task_id (marked (row.aggregate_version + 1) marker now) db.tasks) db)
  projection_updated
  shown ← task row.task_id
  pure (dict (("task", obj shown) ∷ ("result_status", str "completed_after_cancel") ∷ []))

unfoldable pub record_result : TaskRow → ℕ → String → Fields → String → String → Tx Fields
unfolding result_run run_uncertain after_result finished same_text update
record_result row expected_version run_id result actor key = do
  now ← utc_now
  result_sha ← sha_json (obj result)
  uncertain ← reads (run_uncertain run_id)
  status ← field_of "run_status" result
  let completed = same_text status (str "completed")
  let next_state = after_result uncertain completed row
  let run_status = if completed then RunStatus.completed else RunStatus.failed
  write (λ db.
      with_runs (update run_key run_id (result_run run_status result result_sha now) db.runs) db)
  marker ← append_event key (
      task_event row.task_id "task.result_recorded" (expected_version + 1) actor (
        dict (
          ("run_id", str run_id)
          ∷ ("result_sha256", str result_sha)
          ∷ ("run_status", str (run_status_text run_status))
          ∷ ("next_state", str (task_state_text next_state))
          ∷ [])))
  write (λ db.
      with_tasks
        (update task_key row.task_id (finished next_state (expected_version + 1) marker now)
          db.tasks)
        db)
  projection_updated
  fault "after_result_persistence"
  shown ← task row.task_id
  pure (dict (("task", obj shown) ∷ ("result_sha256", str result_sha) ∷ []))

-- the version that a result must name
unfoldable pub result_version : TaskRow → String → ℕ → Tx (Unit {0})
unfolding is_cancelling
result_version row task_id expected_version = elim (is_cancelling row.state) [
  | true ↦ guard (leb expected_version row.aggregate_version) future_version
  | false ↦ expect_version expected_version (task_version task_id)
]

unfoldable pub submit_result_in : Fields → String → String → Tx Fields
unfolding result_version same_text is_cancelling is_running
submit_result_in result actor key = do
  task_id ← text_of (← field_of "task_id" result)
  expected_version ← nat_of (← field_of "expected_task_version" result)
  run_id ← text_of (← field_of "run_id" result)
  row ← task_row task_id
  result_version row task_id expected_version
  run ← run_row run_id
  guard (run.task_id =? task_id) stale_fence
  granted ← field_of "lease_fencing_token" run.task_envelope_json
  fence ← field_of "lease_fencing_token" result
  guard (same_text granted fence) stale_fence
  guard (holds row.current_run_id run_id) run_not_owner
  guard (is_running row.state || is_cancelling row.state) (core_error (task_transition row.state))
  fault "before_result_persistence"
  elim (is_cancelling row.state) [
    | true ↦ quarantine row run_id result actor key
    | false ↦ record_result row expected_version run_id result actor key
  ]

unfoldable pub submit_result : Fields → String → Call
unfolding submit_result_in
submit_result result actor = record {
  prepare = do
    required
        ("task_id" ∷ "run_id" ∷ "expected_task_version" ∷ "lease_fencing_token" ∷ "run_status" ∷ [])
        result
    validate "result.schema.json" result
    nat_of (← field_of "expected_task_version" result)
    pure (
        dict
          (("command", str "submit_result") ∷ ("result", obj result) ∷ ("actor", str actor) ∷ []));
  operation = submit_result_in result actor;
}
