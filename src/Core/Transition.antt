-- ===== src/Core/Transition.antt =====
-- `_transition_in_tx` and `_simple_task_transition` of src/city2core/core.py.
use city.Base.{ℕ, ◌+◌, String, ◌&◌, Bool, true, false, Option, none, some, [], ◌∷◌, if◌then◌else◌}
use city.Model.Json.{Fields, str, num, merge}
use city.Store.States.{TaskState, RunStatus, task_state_text}
use city.Store.Rows.{TaskRow, RunRow, Marker}
use city.Store.Table.{update}
use city.Store.Tx.{Tx, ◌>>=◌, ◌>>◌, pure, guard, write, utc_now, core_error, task_transition}
use city.Store.Events.{NewEvent, append_event, expect_version, projection_updated}
use city.Core.Call.{Call, dict}
use city.Core.Rows.{task_key, run_key, with_tasks, with_runs, task_row, task_version, task, present}

-- The event of a task.
abbrev pub task_event : String → String → ℕ → String → Fields → NewEvent
task_event task_id event_type version actor payload = record {
  aggregate_type = "task";
  aggregate_id = task_id;
  event_type = event_type;
  aggregate_version = version;
  actor = actor;
  payload = payload;
  sensitivity = "internal";
}

-- The columns that every UPDATE of a task sets.
abbrev pub marked : ℕ → Marker → String → TaskRow → TaskRow
marked version marker now r = record r {
  aggregate_version = version;
  last_event_id = marker.event_id;
  last_event_sha256 = marker.event_sha256;
  event_high_water = marker.database_sequence;
  updated_at = now;
}

abbrev pub clear_lease_columns : TaskRow → TaskRow
clear_lease_columns r = record r {
  lease_owner = none;
  lease_fencing_token = none;
  lease_expires_at = none;
}

-- The keyword arguments of `_transition_in_tx`.
pub record Clearing : Type 0 where
  pub clear_lease : Bool
  pub clear_fence : Bool

abbrev pub keep_lease : Clearing
keep_lease = record { clear_lease = false; clear_fence = false }

abbrev pub drop_lease : Clearing
drop_lease = record { clear_lease = true; clear_fence = false }

abbrev pub drop_fence : Clearing
drop_fence = record { clear_lease = false; clear_fence = true }

unfoldable pub cleared : Clearing → TaskRow → TaskRow
cleared c r =
    if c.clear_lease
    then record r {
      current_run_id = none;
      lease_owner = none;
      lease_fencing_token = none;
      lease_expires_at = none;
    }
    else if c.clear_fence
    then clear_lease_columns r
    else r

unfoldable pub moved : TaskState → ℕ → Marker → String → Clearing → TaskRow → TaskRow
unfolding cleared
moved to_state version marker now c r =
    cleared c (record (marked version marker now r) { state = to_state })

abbrev is_quarantined : RunStatus → Bool
is_quarantined RunStatus.completed_after_cancel = true
is_quarantined _ = false

-- UPDATE runs SET status = … WHERE run_id = … AND status != 'completed_after_cancel'
unfoldable pub set_run_status : RunStatus → String → RunRow → RunRow
set_run_status status now r =
    if is_quarantined r.status then r else record r { status = status; updated_at = now }

abbrev run_of : Option String → String
run_of none = ""
run_of (some id) = id

unfoldable pub update_run : Option RunStatus → Option String → String → Tx (Unit {0})
unfolding set_run_status update
update_run none run now = pure tt
update_run (some status) run now =
    if present run
    then write
        (λ db. with_runs (update run_key (run_of run) (set_run_status status now) db.runs) db)
    else pure tt

unfoldable pub transition_in_tx :
    String → TaskRow → TaskState → ℕ → String → Fields → Option RunStatus → Clearing → Tx Fields
unfolding moved update_run
transition_in_tx key row to_state expected_version actor details run_status clearing = do
  marker ← append_event key (
      task_event row.task_id ("task." & task_state_text to_state) (expected_version + 1) actor (
        merge
          (dict (
            ("from", str (task_state_text row.state))
            ∷ ("to", str (task_state_text to_state))
            ∷ []))
          details))
  now ← utc_now
  write (λ db.
      with_tasks
        (update task_key row.task_id (moved to_state (expected_version + 1) marker now clearing)
          db.tasks)
        db)
  update_run run_status row.current_run_id now
  projection_updated
  task row.task_id

abbrev pub task_command : String → String → ℕ → String → Fields → Fields
task_command name task_id expected_version actor arguments =
    merge
      (dict (
        ("command", str name)
        ∷ ("task_id", str task_id)
        ∷ ("expected_version", num expected_version)
        ∷ ("actor", str actor)
        ∷ []))
      arguments

unfoldable pub simple_task_transition_in :
    String → TaskState → (TaskState → Bool) → ℕ → String → String → Tx Fields
simple_task_transition_in task_id to_state allowed_from expected_version actor key = do
  expect_version expected_version (task_version task_id)
  row ← task_row task_id
  guard (allowed_from row.state) (core_error (task_transition row.state))
  transition_in_tx key row to_state expected_version actor (dict []) none keep_lease

unfoldable pub simple_task_transition : String → TaskState → (TaskState → Bool) → ℕ → String → Call
unfolding simple_task_transition_in
simple_task_transition task_id to_state allowed_from expected_version actor = record {
  prepare = pure (
      task_command "task_transition" task_id expected_version actor
        (dict (("to_state", str (task_state_text to_state)) ∷ [])));
  operation = simple_task_transition_in task_id to_state allowed_from expected_version actor;
}
