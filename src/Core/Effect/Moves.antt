-- ===== src/Core/Effect/Moves.antt =====
-- `_transition_in_tx` of src/city2core/core.py, and an append with an UPDATE of a task.
use city.Base.{
  ℕ, ◌+◌, String, ◌=?◌, ◌≡◌, refl, sym, subst, ◌∙◌, Option, some, arith, if◌then◌else◌, eq_iff,
}
use city.Model.Json.{Fields}
use city.Store.States.{TaskState, RunStatus}
use city.Store.Rows.{Db, Event, TaskRow, Marker}
use city.Store.Table.{find, update, find-key, find-update}
use city.Store.Tx.{Env, pure, write}
use city.Store.Post.{Post, seq, view, ends}
use city.Store.Post.Steps.{utc_now_lem, write_then}
use city.Store.Events.{NewEvent, current_version, logged}
use city.Store.Events.Append.{Appended, marker_of, append_then}
use city.Core.Rows.Reads.{task_lem, projection_updated_lem}
use city.Core.Rows.{task_key, task_version}
use city.Core.Lifecycle.{TaskStep, TaskMarks}
use city.Core.Transition.{Clearing, moved, update_run, transition_in_tx}
use city.Core.Effect.{Ledger, ledger, TaskMoves}

-- A task whose version is expected is found in that version.
pub found_version :
    (id : String) (n : ℕ) (db : Db) (row : TaskRow)
    → task_version id db ≡ n
    → find task_key id db.tasks ≡ some row
    → row.aggregate_version ≡ n
unfolding task_version current_version
found_version id n db row v f = ground (arith, v, f)

-- A row that is found is found under its own key.
pub own_row :
    (id : String) (row : TaskRow) (db : Db)
    → find task_key id db.tasks ≡ some row
    → find task_key row.task_id db.tasks ≡ some row
own_row id row db found =
    subst (λ k. find task_key k db.tasks ≡ some row) (sym (find-key task_key id db.tasks row found))
      found

moved-key :
    (to_state : TaskState) (v : ℕ) (m : Marker) (now : String) (c : Clearing) (r : TaskRow)
    → task_key (moved to_state v m now c r) ≡ task_key r
unfolding moved
moved-key to_state v m now c r = ground arith

moved-state :
    (to_state : TaskState) (v : ℕ) (m : Marker) (now : String) (c : Clearing) (r : TaskRow)
    → (moved to_state v m now c r).state ≡ to_state
unfolding moved
moved-state to_state v m now c r = ground arith

moved-marks :
    (to_state : TaskState) (v : ℕ) (e : Event) (now : String) (c : Clearing) (r : TaskRow)
    → e.aggregate_version ≡ v
    → TaskMarks e (moved to_state v (marker_of e) now c r)
unfolding moved
moved-marks to_state v e now c r h = ground arith

-- Setting the status of a run writes no other table.
abbrev RunsOnly : Db → Db → Type 0
RunsOnly db db' =
    (db'.events ≡ db.events)
    × (db'.writer_sequence ≡ db.writer_sequence)
    × (db'.global_sequence ≡ db.global_sequence)
    × (db'.tasks ≡ db.tasks)
    × (db'.objectives ≡ db.objectives)
    × (db'.actions ≡ db.actions)

pub update_run-RunsOnly :
    {env : Env} {db : Db} (status : Option RunStatus) (run : Option String) (now : String)
    → Post env db (update_run status run now) (λ _ db'. RunsOnly db db')
unfolding update_run pure write
update_run-RunsOnly status run now = record { at = λ n a t h. ground arith }

module _ {env : Env} {db : Db} (key : String) (row : TaskRow) (to_state : TaskState) (version : ℕ)
    (actor : String) (details : Fields) (run_status : Option RunStatus) (c : Clearing) where
  -- From the row that it was given, `_transition_in_tx` makes the step that its arguments say.
  pub transition_in_tx-TaskMoves :
      find task_key row.task_id db.tasks ≡ some row
      → row.aggregate_version ≡ version
      → ((m : Marker) (now : String) → TaskStep row (moved to_state (version + 1) m now c row))
      → Post env db (transition_in_tx key row to_state version actor details run_status c) (λ _ db'.
        (moves : TaskMoves env db (ledger db')) × (moves.old ≡ row) × (moves.new.state ≡ to_state))
  unfolding transition_in_tx
  transition_in_tx-TaskMoves found current step = append_then _ _ _ λ event facts.
      view utc_now_lem λ now _. write_then _ _ λ _.
        seq (update_run-RunsOnly run_status row.current_run_id now) λ _ db' only.
          view projection_updated_lem λ _ _. ends (task_lem _) λ _ _. (
            record {
              old = row;
              new = moved to_state (version + 1) (marker_of event) now c row;
              event = event;
              found = found;
              step = step (marker_of event) now;
              logs = record {
                input = _;
                appended = facts;
                kind_is = refl;
                id_is = refl;
                version_is = omega (arith, current);
                events = only.0;
                writer_sequence = only.1;
                global_sequence = only.2;
              };
              marks = moved-marks to_state _ event now c row facts.aggregate_version;
              tasks = λ id. rw only.3 (update_moved id (marker_of event) now);
              objectives = only.4;
              actions = only.5;
            },
            refl,
            moved-state to_state (version + 1) (marker_of event) now c row,
          )
    where
      update_moved :
          (id : String) (m : Marker) (now : String)
          → find task_key id
              (update task_key row.task_id (moved to_state (version + 1) m now c) db.tasks)
            ≡ (if row.task_id =? id
                then some (moved to_state (version + 1) m now c row)
                else find task_key id db.tasks)
      update_moved id m now =
          find-update task_key row.task_id id (moved to_state (version + 1) m now c) db.tasks
            (moved-key to_state (version + 1) m now c)
          ∙ ground (arith, eq_iff row.task_id id, found)

-- The ledger after one event and one update of the tasks.
abbrev pub task_updated : Event → String → (TaskRow → TaskRow) → Db → Ledger
task_updated event id f db = record (ledger (logged event db)) {
  tasks = update task_key id f db.tasks;
}

-- An append and an UPDATE that a method makes itself.
module _ {env : Env} {db : Db} (id : String) (row : TaskRow) (input : NewEvent) (event : Event)
    (f : TaskRow → TaskRow) where
  pub update-TaskMoves :
      find task_key id db.tasks ≡ some row
      → Appended env input db event
      → input.aggregate_type ≡ "task"
      → input.aggregate_id ≡ id
      → input.aggregate_version ≡ row.aggregate_version + 1
      → ((r : TaskRow) → task_key (f r) ≡ task_key r)
      → TaskStep row (f row)
      → TaskMarks event (f row)
      → TaskMoves env db (task_updated event id f db)
  update-TaskMoves found facts kind same version keeps step marks = record {
    old = row;
    new = f row;
    event = event;
    found = subst (λ k. find task_key k db.tasks ≡ some row) (sym named) found;
    step = step;
    logs = record {
      input = input;
      appended = facts;
      kind_is = kind;
      id_is = same ∙ sym named;
      version_is = version;
      events = refl;
      writer_sequence = refl;
      global_sequence = refl;
    };
    marks = marks;
    tasks = λ j.
        subst
          (λ k.
            find task_key j (update task_key id f db.tasks)
            ≡ (if k =? j then some (f row) else find task_key j db.tasks))
          (sym named)
          (find-update task_key id j f db.tasks keeps ∙ ground (arith, eq_iff id j, found));
    objectives = refl;
    actions = refl;
  }
    where
      named : row.task_id ≡ id
      named = find-key task_key id db.tasks row found
