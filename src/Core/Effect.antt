-- ===== src/Core/Effect.antt =====
-- What a method of src/city2core/core.py leaves in the database, as steps of single aggregates.
-- A step is one event and a change of the one row that the event is about.
pub mod Moves
pub mod Transitions
pub mod Leases
pub mod Results
pub mod Actions
pub mod Objectives
use city.Base.{ℕ, ◌+◌, String, ◌=?◌, ◌≡◌, true, false, Option, none, some, List, ◌∷◌, if◌then◌else◌}
use city.Store.States.{TaskState, ActionState, ObjectiveStatus}
use city.Store.Rows.{Db, Event, ObjectiveRow, TaskRow, ActionRow}
use city.Store.Table.{find}
use city.Store.Tx.{Env}
use city.Store.Events.{NewEvent}
use city.Store.Events.Append.{Appended}
use city.Core.Rows.{objective_key, task_key, action_key}
use city.Core.Lifecycle.{
  TaskStep, TaskMarks, ActionStep, ActionMarks, ObjectiveStep, ObjectiveMarks, lease_ok,
  is_terminal,
}

-- The log and the projections of a database.
pub record Ledger : Type 0 where
  pub events : List Event
  pub writer_sequence : ℕ
  pub global_sequence : ℕ
  pub objectives : List ObjectiveRow
  pub tasks : List TaskRow
  pub actions : List ActionRow

abbrev pub ledger : Db → Ledger
ledger db = record {
  events = db.events;
  writer_sequence = db.writer_sequence;
  global_sequence = db.global_sequence;
  objectives = db.objectives;
  tasks = db.tasks;
  actions = db.actions;
}

-- The log of `l` is that of `db` with one event of the aggregate `id`, whose version it raises
-- from `version`.
pub record Logs (env : Env) (db : Db) (l : Ledger) (kind id : String) (version : ℕ) (event : Event)
    : Type 0 where
  pub input : NewEvent
  pub appended : Appended env input db event
  pub kind_is : input.aggregate_type ≡ kind
  pub id_is : input.aggregate_id ≡ id
  pub version_is : input.aggregate_version ≡ version + 1
  pub events : l.events ≡ event ∷ db.events
  pub writer_sequence : l.writer_sequence ≡ db.writer_sequence + 1
  pub global_sequence : l.global_sequence ≡ db.global_sequence + 1

-- One task moves.
pub record TaskMoves (env : Env) (db : Db) (l : Ledger) : Type 0 where
  pub old : TaskRow
  pub new : TaskRow
  pub event : Event
  pub found : find task_key old.task_id db.tasks ≡ some old
  pub step : TaskStep old new
  pub logs : Logs env db l "task" old.task_id old.aggregate_version event
  pub marks : TaskMarks event new
  pub tasks :
      (id : String)
      → find task_key id l.tasks
        ≡ (if old.task_id =? id then some new else find task_key id db.tasks)
  pub objectives : l.objectives ≡ db.objectives
  pub actions : l.actions ≡ db.actions

-- One task is created.
pub record TaskCreated (env : Env) (db : Db) (l : Ledger) : Type 0 where
  pub new : TaskRow
  pub event : Event
  pub absent : find task_key new.task_id db.tasks ≡ none
  pub state : new.state ≡ TaskState.proposed
  pub lease : lease_ok new ≡ true
  pub attempts : new.attempt_count ≡ 0
  pub logs : Logs env db l "task" new.task_id 0 event
  pub marks : TaskMarks event new
  pub tasks :
      (id : String)
      → find task_key id l.tasks
        ≡ (if new.task_id =? id then some new else find task_key id db.tasks)
  pub objectives : l.objectives ≡ db.objectives
  pub actions : l.actions ≡ db.actions

-- One action moves.
pub record ActionMoves (env : Env) (db : Db) (l : Ledger) : Type 0 where
  pub old : ActionRow
  pub new : ActionRow
  pub event : Event
  pub found : find action_key old.action_id db.actions ≡ some old
  pub step : ActionStep old new
  pub logs : Logs env db l "action" old.action_id old.aggregate_version event
  pub marks : ActionMarks event new
  pub actions :
      (id : String)
      → find action_key id l.actions
        ≡ (if old.action_id =? id then some new else find action_key id db.actions)
  pub objectives : l.objectives ≡ db.objectives
  pub tasks : l.tasks ≡ db.tasks

-- One action is created.
pub record ActionCreated (env : Env) (db : Db) (l : Ledger) : Type 0 where
  pub new : ActionRow
  pub event : Event
  pub absent : find action_key new.action_id db.actions ≡ none
  pub state : new.state ≡ ActionState.prepared
  pub logs : Logs env db l "action" new.action_id 0 event
  pub marks : ActionMarks event new
  pub actions :
      (id : String)
      → find action_key id l.actions
        ≡ (if new.action_id =? id then some new else find action_key id db.actions)
  pub objectives : l.objectives ≡ db.objectives
  pub tasks : l.tasks ≡ db.tasks

-- One objective moves.
pub record ObjectiveMoves (env : Env) (db : Db) (l : Ledger) : Type 0 where
  pub old : ObjectiveRow
  pub new : ObjectiveRow
  pub event : Event
  pub found : find objective_key old.objective_id db.objectives ≡ some old
  pub step : ObjectiveStep old new
  pub logs : Logs env db l "objective" old.objective_id old.aggregate_version event
  pub marks : ObjectiveMarks event new
  pub objectives :
      (id : String)
      → find objective_key id l.objectives
        ≡ (if old.objective_id =? id then some new else find objective_key id db.objectives)
  pub tasks : l.tasks ≡ db.tasks
  pub actions : l.actions ≡ db.actions

-- One objective is created.
pub record ObjectiveCreated (env : Env) (db : Db) (l : Ledger) : Type 0 where
  pub new : ObjectiveRow
  pub event : Event
  pub absent : find objective_key new.objective_id db.objectives ≡ none
  pub state : new.status ≡ ObjectiveStatus.proposed
  pub logs : Logs env db l "objective" new.objective_id 0 event
  pub marks : ObjectiveMarks event new
  pub objectives :
      (id : String)
      → find objective_key id l.objectives
        ≡ (if new.objective_id =? id then some new else find objective_key id db.objectives)
  pub tasks : l.tasks ≡ db.tasks
  pub actions : l.actions ≡ db.actions

-- The task that an action belongs to was not in a terminal state, and needs reconciliation now.
pub record StopsTask (d : Db) (l : Ledger) (id : String) : Type 0 where
  pub old : TaskRow
  pub new : TaskRow
  pub before : find task_key id d.tasks ≡ some old
  pub unfinished : is_terminal old.state ≡ false
  pub after : find task_key id l.tasks ≡ some new
  pub state : new.state ≡ TaskState.needs_reconciliation

-- What one method does.
pub data Effect (env : Env) (db : Db) (l : Ledger) : Type 0 where
  task_moves : TaskMoves env db l → Effect env db l
  task_created : TaskCreated env db l → Effect env db l
  action_moves : ActionMoves env db l → Effect env db l
  action_created : ActionCreated env db l → Effect env db l
  objective_moves : ObjectiveMoves env db l → Effect env db l
  objective_created : ObjectiveCreated env db l → Effect env db l
  -- An action moves to "unknown", and its own task moves after it, to "needs_reconciliation".
  action_stops_task :
      (d : Db) (m : ActionMoves env db (ledger d))
      → TaskMoves env d l
      → m.new.state ≡ ActionState.unknown
      → StopsTask d l m.old.task_id
      → Effect env db l
