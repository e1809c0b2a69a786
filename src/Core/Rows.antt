-- ===== src/Core/Rows.antt =====
-- The row lookups at the end of `Core` in src/city2core/core.py, `Core.task`, and the inserts
-- and updates that the methods share.
pub mod Reads
use city.Base.{
  ℕ, ◌+◌, ltb, ◌==◌, String, ◌=?◌, Bool, true, false, ◌&&◌, ◌||◌, Option, none, some, List, [], ◌∷◌,
  if◌then◌else◌,
}
use city.Model.Json.{Json, Fields, obj, str, num, null, end, field, get}
use city.Store.States.{TaskState, task_state_text}
use city.Store.Rows.{Db, ObjectiveRow, TaskRow, RunRow, ActionRow, Revision}
use city.Store.Table.{find, update}
use city.Store.Events.{current_version}
use city.Store.Tx.{
  Tx, Error, core_error, unknown_objective, unknown_task, unknown_run, unknown_action,
  missing_revision, ◌>>=◌, ◌>>◌, pure, reads, or_raise, execute,
}
use city.Core.Call.{dict}

abbrev pub objective_key : ObjectiveRow → String
objective_key r = r.objective_id

abbrev pub task_key : TaskRow → String
task_key r = r.task_id

abbrev pub run_key : RunRow → String
run_key r = r.run_id

abbrev pub action_key : ActionRow → String
action_key r = r.action_id

abbrev pub with_objectives : List ObjectiveRow → Db → Db
with_objectives t db = record db { objectives = t }

abbrev pub with_tasks : List TaskRow → Db → Db
with_tasks t db = record db { tasks = t }

abbrev pub with_runs : List RunRow → Db → Db
with_runs t db = record db { runs = t }

abbrev pub with_actions : List ActionRow → Db → Db
with_actions t db = record db { actions = t }

-- `tx.current_version` at the three tables of Core
unfoldable pub objective_version : String → Db → ℕ
unfolding current_version
objective_version id db = current_version objective_key (λ r. r.aggregate_version) id db.objectives

unfoldable pub task_version : String → Db → ℕ
unfolding current_version
task_version id db = current_version task_key (λ r. r.aggregate_version) id db.tasks

unfoldable pub action_version : String → Db → ℕ
unfolding current_version
action_version id db = current_version action_key (λ r. r.aggregate_version) id db.actions

unfoldable pub objective_row : String → Tx ObjectiveRow
unfolding find
objective_row id = do
  row ← reads (λ db. find objective_key id db.objectives)
  or_raise (core_error unknown_objective) row

unfoldable pub task_row : String → Tx TaskRow
unfolding find
task_row id = do
  row ← reads (λ db. find task_key id db.tasks)
  or_raise (core_error unknown_task) row

unfoldable pub run_row : String → Tx RunRow
unfolding find
run_row id = do row ← reads (λ db. find run_key id db.runs); or_raise (core_error unknown_run) row

unfoldable pub action_row : String → Tx ActionRow
unfolding find
action_row id = do
  row ← reads (λ db. find action_key id db.actions)
  or_raise (core_error unknown_action) row

unfoldable pub find_revision : String → ℕ → List Revision → Option Revision
find_revision id n [] = none
find_revision id n (r ∷ t) =
    let rest = find_revision id n t in if r.id =? id && r.revision == n then some r else rest

unfoldable pub task_revision : String → ℕ → Tx Fields
unfolding find_revision
task_revision id n = do
  row ← reads (λ db. find_revision id n db.task_revisions)
  r ← or_raise (core_error missing_revision) row
  pure r.record_json

-- PRIMARY KEY(id, revision) and UNIQUE(id, sha256) of the two tables of revisions
unfoldable pub revision_taken : Revision → List Revision → Bool
revision_taken r [] = false
revision_taken r (x ∷ t) =
    (r.id =? x.id && (r.revision == x.revision || r.sha256 =? x.sha256)) || revision_taken r t

unfoldable pub insert_task_revision : Revision → Tx (Unit {0})
unfolding revision_taken
insert_task_revision r = execute (λ db.
    if revision_taken r db.task_revisions
    then none
    else some (record db { task_revisions = r ∷ db.task_revisions }))

unfoldable pub insert_objective_revision : Revision → Tx (Unit {0})
unfolding revision_taken
insert_objective_revision r = execute (λ db.
    if revision_taken r db.objective_revisions
    then none
    else some (record db { objective_revisions = r ∷ db.objective_revisions }))

-- SELECT … FROM runs WHERE task_id = id ORDER BY attempt_number DESC LIMIT 1
abbrev higher : RunRow → Option RunRow → Option RunRow
higher r none = some r
higher r (some q) = if ltb r.attempt_number q.attempt_number then some q else some r

unfoldable pub latest_run : String → List RunRow → Option RunRow
latest_run id [] = none
latest_run id (r ∷ t) =
    let rest = latest_run id t in if r.task_id =? id then higher r rest else rest

-- a text column that is neither NULL nor empty
abbrev pub present : Option String → Bool
present none = false
present (some t) = if t =? "" then false else true

abbrev pub column : Option String → Json
column none = null
column (some t) = str t

-- `Core.task`
lease_part : TaskRow → Fields
unfolding dict
lease_part row =
    if present row.lease_owner && present row.lease_fencing_token && present row.lease_expires_at
    then dict (
        (
          "lease",
          obj (
              dict (
                ("owner", column row.lease_owner)
                ∷ ("fencing_token", column row.lease_fencing_token)
                ∷ ("expires_at", column row.lease_expires_at)
                ∷ ("attempt_number", num row.attempt_count)
                ∷ ("expected_task_version", num row.aggregate_version)
                ∷ [])),
        )
        ∷ [])
    else end

review_part : Fields → Fields → Fields
unfolding get
review_part revision rest = elim (get "review_id" revision) [
  | none ↦ rest
  | some v ↦ field "review_id" v rest
]

unfoldable pub task_record : TaskRow → Fields → Fields
unfolding lease_part review_part dict task_state_text
task_record row revision = field "schema_version" (str "city2.task-record/v1") (
    field "task_id" (str row.task_id) (
      field "task_revision" (num row.task_revision) (
        field "task_envelope_sha256" (str row.task_sha256) (
          field "objective_id" (str row.objective_id) (
            field "objective_revision" (num row.objective_revision) (
              field "objective_sha256" (str row.objective_sha256) (
                field "aggregate_version" (num row.aggregate_version) (
                  field "state" (str (task_state_text row.state)) (
                    field "attempt_count" (num row.attempt_count) (
                      field "max_attempts" (num row.max_attempts) (
                        field "created_at" (str row.created_at) (
                          field "updated_at" (str row.updated_at) (
                            let rest = review_part revision (lease_part row) in
                            if present row.current_run_id
                            then field "current_run_id" (column row.current_run_id) rest
                            else rest)))))))))))))

unfoldable pub task : String → Tx Fields
unfolding task_row task_revision task_record
task id = do
  row ← task_row id
  revision ← task_revision id row.task_revision
  pure (task_record row revision)
