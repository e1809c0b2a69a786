-- ===== src/Tests/Actions.antt =====
-- An action of src/city2core/core.py from its preparation to its reconciliation.
use city.Base.{
  List, Option, ◌==◌, String, ◌=?◌, ◌≡◌, refl, true, none, some, [], ◌∷◌, if◌then◌else◌,
}
use city.Model.Json.{Fields, str, obj, get, end, field}
use city.Store.States.{TaskState, ActionState}
use city.Store.Rows.{Db, ActionRow}
use city.Store.Tx.{Env}
use city.Store.Post.{Post}
use city.Core.Call.{invoke}
use city.Core.Rows.{task_version}
use city.Core.Revise.{task_actions, is_uncertain, is_unresolved, resume_in}
use city.Core.Lease.{expire_lease_in}
use city.Core.Submit.{is_running}
use city.Core.Action.{prepare_action_in}
use city.Core.Effect.Transitions.{InState}
use city.Core.Guards.{Fenced, expire_lease_uncertain, prepare_action-Fenced, resume_resolved}
use city.Core.Machine.{Method, call_of}
use city.Tests.Leases.{task_name, running_db, call_env, step_db, first_state}

abbrev action_input : Fields
action_input = field "action_id" (str "act_1") (
    field "task_id" (str task_name) (
      field "run_id" (str "run_d1") (
        field "capability" (str "mail") (
          field "target" (str "ada") (
            field "provider" (str "post") (
              field "canonical_parameters" (obj end) (
                field "approval_id" (str "apr_1") (
                  field "approval_sha256" (str "sha")
                    (field "operation_idempotency_key" (str "op-1") end)))))))))

abbrev prepared_db : Db
prepared_db = step_db "h" (Method.prepare_action action_input "2" "bob") running_db

abbrev dispatched_db : Db
dispatched_db = step_db "i" (Method.begin_action_dispatch "act_1" 1 "bob") prepared_db

-- an environment in which the lease has expired at "laterZ"
abbrev late_env : Env
late_env = record (call_env "j") { fromisoformat = λ t. some (if t =? "later+00:00" then 9 else 5) }

abbrev expired_db : Db
expired_db =
    (invoke late_env (call_of (Method.expire_lease task_name 4 true (some "laterZ") "ada")) "j"
      dispatched_db).1

abbrev settled_db : Db
settled_db = step_db "k" (Method.reconcile_action "act_1" "failed" 2 "ada" none none) expired_db

abbrev resumed_db : Db
resumed_db = step_db "l" (Method.resume_after_reconciliation task_name 5 "ada") settled_db

-- the other end of a dispatched action: nobody knows what became of it
abbrev unknown_db : Db
unknown_db = step_db "m" (Method.reconcile_action "act_1" "unknown" 2 "ada" none none) dispatched_db

abbrev first_action : List ActionRow → Option ActionState
first_action [] = none
first_action (r ∷ t) = some r.state

-- The action is prepared and dispatched; the lease expires, and the task needs reconciliation; the
-- action fails, and the task resumes. Where the outcome is unknown, the task stops.
action_course :
    (first_action prepared_db.actions ≡ some ActionState.prepared)
    × (first_action dispatched_db.actions ≡ some ActionState.dispatched)
    × (first_state expired_db.tasks ≡ some TaskState.needs_reconciliation)
    × (first_action settled_db.actions ≡ some ActionState.failed)
    × (first_state resumed_db.tasks ≡ some TaskState.ready)
    × (first_state unknown_db.tasks ≡ some TaskState.needs_reconciliation)
unfolding call_of city.Core.Objective.create_objective city.Model.Canonical.canonical_json
    city.Model.Canonical.digest_profile city.Model.Ids.parse_time city.Store.Tx.◌>>=◌
    city.Store.Tx.pure city.Store.Tx.reads city.Store.Tx.guard city.Store.Tx.write
    city.Store.Tx.insert_row city.Store.Tx.utc_now city.Store.Tx.new_id city.Store.Tx.token_urlsafe
    city.Store.Tx.fault city.Store.Tx.accepts city.Store.Tx.sha_json city.Store.Tx.check_canonical
    city.Store.Tx.sha_profile city.Store.Tx.time_of city.Store.Tx.writer city.Store.Tx.field_of
    city.Store.Tx.text_of city.Store.Tx.nat_of city.Store.Tx.id_or_new
    city.Store.Events.event_from_row city.Store.Events.latest city.Store.Events.append_event
    city.Store.Events.projection_updated city.Store.Events.expect_version city.Core.Call.invoke
    city.Core.Call.required city.Core.Call.pick city.Core.Call.get_or city.Core.Call.validate
    city.Core.Rows.objective_version city.Core.Rows.task_version city.Core.Rows.objective_row
    city.Core.Rows.insert_task_revision city.Core.Rows.insert_objective_revision city.Core.Rows.task
    city.Core.Transition.transition_in_tx city.Core.Task.set_task_ready city.Core.Task.create_task
    city.Core.Lease.lease_task city.Core.Lease.start_run city.Core.Action.prepare_action
    city.Core.Action.begin_action_dispatch city.Core.Action.reconcile_action
    city.Core.Lease.expire_lease city.Core.Revise.resume_after_reconciliation
    city.Core.Rows.action_row city.Core.Rows.action_version city.Model.Json.truthy
action_course = (refl, refl, refl, refl, refl, refl)

prepare_action-Fenced_example :
    Post (call_env "h") running_db (prepare_action_in action_input "2" "bob" "h") (λ _ _.
      (id : String) × (run_id : String) × (get "task_id" action_input ≡ some (str id))
      × (get "run_id" action_input ≡ some (str run_id))
      × Fenced running_db (call_env "h") is_running id run_id "2")
prepare_action-Fenced_example =
    prepare_action-Fenced {env = call_env "h"} {db = running_db} action_input "2" "bob" "h"

expire_lease_uncertain_example :
    Post late_env dispatched_db
      (expire_lease_in task_name 4 true (some "laterZ") "ada" "j")
      (λ _ db'. InState task_name TaskState.needs_reconciliation db')
unfolding call_of city.Core.Objective.create_objective city.Model.Canonical.canonical_json
    city.Model.Canonical.digest_profile city.Model.Ids.parse_time city.Store.Tx.◌>>=◌
    city.Store.Tx.pure city.Store.Tx.reads city.Store.Tx.guard city.Store.Tx.write
    city.Store.Tx.insert_row city.Store.Tx.utc_now city.Store.Tx.new_id city.Store.Tx.token_urlsafe
    city.Store.Tx.fault city.Store.Tx.accepts city.Store.Tx.sha_json city.Store.Tx.check_canonical
    city.Store.Tx.sha_profile city.Store.Tx.time_of city.Store.Tx.writer city.Store.Tx.field_of
    city.Store.Tx.text_of city.Store.Tx.nat_of city.Store.Tx.id_or_new
    city.Store.Events.event_from_row city.Store.Events.latest city.Store.Events.append_event
    city.Store.Events.projection_updated city.Store.Events.expect_version city.Core.Call.invoke
    city.Core.Call.required city.Core.Call.pick city.Core.Call.get_or city.Core.Call.validate
    city.Core.Rows.objective_version city.Core.Rows.task_version city.Core.Rows.objective_row
    city.Core.Rows.insert_task_revision city.Core.Rows.insert_objective_revision city.Core.Rows.task
    city.Core.Transition.transition_in_tx city.Core.Task.set_task_ready city.Core.Task.create_task
    city.Core.Lease.lease_task city.Core.Lease.start_run city.Core.Action.prepare_action
    city.Core.Action.begin_action_dispatch task_actions is_unresolved city.Core.Rows.action_row
    city.Core.Rows.action_version city.Model.Json.truthy
expire_lease_uncertain_example =
    expire_lease_uncertain {env = late_env} {db = dispatched_db} task_name 4 true (some "laterZ")
      "ada" "j" refl

resume_resolved_example : Post (call_env "l") settled_db (resume_in task_name 5 "ada" "l") (λ _ _.
    InState task_name TaskState.needs_reconciliation settled_db
    × ((task_actions is_unresolved task_name settled_db == 0) ≡ true)
    × (task_version task_name settled_db ≡ 5))
resume_resolved_example =
    resume_resolved {env = call_env "l"} {db = settled_db} task_name 5 "ada" "l"
