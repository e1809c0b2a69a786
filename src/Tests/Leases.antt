-- ===== src/Tests/Leases.antt =====
-- A task of src/city2core/core.py from its objective to its acceptance, and its leases.
use city.Base.{List, Option, String, ◌≡◌, ◌&◌, refl, none, some, [], ◌∷◌}
use city.Model.Json.{Json, Fields, str, num, obj, arr, nil, get, end, field}
use city.Model.Canonical.{Digest}
use city.Store.States.{TaskState}
use city.Store.Rows.{Db, TaskRow}
use city.Store.Tx.{
  Env, Pragmas, Result, ok, err, Error, version_conflict, idempotency_collision, ◌>>=◌,
}
use city.Core.Call.{Call, invoke, dict}
use city.Core.Rows.{task_key}
use city.Core.Rows.{task_version}
use city.Store.Post.{Post}
use city.Core.Lease.{LeaseRequest, start_run_in, expire_lease_in, is_leased}
use city.Core.Submit.{submit_result_in, is_running}
use city.Core.Guards.{Fenced, Submits, start_run-Fenced, submit_result-Submits}
use city.Core.Machine.{Method, call_of}
use city.Tests.Data.{digit, test_env, one_db}

-- A task from its objective to its acceptance.
abbrev task_input : Fields
task_input = field "objective_id" (str "obj_1") (
    field "task_type" (str "survey") (
      field "title" (str "Survey") (
        field "intent" (str "A survey") (
          field "requested_role" (str "surveyor") (
            field "authority_class" (str "read") (
              field "inputs" (arr nil) (
                field "constraints" (arr nil) (
                  field "acceptance_criteria" (arr nil) (
                    field "memory_scopes" (arr nil) (
                      field "time_budget_seconds" (num 60) (
                        field "max_attempts" (num 2)
                          (field "task_dedupe_key" (str "survey-1") end))))))))))))

-- A later call has other readings of the random source.
abbrev pub call_env : String → Env
call_env prefix = record test_env { uuid7 = λ n. prefix & digit n }

abbrev pub step_db : String → Method → Db → Db
step_db key m db = (invoke (call_env key) (call_of m) key db).1

abbrev request : LeaseRequest
request = record {
  owner = "bob";
  expires_at = "lateZ";
  resolved_agent_id = "agt_1";
  resolved_manifest_version = 1;
  resolved_manifest_sha256 = "sha";
}

abbrev created_db : Db
created_db = step_db "b" (Method.create_task task_input "ada") one_db

abbrev pub task_name : String
task_name = "tsk_b1"

abbrev lease_db : Db
lease_db =
    step_db "d" (Method.lease_task task_name 2 request "ada")
      (step_db "c" (Method.set_task_ready task_name 1 "ada") created_db)

abbrev pub running_db : Db
running_db = step_db "e" (Method.start_run task_name "run_d1" "2" 3 "bob") lease_db

abbrev result_input : Fields
result_input = field "task_id" (str task_name) (
    field "run_id" (str "run_d1") (
      field "expected_task_version" (num 4)
        (field "lease_fencing_token" (str "2") (field "run_status" (str "completed") end))))

abbrev accepted_db : Db
accepted_db =
    step_db "g" (Method.review_task task_name "accepted" 5 "rev_1" [] none "ada")
      (step_db "f" (Method.submit_result result_input "bob") running_db)

abbrev pub first_state : List TaskRow → Option TaskState
first_state [] = none
first_state (r ∷ t) = some r.state

-- The seven calls succeed, and the task is accepted.
accepted_run : first_state accepted_db.tasks ≡ some TaskState.accepted
unfolding call_of city.Core.Objective.create_objective city.Model.Json.items
    city.Model.Canonical.canonical_json city.Model.Canonical.digest_profile
    city.Model.Ids.parse_time city.Store.Tx.◌>>=◌ city.Store.Tx.pure city.Store.Tx.reads
    city.Store.Tx.guard city.Store.Tx.write city.Store.Tx.insert_row city.Store.Tx.utc_now
    city.Store.Tx.new_id city.Store.Tx.token_urlsafe city.Store.Tx.fault city.Store.Tx.accepts
    city.Store.Tx.sha_json city.Store.Tx.check_canonical city.Store.Tx.sha_profile
    city.Store.Tx.time_of city.Store.Tx.writer city.Store.Tx.field_of city.Store.Tx.text_of
    city.Store.Tx.nat_of city.Store.Tx.id_or_new city.Store.Events.event_from_row
    city.Store.Events.latest city.Store.Events.append_event city.Store.Events.projection_updated
    city.Store.Events.expect_version city.Core.Call.invoke city.Core.Call.required
    city.Core.Call.pick city.Core.Call.get_or city.Core.Call.validate
    city.Core.Rows.objective_version city.Core.Rows.task_version city.Core.Rows.objective_row
    city.Core.Rows.run_row city.Core.Rows.insert_task_revision
    city.Core.Rows.insert_objective_revision city.Core.Rows.task
    city.Core.Transition.transition_in_tx city.Core.Task.set_task_ready city.Core.Task.create_task
    city.Core.Task.review_task city.Core.Lease.lease_task city.Core.Lease.start_run
    city.Core.Submit.record_result city.Core.Submit.submit_result
accepted_run = refl

start_run-Fenced_example :
    Post test_env lease_db (start_run_in task_name "run_d1" "2" 3 "bob" "key-1") (λ _ _.
      Fenced lease_db test_env is_leased task_name "run_d1" "2"
      × (task_version task_name lease_db ≡ 3))
start_run-Fenced_example =
    start_run-Fenced {env = test_env} {db = lease_db} task_name "run_d1" "2" 3 "bob" "key-1"

submit_result-Submits_example :
    Post test_env running_db
      (submit_result_in result_input "bob" "key-1")
      (λ _ _. (id : String) × (run_id : String) × Submits running_db result_input id run_id)
submit_result-Submits_example =
    submit_result-Submits {env = test_env} {db = running_db} result_input "bob" "key-1"
