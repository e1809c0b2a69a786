-- ===== src/Tests/Commands.antt =====
-- Commands on a store: `command` of src/city2core/store.py, and what a client sees of it.
use city.Base.{◌≡◌, ◌≢◌, refl, ap, Bool, true, false, ◌=?◌}
use city.Model.Json.{Json, Fields, str, num, obj, arr, nil, get, end, field}
use city.Model.Canonical.{Digest}
use city.Store.Rows.{Db}
use city.Store.Tx.{
  Env, Pragmas, Result, ok, err, Error, version_conflict, idempotency_collision, ◌>>=◌,
}
use city.Store.Command.{command}
use city.Core.Call.{Call, invoke, dict}
use city.Store.Table.{find}
use city.Store.Command.Repeat.{command_once, command_recovers}
use city.Core.Rows.{task_key}
use city.Core.Rows.{task_version}
use city.Store.Table.{count_where}
use city.Core.Machine.{call_of, empty_db}
use city.Tests.Data.{test_env, create, one_db, ready}

-- what a command answers
abbrev result_of : Result (Fields × Bool) × Db → Fields
result_of (ok (r, _), _) = r
result_of (err _, _) = end

abbrev create_json : Json
create_json = str "create the objective"

abbrev create_command : Env → Db → Result (Fields × Bool) × Db
create_command env db = command env "key-1" create_json (call_of create).operation db

create_answers :
    (create_command test_env empty_db).0 ≡ ok (result_of (create_command test_env empty_db), false)
unfolding call_of city.Core.Objective.create_objective ◌>>=◌ city.Store.Tx.pure
    city.Core.Call.required city.Store.Tx.guard city.Model.Canonical.sha256_json
    city.Model.Canonical.canonical_json dict city.Store.Tx.fault city.Store.Tx.reads
    city.Store.Tx.utc_now city.Store.Tx.id_or_new city.Store.Tx.new_id city.Core.Call.pick
    city.Store.Tx.field_of city.Store.Tx.sha_profile city.Model.Canonical.digest_profile
    city.Model.Json.merge city.Core.Call.get_or city.Core.Call.validate city.Store.Tx.accepts
    city.Store.Tx.text_of city.Store.Events.expect_version city.Core.Rows.objective_version
    city.Store.Events.append_event city.Store.Tx.writer city.Store.Tx.sha_json
    city.Store.Tx.check_canonical city.Core.Rows.insert_objective_revision city.Store.Tx.execute
    city.Store.Tx.insert_row city.Store.Events.projection_updated city.Store.Command.command
    city.Store.Tx.write city.Store.Tx.or_raise city.Store.Events.event_from_row
    city.Store.Events.latest city.Store.Events.current_version city.Store.Table.find
    city.Store.Table.insert city.Model.Json.put city.Model.Json.get city.Model.Json.has
    city.Core.Rows.revision_taken city.Model.Json.missing
create_answers = refl

-- The commit is made, and its caller is not told.
abbrev lost_env : Env
lost_env = record test_env { fault_hook = λ b. b =? "after_commit" }

lost_changes : (create_command lost_env empty_db).1 ≢ empty_db
unfolding call_of city.Core.Objective.create_objective ◌>>=◌ city.Store.Tx.pure
    city.Core.Call.required city.Store.Tx.guard city.Model.Canonical.sha256_json
    city.Model.Canonical.canonical_json dict city.Store.Tx.fault city.Store.Tx.reads
    city.Store.Tx.utc_now city.Store.Tx.id_or_new city.Store.Tx.new_id city.Core.Call.pick
    city.Store.Tx.field_of city.Store.Tx.sha_profile city.Model.Canonical.digest_profile
    city.Model.Json.merge city.Core.Call.get_or city.Core.Call.validate city.Store.Tx.accepts
    city.Store.Tx.text_of city.Store.Events.expect_version city.Core.Rows.objective_version
    city.Store.Events.append_event city.Store.Tx.writer city.Store.Tx.sha_json
    city.Store.Tx.check_canonical city.Core.Rows.insert_objective_revision city.Store.Tx.execute
    city.Store.Tx.insert_row city.Store.Events.projection_updated city.Store.Command.command
    city.Store.Tx.write city.Store.Tx.or_raise city.Store.Events.event_from_row
    city.Store.Events.latest city.Store.Events.current_version city.Store.Table.find
    city.Store.Table.insert city.Model.Json.put city.Model.Json.get city.Model.Json.has
    city.Core.Rows.revision_taken city.Model.Json.missing
lost_changes h = absurd (cc (ap (λ d. d.global_sequence) h))

abbrev ready_command : Result (Fields × Bool) × Db
ready_command = command test_env "key-2" create_json (call_of ready).operation one_db

ready_fails : ready_command.0 ≡ err version_conflict
unfolding call_of city.Core.Task.set_task_ready city.Core.Transition.simple_task_transition
    city.Core.Transition.simple_task_transition_in ◌>>=◌ city.Store.Tx.fault city.Store.Tx.reads
    city.Model.Canonical.sha256_json city.Model.Canonical.canonical_json city.Store.Tx.guard
    city.Store.Events.expect_version city.Core.Rows.task_version city.Store.Events.current_version
    city.Store.Table.find command invoke city.Core.Objective.create_objective city.Store.Tx.pure
    city.Core.Call.required dict city.Store.Tx.utc_now city.Store.Tx.id_or_new city.Store.Tx.new_id
    city.Core.Call.pick city.Store.Tx.field_of city.Store.Tx.sha_profile
    city.Model.Canonical.digest_profile city.Model.Json.merge city.Core.Call.get_or
    city.Core.Call.validate city.Store.Tx.accepts city.Store.Tx.text_of
    city.Core.Rows.objective_version city.Store.Events.append_event city.Store.Tx.writer
    city.Store.Tx.sha_json city.Store.Tx.check_canonical city.Core.Rows.insert_objective_revision
    city.Store.Tx.execute city.Store.Tx.insert_row city.Store.Events.projection_updated
    city.Store.Tx.write city.Store.Tx.or_raise city.Store.Events.event_from_row
    city.Store.Events.latest city.Store.Table.insert city.Model.Json.put city.Model.Json.get
    city.Model.Json.has city.Core.Rows.revision_taken city.Model.Json.missing
ready_fails = refl

command_once_example :
    command test_env "key-1" create_json
      (call_of ready).operation
      (create_command test_env empty_db).1
    ≡ (
      ok (result_of (create_command test_env empty_db), true),
      (create_command test_env empty_db).1,
    )
unfolding city.Store.Command.verify_pragmas
command_once_example =
    command_once test_env "key-1" create_json (call_of create).operation empty_db test_env
      (call_of ready).operation (result_of (create_command test_env empty_db)) false refl refl refl
      create_answers

command_recovers_example :
    (r : Fields) × (command test_env "key-1" create_json
        (call_of ready).operation
        (create_command lost_env empty_db).1
      ≡ (ok (r, true), (create_command lost_env empty_db).1))
unfolding city.Store.Command.verify_pragmas
command_recovers_example =
    command_recovers lost_env "key-1" create_json (call_of create).operation empty_db test_env
      (call_of ready).operation refl refl refl lost_changes
