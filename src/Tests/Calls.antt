-- ===== src/Tests/Calls.antt =====
-- Calls of src/city2core/core.py, and the databases that they reach.
use city.Base.{◌≡◌, ◌↔◌, refl, some, [], ◌∷◌}
use city.Model.Json.{Json, Fields, str, num, obj, arr, nil, get, end, field}
use city.Model.Canonical.{Digest}
use city.Store.States.{TaskState}
use city.Store.Rows.{Db}
use city.Store.Tx.{
  Env, Pragmas, Result, ok, err, Error, version_conflict, idempotency_collision, ◌>>=◌,
}
use city.Store.Command.{command}
use city.Store.Integrity.Log.{length}
use city.Core.Call.{Call, invoke, dict}
use city.Store.Table.{find}
use city.Store.Integrity.{Scan, scan_log}
use city.Store.Integrity.Log.{IsChained}
use city.Store.Integrity.Sound.{scan_log_iff}
use city.Core.Rows.{task_key}
use city.Core.Lifecycle.{is_terminal}
use city.Core.Effect.{ledger}
use city.Core.Machine.Steps.{Stepped, invoke-Stepped}
use city.Core.Machine.Invariant.{IsConsistent, Reaches-IsConsistent, reached_verifies}
use city.Core.Machine.Follow.{Follows, task-Follows, terminal_stays}
use city.Core.Rows.{task_version}
use city.Store.Table.{count_where}
use city.Core.Machine.{call_of, empty_db, begin, call}
use city.Tests.Data.{lib, test_env, create, one_db, ready, accepted_task}

-- The first call logs one event.
one_event : length one_db.events ≡ 1
unfolding invoke call_of city.Core.Objective.create_objective ◌>>=◌ city.Store.Tx.pure
    city.Core.Call.required city.Store.Tx.guard city.Model.Canonical.sha256_json
    city.Model.Canonical.canonical_json dict city.Store.Tx.fault city.Store.Tx.reads
    city.Store.Tx.utc_now city.Store.Tx.id_or_new city.Store.Tx.new_id city.Core.Call.pick
    city.Store.Tx.field_of city.Store.Tx.sha_profile city.Model.Canonical.digest_profile
    city.Model.Json.merge city.Core.Call.get_or city.Core.Call.validate city.Store.Tx.accepts
    city.Store.Tx.text_of city.Store.Events.expect_version city.Core.Rows.objective_version
    city.Store.Events.append_event city.Store.Tx.writer city.Store.Tx.sha_json
    city.Store.Tx.check_canonical city.Core.Rows.insert_objective_revision city.Store.Tx.execute
    city.Store.Tx.insert_row city.Store.Events.projection_updated city.Store.Command.command
    city.Store.Tx.write city.Store.Tx.or_raise city.Store.Events.event_from_row
    city.Store.Events.latest city.Store.Events.current_version city.Store.Table.find
    city.Store.Table.insert city.Model.Json.put city.Model.Json.get city.Model.Json.has
    city.Core.Rows.revision_taken city.Model.Json.missing
one_event = refl

-- The events of an empty store, and of one after a call.
Reaches-IsConsistent_example : IsConsistent lib "writer-a" (ledger one_db)
Reaches-IsConsistent_example =
    Reaches-IsConsistent lib "writer-a" one_db
      (call test_env refl refl create "key-1" empty_db begin)

reached_verifies_example : (s : Scan) × (scan_log lib one_db.events ≡ some s)
reached_verifies_example =
    reached_verifies lib "writer-a" one_db (call test_env refl refl create "key-1" empty_db begin)

invoke-Stepped_example :
    Stepped test_env empty_db (invoke test_env (call_of create) "key-1" empty_db).1
invoke-Stepped_example = invoke-Stepped test_env create "key-1" empty_db

abbrev done_db : Db
done_db = record empty_db { tasks = accepted_task ∷ [] }

abbrev open_db : Db
open_db = record empty_db {
  tasks = record accepted_task { aggregate_version = 3; state = TaskState.proposed } ∷ [];
}

task-Follows_example :
    Follows "tsk_1"
      (record accepted_task { aggregate_version = 3; state = TaskState.proposed })
      (ledger (invoke test_env (call_of ready) "key-1" open_db).1)
unfolding find
task-Follows_example =
    task-Follows test_env ready "key-1" open_db "tsk_1"
      (record accepted_task { aggregate_version = 3; state = TaskState.proposed }) refl

terminal_stays_example :
    find task_key "tsk_1" (invoke test_env (call_of ready) "key-1" done_db).1.tasks
    ≡ some accepted_task
unfolding find is_terminal
terminal_stays_example =
    terminal_stays test_env ready "key-1" done_db "tsk_1" accepted_task refl refl

scan_log_iff_example :
    ((s : Scan) × (scan_log lib one_db.events ≡ some s)) ↔ IsChained lib one_db.events
scan_log_iff_example = scan_log_iff lib one_db.events
