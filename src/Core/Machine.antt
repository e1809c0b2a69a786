-- ===== src/Core/Machine.antt =====
-- The methods of `Core` in src/city2core/core.py as one machine: the calls that change a database.
pub mod Steps
pub mod Projection
pub mod Invariant
pub mod Follow
use city.Base.{ℕ, String, Bool, Option, List, [], ◌≡◌}
use city.Model.Json.{Fields}
use city.Model.Canonical.{Digest}
use city.Store.Rows.{Db}
use city.Store.Tx.{Env}
use city.Core.Call.{Call, invoke}
use city.Core.Task
use city.Core.Revise
use city.Core.Lease
use city.Core.Lease.{LeaseRequest}
use city.Core.Submit
use city.Core.Action
use city.Core.Objective

-- A method that changes the database, with its arguments.
pub data Method : Type 0 where
  create_objective : Fields → String → Method
  set_objective_status : String → String → ℕ → String → Method
  revise_objective : String → Fields → ℕ → String → Method
  create_task : Fields → String → Method
  set_task_ready : String → ℕ → String → Method
  request_task_approval : String → ℕ → String → Method
  review_task : String → String → ℕ → String → List String → Option Fields → String → Method
  revise_task : String → Fields → ℕ → String → List String → String → Method
  resume_after_reconciliation : String → ℕ → String → Method
  lease_task : String → ℕ → LeaseRequest → String → Method
  start_run : String → String → String → ℕ → String → Method
  submit_result : Fields → String → Method
  request_cancellation : String → ℕ → String → Method
  confirm_cancellation : String → ℕ → String → Method
  expire_lease : String → ℕ → Bool → Option String → String → Method
  prepare_action : Fields → String → String → Method
  begin_action_dispatch : String → ℕ → String → Method
  reconcile_action : String → String → ℕ → String → Option String → Option Fields → Method

unfoldable pub call_of : Method → Call
call_of (Method.create_objective a b) = Objective.create_objective a b
call_of (Method.set_objective_status a b c d) = Objective.set_objective_status a b c d
call_of (Method.revise_objective a b c d) = Objective.revise_objective a b c d
call_of (Method.create_task a b) = Task.create_task a b
call_of (Method.set_task_ready a b c) = Task.set_task_ready a b c
call_of (Method.request_task_approval a b c) = Task.request_task_approval a b c
call_of (Method.review_task a b c d e f g) = Task.review_task a b c d e f g
call_of (Method.revise_task a b c d e f) = Revise.revise_task a b c d e f
call_of (Method.resume_after_reconciliation a b c) = Revise.resume_after_reconciliation a b c
call_of (Method.lease_task a b c d) = Lease.lease_task a b c d
call_of (Method.start_run a b c d e) = Lease.start_run a b c d e
call_of (Method.submit_result a b) = Submit.submit_result a b
call_of (Method.request_cancellation a b c) = Revise.request_cancellation a b c
call_of (Method.confirm_cancellation a b c) = Revise.confirm_cancellation a b c
call_of (Method.expire_lease a b c d e) = Lease.expire_lease a b c d e
call_of (Method.prepare_action a b c) = Action.prepare_action a b c
call_of (Method.begin_action_dispatch a b c) = Action.begin_action_dispatch a b c
call_of (Method.reconcile_action a b c d e f) = Action.reconcile_action a b c d e f

abbrev pub empty_db : Db
empty_db = record {
  global_sequence = 0;
  writer_sequence = 0;
  events = [];
  command_dedup = [];
  objectives = [];
  objective_revisions = [];
  tasks = [];
  task_revisions = [];
  runs = [];
  actions = [];
  memories = [];
  memory_reviews = [];
  memory_conflicts = [];
  memory_fts = [];
  context_packs = [];
  agent_manifests = [];
  task_reviews = [];
}

-- The databases that calls reach from an empty one. Every call has an environment of its own, with
-- its clock and its faults; the hash and the writer are those of the store.
pub data Reaches (lib : Digest) (writer_id : String) : Db → Type 0 where
  begin : Reaches lib writer_id empty_db
  call :
      (env : Env)
      → env.digest ≡ lib
      → env.writer_id ≡ writer_id
      → (m : Method) (key : String) (db : Db) → Reaches lib writer_id db
      → Reaches lib writer_id (invoke env (call_of m) key db).1
