-- ===== src/Tests/Data.antt =====
-- The data of the tests: library functions, an environment, and the first call.
use city.Base.{[], ◌∷◌, map, ℕ, ◌==◌, String, ◌&◌, true, false, none, some, if◌then◌else◌, ◌=?◌}
use city.Model.Json.{Fields, str, obj, arr, nil, end, field}
use city.Model.Canonical.{Digest}
use city.Store.States.{TaskState}
use city.Store.Rows.{Db, TaskRow}
use city.Store.Tx.{Env, Pragmas}
use city.Core.Call.{invoke}
use city.Core.Machine.{Method, call_of, empty_db}

abbrev pub lib : Digest
lib = record { sha256_text = λ t. t; dumps_text = λ t. t }

abbrev pub settings : Pragmas
settings = record { foreign_keys = 1; journal_mode = "wal"; synchronous = 2; user_version = 4 }

abbrev pub digit : ℕ → String
digit n =
    if n == 0
    then "0"
    else if n == 1
    then "1"
    else if n == 2
    then "2"
    else if n == 3
    then "3"
    else if n == 4
    then "4"
    else if n == 5
    then "5"
    else if n == 6
    then "6"
    else if n == 7
    then "7"
    else if n == 8
    then "8"
    else "9"

abbrev pub number : ℕ → String
number n = if n == 0 then "0" else if n == 1 then "1" else if n == 2 then "2" else "3"

abbrev pub test_env : Env
test_env = record {
  digest = lib;
  fromisoformat = λ t. some (if t =? "late+00:00" then 5 else 1);
  valid = λ schema v. true;
  clock = λ n. digit n & "Z";
  uuid7 = number;
  token_urlsafe = number;
  fault_hook = λ b. false;
  pragmas = settings;
  writer_id = "writer-a";
  secret_key = λ k. false;
  secret_metadata_key = λ k. false;
  secret_content = λ t. false;
  has_user_info = λ t. false;
  folded = λ t. t;
  words = λ t. t ∷ [];
  is_space = λ c. false;
  fts_match = λ rows query. map (λ r. r.memory_id) rows;
  timestamp_micros = λ n. n;
  uuid4 = number;
}

abbrev pub objective_input : Fields
objective_input = field "title" (str "Map the city") (
    field "intent" (str "A map") (
      field "accountable_owner" (str "ada") (
        field "review_at" (str "2030-01-01T00:00:00Z") (
          field "measurable_outcomes" (arr nil) (
            field "stop_conditions" (arr nil)
              (field "authority_ceiling" (str "low") (field "budget" (obj end) end)))))))

abbrev pub create : Method
create = Method.create_objective objective_input "ada"

abbrev pub one_db : Db
one_db = (invoke test_env (call_of create) "key-1" empty_db).1

abbrev pub ready : Method
ready = Method.set_task_ready "tsk_1" 3 "ada"

-- a store with one task, which is accepted
abbrev pub accepted_task : TaskRow
accepted_task = record {
  task_id = "tsk_1";
  aggregate_version = 7;
  task_revision = 1;
  task_sha256 = "sha";
  objective_id = "obj_1";
  objective_revision = 1;
  objective_sha256 = "sha";
  state = TaskState.accepted;
  attempt_count = 1;
  max_attempts = 2;
  current_run_id = none;
  lease_owner = none;
  lease_fencing_token = none;
  lease_expires_at = none;
  last_event_id = "evt_7";
  last_event_sha256 = "sha";
  event_high_water = 9;
  created_at = "0";
  updated_at = "1";
}
