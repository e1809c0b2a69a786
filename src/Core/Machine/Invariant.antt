-- ===== src/Core/Machine/Invariant.antt =====
-- What holds of every database that calls of src/city2core/core.py reach.
use city.Base.{
  ℕ, ◌+◌, String, ◌=?◌, ◌≡◌, ◌≢◌, refl, sym, ap, subst, ◌∙◌, inl, inr, true, Option, some, List,
  ◌∷◌, arith, Bool-cases, if◌then◌else◌, eq_refl,
}
use city.Model.Canonical.{Digest}
use city.Store.Rows.{Db, Event, TaskRow}
use city.Store.Table.{find}
use city.Store.Tx.{Env}
use city.Store.Events.{latest, prior_version, prior_hash, prior_sequence}
use city.Store.Integrity.Log.{Extends, IsChained, length, last_written}
use city.Store.Integrity.{Scan, scan_log}
use city.Store.Integrity.Sound.{scan_log-accepts}
use city.Core.Call.{invoke, later}
use city.Core.Rows.{objective_key, task_key, action_key}
use city.Core.Lifecycle.{TaskMarks, ActionMarks, ObjectiveMarks, lease_ok}
use city.Core.Effect.{
  Effect, task_moves, task_created, action_moves, action_created, objective_moves,
  objective_created, action_stops_task, Ledger, ledger, Logs, TaskMoves, TaskCreated, ActionMoves,
  ActionCreated, ObjectiveMoves, ObjectiveCreated,
}
use city.Core.Machine.{Reaches, begin, call, call_of, empty_db}
use city.Core.Machine.Projection.{
  Projection, Kind, projected-Kind, unborn-Kind, others-Projection, own-Projection, some_eq,
}
use city.Core.Machine.Steps.{invoke-Stepped}

-- A ledger whose log is chained, whose counters count it, and whose projections agree with it.
pub record IsConsistent (lib : Digest) (writer_id : String) (l : Ledger) : Type 0 where
  pub chained : IsChained lib l.events
  pub global_sequence : l.global_sequence ≡ length l.events
  pub writer_sequence : l.writer_sequence ≡ last_written writer_id l.events
  pub objectives :
      Projection ObjectiveMarks "objective" (λ id. find objective_key id l.objectives) l.events
  pub tasks : Projection TaskMarks "task" (λ id. find task_key id l.tasks) l.events
  pub actions : Projection ActionMarks "action" (λ id. find action_key id l.actions) l.events
  -- the columns of a lease fit the state
  pub leases : (id : String) (r : TaskRow) → find task_key id l.tasks ≡ some r → lease_ok r ≡ true

written_last : (e : Event) (l : List Event) → last_written e.writer_id (e ∷ l) ≡ e.writer_sequence
unfolding last_written
written_last e l = rw (eq_refl e.writer_id) refl

objective-task : ◌≢◌ {A = String} "objective" "task"
objective-task h = absurd (cc h)

action-task : ◌≢◌ {A = String} "action" "task"
action-task h = absurd (cc h)

objective-action : ◌≢◌ {A = String} "objective" "action"
objective-action h = absurd (cc h)

task-action : ◌≢◌ {A = String} "task" "action"
task-action h = absurd (cc h)

task-objective : ◌≢◌ {A = String} "task" "objective"
task-objective h = absurd (cc h)

action-objective : ◌≢◌ {A = String} "action" "objective"
action-objective h = absurd (cc h)

module _ {env : Env} {db : Db} {l : Ledger} {kind id : String} {version : ℕ} {event : Event}
    (fine : IsConsistent env.digest env.writer_id (ledger db))
    (logs : Logs env db l kind id version event) where
  Logs-Extends : Extends env.digest event db.events
  Logs-Extends =
      let a = logs.appended in
      let same = sym a.aggregate_id in
      record {
        position = a.database_sequence ∙ ap (λ n. n + 1) fine.global_sequence;
        payload = a.payload_hash;
        hash = a.event_hash;
        version =
            a.aggregate_version ∙ a.follows ∙ ap (λ i. prior_version (latest i db.events) + 1) same;
        sequence = a.aggregate_sequence ∙ ap (λ i. prior_sequence (latest i db.events) + 1) same;
        prior = a.prior ∙ ap (λ i. prior_hash (latest i db.events)) same;
        writer =
            a.writer_sequence
            ∙ ap (λ n. n + 1) fine.writer_sequence
            ∙ ap (λ w. last_written w db.events + 1) (sym a.writer_id);
      }

  event_id_is : event.aggregate_id ≡ id
  event_id_is = logs.appended.aggregate_id ∙ logs.id_is

  event_kind_is : event.aggregate_type ≡ kind
  event_kind_is = logs.appended.aggregate_type ∙ logs.kind_is

  logged_global : l.global_sequence ≡ length (event ∷ db.events)
  logged_global = logs.global_sequence ∙ ap (λ n. n + 1) fine.global_sequence

  logged_writer : l.writer_sequence ≡ last_written env.writer_id (event ∷ db.events)
  logged_writer =
      logs.writer_sequence
      ∙ sym logs.appended.writer_sequence
      ∙ sym (written_last event db.events)
      ∙ ap (λ w. last_written w (event ∷ db.events)) logs.appended.writer_id

  -- The first event of an aggregate finds no event of another kind.
  born-Kind : version ≡ 0 → Kind kind event.aggregate_id db.events
  born-Kind first =
      subst (λ i. Kind kind i db.events) (sym logs.appended.aggregate_id)
        (unborn-Kind env.digest kind _ db.events fine.chained
          (let a = logs.appended.follows in let v = logs.version_is in ground (arith, a, v, first)))

  -- The parts of the log fit; the projections are what is left to see.
  grown :
      Projection ObjectiveMarks "objective"
        (λ j. find objective_key j l.objectives)
        (event ∷ db.events)
      → Projection TaskMarks "task" (λ j. find task_key j l.tasks) (event ∷ db.events)
      → Projection ActionMarks "action" (λ j. find action_key j l.actions) (event ∷ db.events)
      → ((j : String) (r : TaskRow) → find task_key j l.tasks ≡ some r → lease_ok r ≡ true)
      → IsConsistent env.digest env.writer_id l
  grown objectives tasks actions leases = record {
    chained = rw logs.events (Logs-Extends, fine.chained);
    global_sequence = logged_global ∙ ap length (sym logs.events);
    writer_sequence = logged_writer ∙ ap (last_written env.writer_id) (sym logs.events);
    objectives = rw logs.events objectives;
    tasks = rw logs.events tasks;
    actions = rw logs.events actions;
    leases = leases;
  }

  owned : Kind kind id db.events → Kind kind event.aggregate_id db.events
  owned k = subst (λ j. Kind kind j db.events) (sym event_id_is) k

  -- the table of the new row, by the aggregate of the event
  by_event :
      {R : Type 0} (table after : String → Option R) (new : R)
      → ((j : String) → after j ≡ (if id =? j then some new else table j))
      → (j : String) → after j ≡ (if event.aggregate_id =? j then some new else table j)
  by_event table after new written j =
      written j ∙ ap (λ q. if q =? j then some new else table j) (sym event_id_is)

-- Every row of a table fits after one row that fits has been written.
leases_kept :
    (id : String) (new : TaskRow) (table after : String → Option TaskRow)
    → ((j : String) → after j ≡ (if id =? j then some new else table j))
    → lease_ok new ≡ true
    → ((j : String) (r : TaskRow) → table j ≡ some r → lease_ok r ≡ true)
    → (j : String) (r : TaskRow) → after j ≡ some r
    → lease_ok r ≡ true
leases_kept id new table after written ok before j r h = elim (Bool-cases (id =? j)) [
  | inl e ↦
      subst (λ x. lease_ok x ≡ true) {x = new}
        (some_eq (sym (written j ∙ ap (λ b. if b then some new else table j) e) ∙ h)) ok
  | inr e ↦ before j r (sym (written j ∙ ap (λ b. if b then some new else table j) e) ∙ h)
]

module _ {env : Env} {db : Db} {l : Ledger}
    (fine : IsConsistent env.digest env.writer_id (ledger db)) where
  TaskMoves-IsConsistent : TaskMoves env db l → IsConsistent env.digest env.writer_id l
  TaskMoves-IsConsistent m =
      let x = Logs-Extends fine m.logs in
      let k = event_kind_is fine m.logs in
      let owner = owned fine m.logs (projected-Kind (fine.tasks _ _ m.found)) in
      grown fine m.logs
        (others-Projection x k objective-task owner (λ j. ap (find objective_key j) m.objectives)
          fine.objectives)
        (own-Projection x k m.new
          (by_event fine m.logs (λ j. find task_key j db.tasks) (λ j. find task_key j l.tasks) m.new
            m.tasks)
          m.marks fine.tasks)
        (others-Projection x k action-task owner (λ j. ap (find action_key j) m.actions)
          fine.actions)
        (leases_kept m.old.task_id m.new (λ j. find task_key j db.tasks)
          (λ j. find task_key j l.tasks) m.tasks
          (m.step.lease (fine.leases m.old.task_id m.old m.found)) fine.leases)

  TaskCreated-IsConsistent : TaskCreated env db l → IsConsistent env.digest env.writer_id l
  TaskCreated-IsConsistent m =
      let x = Logs-Extends fine m.logs in
      let k = event_kind_is fine m.logs in
      let owner = born-Kind fine m.logs refl in
      grown fine m.logs
        (others-Projection x k objective-task owner (λ j. ap (find objective_key j) m.objectives)
          fine.objectives)
        (own-Projection x k m.new
          (by_event fine m.logs (λ j. find task_key j db.tasks) (λ j. find task_key j l.tasks) m.new
            m.tasks)
          m.marks fine.tasks)
        (others-Projection x k action-task owner (λ j. ap (find action_key j) m.actions)
          fine.actions)
        (leases_kept m.new.task_id m.new (λ j. find task_key j db.tasks)
          (λ j. find task_key j l.tasks) m.tasks m.lease fine.leases)

  ActionMoves-IsConsistent : ActionMoves env db l → IsConsistent env.digest env.writer_id l
  ActionMoves-IsConsistent m =
      let x = Logs-Extends fine m.logs in
      let k = event_kind_is fine m.logs in
      let owner = owned fine m.logs (projected-Kind (fine.actions _ _ m.found)) in
      grown fine m.logs
        (others-Projection x k objective-action owner (λ j. ap (find objective_key j) m.objectives)
          fine.objectives)
        (others-Projection x k task-action owner (λ j. ap (find task_key j) m.tasks) fine.tasks)
        (own-Projection x k m.new
          (by_event fine m.logs (λ j. find action_key j db.actions)
            (λ j. find action_key j l.actions) m.new m.actions)
          m.marks fine.actions)
        (λ j r h. fine.leases j r (sym (ap (find task_key j) m.tasks) ∙ h))

  ActionCreated-IsConsistent : ActionCreated env db l → IsConsistent env.digest env.writer_id l
  ActionCreated-IsConsistent m =
      let x = Logs-Extends fine m.logs in
      let k = event_kind_is fine m.logs in
      let owner = born-Kind fine m.logs refl in
      grown fine m.logs
        (others-Projection x k objective-action owner (λ j. ap (find objective_key j) m.objectives)
          fine.objectives)
        (others-Projection x k task-action owner (λ j. ap (find task_key j) m.tasks) fine.tasks)
        (own-Projection x k m.new
          (by_event fine m.logs (λ j. find action_key j db.actions)
            (λ j. find action_key j l.actions) m.new m.actions)
          m.marks fine.actions)
        (λ j r h. fine.leases j r (sym (ap (find task_key j) m.tasks) ∙ h))

  ObjectiveMoves-IsConsistent : ObjectiveMoves env db l → IsConsistent env.digest env.writer_id l
  ObjectiveMoves-IsConsistent m =
      let x = Logs-Extends fine m.logs in
      let k = event_kind_is fine m.logs in
      let owner = owned fine m.logs (projected-Kind (fine.objectives _ _ m.found)) in
      grown fine m.logs
        (own-Projection x k m.new
          (by_event fine m.logs (λ j. find objective_key j db.objectives)
            (λ j. find objective_key j l.objectives) m.new m.objectives)
          m.marks fine.objectives)
        (others-Projection x k task-objective owner (λ j. ap (find task_key j) m.tasks) fine.tasks)
        (others-Projection x k action-objective owner (λ j. ap (find action_key j) m.actions)
          fine.actions)
        (λ j r h. fine.leases j r (sym (ap (find task_key j) m.tasks) ∙ h))

  ObjectiveCreated-IsConsistent :
      ObjectiveCreated env db l → IsConsistent env.digest env.writer_id l
  ObjectiveCreated-IsConsistent m =
      let x = Logs-Extends fine m.logs in
      let k = event_kind_is fine m.logs in
      let owner = born-Kind fine m.logs refl in
      grown fine m.logs
        (own-Projection x k m.new
          (by_event fine m.logs (λ j. find objective_key j db.objectives)
            (λ j. find objective_key j l.objectives) m.new m.objectives)
          m.marks fine.objectives)
        (others-Projection x k task-objective owner (λ j. ap (find task_key j) m.tasks) fine.tasks)
        (others-Projection x k action-objective owner (λ j. ap (find action_key j) m.actions)
          fine.actions)
        (λ j r h. fine.leases j r (sym (ap (find task_key j) m.tasks) ∙ h))

pub Effect-IsConsistent :
    {env : Env} {db : Db} {l : Ledger}
    → IsConsistent env.digest env.writer_id (ledger db)
    → Effect env db l
    → IsConsistent env.digest env.writer_id l
Effect-IsConsistent fine (task_moves m) = TaskMoves-IsConsistent fine m
Effect-IsConsistent fine (task_created m) = TaskCreated-IsConsistent fine m
Effect-IsConsistent fine (action_moves m) = ActionMoves-IsConsistent fine m
Effect-IsConsistent fine (action_created m) = ActionCreated-IsConsistent fine m
Effect-IsConsistent fine (objective_moves m) = ObjectiveMoves-IsConsistent fine m
Effect-IsConsistent fine (objective_created m) = ObjectiveCreated-IsConsistent fine m
Effect-IsConsistent fine (action_stops_task d m n _ _) =
    TaskMoves-IsConsistent (ActionMoves-IsConsistent fine m) n

empty-IsConsistent : (lib : Digest) (w : String) → IsConsistent lib w (ledger empty_db)
unfolding find last_written
empty-IsConsistent lib w = record {
  chained = tt;
  global_sequence = refl;
  writer_sequence = refl;
  objectives = λ id r h. absurd (cc h);
  tasks = λ id r h. absurd (cc h);
  actions = λ id r h. absurd (cc h);
  leases = λ id r h. absurd (cc h);
}

-- Every database that calls reach from an empty one, each call with an environment of its own but
-- with the hash and the writer of the store, is consistent: its log is chained, its counters
-- count the log, every row of a projection carries the marks of the last event of its aggregate,
-- and the columns of a lease fit the state of the task.
pub Reaches-IsConsistent :
    (lib : Digest) (w : String) (db : Db) → Reaches lib w db → IsConsistent lib w (ledger db)
Reaches-IsConsistent lib w _ begin = empty-IsConsistent lib w
Reaches-IsConsistent lib w _ (call env digest_is writer_is m key db reached) =
    let fine = Reaches-IsConsistent lib w db reached in
    elim (invoke-Stepped env m key db) [
      | inl same ↦ subst (IsConsistent lib w) (sym same) fine
      | inr (k, effect) ↦
          subst (λ d. IsConsistent d w (ledger (invoke env (call_of m) key db).1)) digest_is
            (subst (λ v. IsConsistent env.digest v (ledger (invoke env (call_of m) key db).1))
              writer_is
              (Effect-IsConsistent {env = later k env}
                (subst (λ v. IsConsistent env.digest v (ledger db)) (sym writer_is)
                  (subst (λ d. IsConsistent d w (ledger db)) (sym digest_is) fine))
                effect))
    ]

-- The event loop of `verify_integrity` accepts the log of every database that calls reach.
pub reached_verifies :
    (lib : Digest) (w : String) (db : Db)
    → Reaches lib w db
    → (s : Scan) × (scan_log lib db.events ≡ some s)
reached_verifies lib w db reached =
    let (s, h, _) =
      scan_log-accepts lib db.events (Reaches-IsConsistent lib w db reached).chained in
    (s, h)
