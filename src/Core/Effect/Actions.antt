-- ===== src/Core/Effect/Actions.antt =====
-- `prepare_action`, `begin_action_dispatch` and `reconcile_action` of src/city2core/core.py.
use city.Base.{
  ℕ, ◌+◌, String, ◌≡◌, refl, sym, ap, ◌∙◌, subst, Bool, true, false, ◌⊎◌, inl, inr, Option, none,
  some, List, arith, if◌then◌else◌, Bool-cases, ◌=?◌, eq_iff,
}
use city.Model.Json.{Fields, Json, obj, truthy}
use city.Store.States.{ActionState, TaskState}
use city.Store.Rows.{Db, Event, TaskRow, ActionRow, Marker}
use city.Store.Table.{find, insert, update, find-key, find-update, find-insert, find-insert_new}
use city.Store.Tx.{Env, pure, fail}
use city.Store.Post.{Post, Views, seq, view, look, returns, weaken, weaken_view}
use city.Store.Post.Steps.{
  Any, reads_lem, guard_lem, or_raise_lem, utc_now_lem, id_or_new_lem, sha_json_lem, pure_lem,
  check_canonical_lem, field_of_lem, text_of_lem, fault_lem, insert_row_lem, write_then, write_lem,
}
use city.Store.Events.{NewEvent, logged, current_version}
use city.Store.Events.Append.{Appended, append_then, marker_of}
use city.Core.Rows.{action_key, task_key, action_version, with_actions, with_tasks}
use city.Core.Rows.Reads.{
  expect_version_lem, task_row_lem, action_row_lem, pick_lem, validate_lem, projection_updated_lem,
}
use city.Core.Lifecycle.{
  ActionStep, ActionMarks, action_may_move, TaskStep, TaskMarks, may_move, lease_ok, is_terminal,
}
use city.Core.Action.{
  action_moved, action_transition_in, escalate_task, escalated, evidence_sha, insert_action,
  begin_action_dispatch, is_prepared, may_escalate, may_reconcile, outcome_state, prepare_action_in,
  reconcile_in, compensation_part, is_unknown,
}
use city.Core.Effect.{
  Effect, action_moves, action_created, action_stops_task, ledger, Ledger, ActionMoves,
  ActionCreated, TaskMoves, StopsTask,
}
use city.Core.Effect.Moves.{update-TaskMoves, own_row}
use city.Core.Effect.Leases.{require_current_lease_lem}

-- An action whose version is expected is found in that version.
found_action_version :
    (id : String) (n : ℕ) (db : Db) (row : ActionRow)
    → action_version id db ≡ n
    → find action_key id db.actions ≡ some row
    → row.aggregate_version ≡ n
unfolding action_version current_version
found_action_version id n db row v f = ground (arith, v, f)

module _ {env : Env} {db : Db} where
  evidence_sha_lem : (v : Option Json) → Views env db (evidence_sha v) Any
  unfolding evidence_sha
  evidence_sha_lem none = weaken_view (pure_lem _) λ _ _. tt
  evidence_sha_lem (some v) = elim (Bool-cases (truthy v)) [
    | inl e ↦ rw (evidence_sha, e) (look (sha_json_lem v) λ _ _. weaken_view (pure_lem _) λ _ _. tt)
    | inr e ↦ rw (evidence_sha, e) (weaken_view (pure_lem _) λ _ _. tt)
  ]

-- Stopping a task for an unknown outcome.
escalated-TaskStep :
    (row : TaskRow) (m : Marker) (now : String)
    → may_escalate row.state ≡ true
    → TaskStep row (escalated (row.aggregate_version + 1) m now row)
unfolding escalated may_escalate may_move lease_ok
escalated-TaskStep row m now test = record {
  task_id = refl;
  version = refl;
  edge = ground arith;
  lease = λ _. ground arith;
  attempts = inl refl;
}

escalated-TaskMarks :
    (row : TaskRow) (v : ℕ) (e : Event) (now : String)
    → e.aggregate_version ≡ v
    → TaskMarks e (escalated v (marker_of e) now row)
unfolding escalated
escalated-TaskMarks row v e now h = record {
  event_id = refl;
  event_sha256 = refl;
  high_water = refl;
  version = sym h;
}

escalated-key :
    (v : ℕ) (m : Marker) (now : String) (r : TaskRow) → task_key (escalated v m now r) ≡ task_key r
unfolding escalated
escalated-key v m now r = refl

may_escalate_open : (s : TaskState) → may_escalate s ≡ true → is_terminal s ≡ false
unfolding may_escalate is_terminal
may_escalate_open s h = ground arith

escalated-StopsTask :
    (id : String) (row : TaskRow) (event : Event) (now : String) (db : Db)
    → find task_key id db.tasks ≡ some row
    → may_escalate row.state ≡ true
    → StopsTask db
        (ledger (
          with_tasks
            (update task_key row.task_id
              (escalated (row.aggregate_version + 1) (marker_of event) now)
              db.tasks)
            (logged event db)))
        id
unfolding escalated
escalated-StopsTask id row event now db found test = record {
  old = row;
  new = escalated (row.aggregate_version + 1) (marker_of event) now row;
  before = found;
  unfinished = may_escalate_open row.state test;
  after =
      find-update task_key row.task_id id
        (escalated (row.aggregate_version + 1) (marker_of event) now) db.tasks
        (escalated-key (row.aggregate_version + 1) (marker_of event) now)
      ∙ (let named = find-key task_key id db.tasks row found in
          ground (arith, eq_iff row.task_id id, found));
  state = refl;
}

module _ {env : Env} {db : Db} where
  escalate_task-TaskMoves :
      (id action_id now actor key : String)
      → Post env db
          (escalate_task id action_id now actor key)
          (λ _ db'. (db' ≡ db) ⊎ (TaskMoves env db (ledger db') × StopsTask db (ledger db') id))
  unfolding escalate_task
  escalate_task-TaskMoves id action_id now actor key = view (task_row_lem id) λ row found.
      elim (Bool-cases (may_escalate row.state)) [
        | inl c ↦ rw c (
            append_then _ _ _ λ event facts. weaken (write_lem _) λ _ db' same. inr (
              subst (λ d. TaskMoves env db (ledger d) × StopsTask db (ledger d) id) (sym same)
                (
                  update-TaskMoves row.task_id row _ event
                      (escalated (row.aggregate_version + 1) (marker_of event) now)
                      (own_row id row db found) facts refl refl refl
                      (escalated-key (row.aggregate_version + 1) (marker_of event) now)
                      (escalated-TaskStep row (marker_of event) now c)
                      (escalated-TaskMarks row (row.aggregate_version + 1) event now
                        facts.aggregate_version),
                  escalated-StopsTask id row event now db found c,
                )))
        | inr c ↦ rw c (returns _ (inl refl))
      ]

-- The step of an action, from its edge.
action_moved-ActionStep :
    (row : ActionRow) (to_state : ActionState) (v : ℕ) (m : Marker) (now : String) (d : Fields)
    (operation_id : Option Json) (evidence : Option String)
    → row.aggregate_version ≡ v
    → action_may_move row.state to_state ≡ true
    → ActionStep row (action_moved to_state (v + 1) m now d operation_id evidence row)
unfolding action_moved
action_moved-ActionStep row to_state v m now d operation_id evidence current edge = record {
  action_id = refl;
  version = ap (λ n. n + 1) (sym current);
  edge = edge;
  task_id = refl;
  run_id = refl;
  operation_key = refl;
}

action_moved-ActionMarks :
    (row : ActionRow) (to_state : ActionState) (v : ℕ) (e : Event) (now : String) (d : Fields)
    (operation_id : Option Json) (evidence : Option String)
    → e.aggregate_version ≡ v
    → ActionMarks e (action_moved to_state v (marker_of e) now d operation_id evidence row)
unfolding action_moved
action_moved-ActionMarks row to_state v e now d operation_id evidence h = record {
  event_id = refl;
  event_sha256 = refl;
  high_water = refl;
  version = sym h;
}

action_moved-key :
    (to_state : ActionState) (v : ℕ) (m : Marker) (now : String) (d : Fields)
    (operation_id : Option Json) (evidence : Option String) (r : ActionRow)
    → action_key (action_moved to_state v m now d operation_id evidence r) ≡ action_key r
unfolding action_moved
action_moved-key to_state v m now d operation_id evidence r = refl

abbrev action_updated : Event → String → (ActionRow → ActionRow) → Db → Ledger
action_updated event id f db = record (ledger (logged event db)) {
  actions = update action_key id f db.actions;
}

-- An append and an UPDATE of an action.
module _ {env : Env} {db : Db} (id : String) (row : ActionRow) (input : NewEvent) (event : Event)
    (f : ActionRow → ActionRow) where
  update-ActionMoves :
      find action_key id db.actions ≡ some row
      → Appended env input db event
      → input.aggregate_type ≡ "action"
      → input.aggregate_id ≡ id
      → input.aggregate_version ≡ row.aggregate_version + 1
      → ((r : ActionRow) → action_key (f r) ≡ action_key r)
      → ActionStep row (f row)
      → ActionMarks event (f row)
      → (m : ActionMoves env db (action_updated event id f db)) × (m.old ≡ row) × (m.new ≡ f row)
  update-ActionMoves found facts kind same version keeps step marks = (
    record {
      old = row;
      new = f row;
      event = event;
      found = subst (λ k. find action_key k db.actions ≡ some row) (sym named) found;
      step = step;
      logs = record {
        input = input;
        appended = facts;
        kind_is = kind;
        id_is = same ∙ sym named;
        version_is = version;
        events = refl;
        writer_sequence = refl;
        global_sequence = refl;
      };
      marks = marks;
      actions = λ j.
          subst
            (λ k.
              find action_key j (update action_key id f db.actions)
              ≡ (if k =? j then some (f row) else find action_key j db.actions))
            (sym named)
            (find-update action_key id j f db.actions keeps ∙ ground (arith, eq_iff id j, found));
      objectives = refl;
      tasks = refl;
    },
    refl,
    refl,
  )
    where
      named : row.action_id ≡ id
      named = find-key action_key id db.actions row found

module _ {env : Env} {db : Db} (id : String) (row : ActionRow) (to_state : ActionState) (v : ℕ)
    (event : Event) (now : String) (d : Fields) (operation_id : Option Json)
    (evidence : Option String) (input : NewEvent) where
  moves_to :
      find action_key id db.actions ≡ some row
      → Appended env input db event
      → input.aggregate_type ≡ "action"
      → input.aggregate_id ≡ id
      → input.aggregate_version ≡ v + 1
      → row.aggregate_version ≡ v
      → action_may_move row.state to_state ≡ true
      → (m : ActionMoves env db (
          action_updated event id
            (action_moved to_state (v + 1) (marker_of event) now d operation_id evidence)
            db))
        × (m.old ≡ row)
        × (m.new.state ≡ to_state)
  unfolding action_moved
  moves_to found facts kind same next version edge =
      let (m, old, new) =
        update-ActionMoves id row input event
          (action_moved to_state (v + 1) (marker_of event) now d operation_id evidence) found facts
          kind same (next ∙ ap (λ n. n + 1) (sym version))
          (action_moved-key to_state (v + 1) (marker_of event) now d operation_id evidence)
          (action_moved-ActionStep row to_state v (marker_of event) now d operation_id evidence
            version edge)
          (action_moved-ActionMarks row to_state (v + 1) event now d operation_id evidence
            (facts.aggregate_version ∙ next)) in
      (m, old, ap (λ r. r.state) new)

module _ {env : Env} {db : Db} where
  may_stop :
      (escalate : Bool) (id action_id now actor key : String)
      → Post env db
          (elim escalate [ true ↦ escalate_task id action_id now actor key | false ↦ pure tt ])
          (λ _ db'.
            (db' ≡ db)
            ⊎ ((escalate ≡ true) × TaskMoves env db (ledger db') × StopsTask db (ledger db') id))
  may_stop true id action_id now actor key =
      weaken (escalate_task-TaskMoves id action_id now actor key) λ _ db' out. stopped db' out
    where
      stopped :
          (db' : Db)
          → (db' ≡ db) ⊎ (TaskMoves env db (ledger db') × StopsTask db (ledger db') id)
          → (db' ≡ db)
            ⊎ ((true ≡ true) × TaskMoves env db (ledger db') × StopsTask db (ledger db') id)
      stopped db' (inl same) = inl same
      stopped db' (inr (moves, stops)) = inr (refl, moves, stops)
  may_stop false id action_id now actor key = returns tt (inl refl)

  after_stop :
      (d db' : Db) (escalate : Bool) (row : ActionRow) (to_state : ActionState)
      → (m : ActionMoves env db (ledger d)) × (m.old ≡ row) × (m.new.state ≡ to_state)
      → (escalate ≡ true → to_state ≡ ActionState.unknown)
      → (db' ≡ d)
        ⊎ ((escalate ≡ true) × TaskMoves env d (ledger db') × StopsTask d (ledger db') row.task_id)
      → Effect env db (ledger db')
  after_stop d db' escalate row to_state (m, _, _) unknown (inl same) =
      subst (λ x. Effect env db (ledger x)) (sym same) (action_moves m)
  after_stop d db' escalate row to_state (m, old, new) unknown (inr (escalates, moves, stops)) =
      action_stops_task d m moves (new ∙ unknown escalates)
        (subst (λ r. StopsTask d (ledger db') r.task_id) (sym old) stops)

module _ {env : Env} {db : Db} where
  action_transition-Effect :
      (id : String) (v : ℕ) (from_states : ActionState → Bool) (to_state : ActionState)
      (actor : String) (details : Fields) (boundary : String) (escalate : Bool) (key : String)
      → ((s : ActionState) → from_states s ≡ true → action_may_move s to_state ≡ true)
      → (escalate ≡ true → to_state ≡ ActionState.unknown)
      → Post env db
          (action_transition_in id v from_states to_state actor details boundary escalate key)
          (λ _ db'. Effect env db (ledger db'))
  unfolding action_transition_in
  action_transition-Effect id v from_states to_state actor details boundary escalate key legal
        unknown =
      view (expect_version_lem _ _) λ _ current. view (action_row_lem id) λ row found.
        view (guard_lem _ _) λ _ test. view utc_now_lem λ now _. view (validate_lem _ _) λ _ _.
          append_then _ _ _ λ event facts. view (evidence_sha_lem _) λ evidence _.
            view (check_canonical_lem _) λ _ _. write_then _ _ λ _.
              seq (may_stop escalate row.task_id id now actor key) λ _ db' stopped.
                view projection_updated_lem λ _ _. view (fault_lem _) λ _ _.
                  view (action_row_lem _) λ _ _.
                    let version = found_action_version id v db row current found in
                    returns _ (
                      after_stop _ db' escalate row to_state
                        (moves_to id row to_state v event now _ _ evidence _ found facts refl refl
                          refl version (legal row.state test))
                        unknown stopped)

dispatch_legal :
    (s : ActionState) → is_prepared s ≡ true → action_may_move s ActionState.dispatched ≡ true
unfolding is_prepared action_may_move
dispatch_legal s h = ground arith

reconcile_legal :
    (to_state s : ActionState) → may_reconcile to_state s ≡ true → action_may_move s to_state ≡ true
unfolding may_reconcile action_may_move
reconcile_legal to_state s h = ground arith

unknown_only : (s : ActionState) → is_unknown s ≡ true → s ≡ ActionState.unknown
unfolding is_unknown
unknown_only s h = ground arith

module _ {env : Env} {db : Db} where
  pub begin_action_dispatch-Effect :
      (id : String) (v : ℕ) (actor key : String)
      → Post env db
          ((begin_action_dispatch id v actor).operation key)
          (λ _ db'. Effect env db (ledger db'))
  unfolding begin_action_dispatch
  begin_action_dispatch-Effect id v actor key =
      action_transition-Effect id v is_prepared ActionState.dispatched actor _
        "after_dispatch_recorded" false key dispatch_legal (λ h. cc)

  pub reconcile_action-Effect :
      (id outcome : String) (v : ℕ) (actor : String) (operation_id : Option String)
      (evidence : Option Fields) (key : String)
      → Post env db
          (reconcile_in id outcome v actor operation_id evidence key)
          (λ _ db'. Effect env db (ledger db'))
  unfolding reconcile_in
  reconcile_action-Effect id outcome v actor operation_id evidence key =
      view (or_raise_lem _ (outcome_state outcome)) λ to_state _.
        action_transition-Effect id v (may_reconcile to_state) to_state actor _
          "after_action_acknowledgement" (is_unknown to_state) key (reconcile_legal to_state)
          (unknown_only to_state)

module _ {env : Env} {db : Db} where
  compensation_part_lem : (v : Option Json) → Views env db (compensation_part v) Any
  unfolding compensation_part fail
  compensation_part_lem none = weaken_view (pure_lem _) λ _ _. tt
  compensation_part_lem (some (obj d)) = look (field_of_lem _ _) λ parameters _.
      look (sha_json_lem _) λ expected _.
        look (or_raise_lem _ _)
          λ given _. look (guard_lem _ _) λ _ _. weaken_view (pure_lem _) λ _ _. tt
  compensation_part_lem (some _) = record { at = λ n a t h. absurd (cc h) }

  insert_action_lem :
      (r : ActionRow)
      → Post env db (insert_action r) (λ _ db'.
        (t : List ActionRow) × (insert action_key r db.actions ≡ some t)
        × (db' ≡ with_actions t db))
  unfolding insert_action
  insert_action_lem r =
      view (reads_lem _) λ taken _. view (guard_lem _ _) λ _ _. insert_row_lem _ _ _ _

-- An append and an INSERT of an action.
module _ {env : Env} {db : Db} (input : NewEvent) (row : ActionRow) (event : Event)
    (t : List ActionRow) where
  insert-ActionCreated :
      Appended env input db event
      → input.aggregate_type ≡ "action"
      → input.aggregate_id ≡ row.action_id
      → input.aggregate_version ≡ 1
      → insert action_key row db.actions ≡ some t
      → row.state ≡ ActionState.prepared
      → ActionMarks event row
      → ActionCreated env db (ledger (with_actions t (logged event db)))
  insert-ActionCreated facts kind same_id first there state marks = record {
    new = row;
    event = event;
    absent = find-insert_new action_key row db.actions t there;
    state = state;
    logs = record {
      input = input;
      appended = facts;
      kind_is = kind;
      id_is = same_id;
      version_is = first;
      events = refl;
      writer_sequence = refl;
      global_sequence = refl;
    };
    marks = marks;
    actions = λ k. find-insert action_key row db.actions t k there;
    objectives = refl;
    tasks = refl;
  }

module _ {env : Env} {db : Db} where
  pub prepare_action-Effect :
      (fields : Fields) (fencing_token actor key : String)
      → Post env db
          (prepare_action_in fields fencing_token actor key)
          (λ _ db'. Effect env db (ledger db'))
  unfolding prepare_action_in
  prepare_action-Effect fields fencing_token actor key = view (field_of_lem _ _) λ _ _.
      view (text_of_lem _) λ task_id _. view (field_of_lem _ _) λ _ _.
        view (text_of_lem _) λ run_id _. view (task_row_lem task_id) λ task found.
          view (require_current_lease_lem task run_id fencing_token) λ _ _.
            view (guard_lem _ _) λ _ _. view (field_of_lem _ _) λ _ _.
              view (text_of_lem _) λ operation_key _. view (reads_lem _) λ existing _.
                view (guard_lem _ _) λ _ _. view (id_or_new_lem _ _ _) λ given _.
                  view utc_now_lem λ now _. view (pick_lem _ _) λ chosen _.
                    view (field_of_lem _ _) λ parameters _. view (sha_json_lem _) λ sha _.
                      view (compensation_part_lem _) λ compensation _.
                        view (validate_lem _ _) λ _ _. view (text_of_lem _) λ id _.
                          append_then _ _ _ λ event facts. view (check_canonical_lem _) λ _ _.
                            seq (insert_action_lem _) λ _ d (t, there, same).
                              view projection_updated_lem λ _ _. returns _ (
                                action_created (
                                  subst (λ x. ActionCreated env db (ledger x)) (sym same)
                                    (insert-ActionCreated _ _ event t facts refl refl refl there
                                      refl
                                      (record {
                                        event_id = refl;
                                        event_sha256 = refl;
                                        high_water = refl;
                                        version = sym facts.aggregate_version;
                                      }))))
