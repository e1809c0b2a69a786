-- ===== src/Core/Guards.antt =====
-- What must have held before a method of src/city2core/core.py that returns: the lease of the
-- caller, and the actions whose outcome is not known.
use city.Base.{
  ℕ, ◌==◌, String, ◌=?◌, ◌≡◌, refl, sym, ap, ◌∙◌, subst, Bool, true, false, ◌||◌, Option, some,
  arith,
}
use city.Model.Json.{Json, Fields, get, str}
use city.Store.States.{TaskState}
use city.Store.Rows.{Db, TaskRow, RunRow}
use city.Store.Table.{find}
use city.Store.Tx.{Env}
use city.Store.Post.{Post, view, weaken, held}
use city.Store.Post.Steps.{reads_lem, guard_lem, time_of_lem, field_of_lem, text_of_lem, nat_of_lem}
use city.Core.Rows.{task_key, run_key, task_version}
use city.Core.Rows.Reads.{expect_version_lem, task_row_lem, run_row_lem}
use city.Core.Transition.{drop_lease}
use city.Core.Revise.{
  is_uncertain, is_unresolved, task_actions, resume_in, is_reconciling, is_cancelling,
}
use city.Core.Lease.{holds, start_run_in, is_leased, expire_lease_in, after_expiry}
use city.Core.Submit.{submit_result_in, same_text, is_running}
use city.Core.Action.{prepare_action_in}
use city.Core.Effect.Leases.{Current, require_current_lease_lem, given_now_lem, expiry_legal}
use city.Core.Effect.Transitions.{InState, transition_lands, held_legal, lease_dropped}
use city.Core.Effect.Results.{result_version_lem}

-- The task is found, in the state that a test names, and the caller has its run and its fence.
pub record Fenced (db : Db) (env : Env) (test : TaskState → Bool) (id run_id token : String)
    : Type 0 where
  pub row : TaskRow
  pub found : find task_key id db.tasks ≡ some row
  pub state : test row.state ≡ true
  pub current : Current env row run_id token

-- What a result refers to: the task with its run, and the fencing token that was granted.
pub record Submits (db : Db) (result : Fields) (task run_name : String) : Type 0 where
  pub row : TaskRow
  pub run : RunRow
  pub granted : Json
  pub fence : Json
  pub task_id : get "task_id" result ≡ some (str task)
  pub run_id : get "run_id" result ≡ some (str run_name)
  pub found : find task_key task db.tasks ≡ some row
  pub run_found : find run_key run_name db.runs ≡ some run
  pub granted_is : get "lease_fencing_token" run.task_envelope_json ≡ some granted
  pub fence_is : get "lease_fencing_token" result ≡ some fence
  pub of_task : (run.task_id =? task) ≡ true
  pub same_fence : same_text granted fence ≡ true
  pub owner : holds row.current_run_id run_name ≡ true
  pub state : (is_running row.state || is_cancelling row.state) ≡ true

uncertain_stops :
    (n : ℕ) (safe : Bool) (row : TaskRow)
    → (n == 0) ≡ false
    → after_expiry n safe row ≡ TaskState.needs_reconciliation
unfolding after_expiry
uncertain_stops n safe row h = ground arith

reconciling_lem : (s : TaskState) → is_reconciling s ≡ true → s ≡ TaskState.needs_reconciliation
unfolding is_reconciling
reconciling_lem s h = ground arith

module _ {env : Env} {db : Db} where
  -- `start_run` returns only to the holder of the task's run and fencing token, for the version of
  -- the task that the caller names, and only while the task is leased.
  pub start_run-Fenced :
      (id run_id token : String) (v : ℕ) (actor key : String)
      → Post env db
          (start_run_in id run_id token v actor key)
          (λ _ _. Fenced db env is_leased id run_id token × (task_version id db ≡ v))
  unfolding start_run_in
  start_run-Fenced id run_id token v actor key = view (expect_version_lem _ _) λ _ current.
      view (task_row_lem id) λ row found.
        view (require_current_lease_lem row run_id token) λ _ lease. view (guard_lem _ _) λ _ test.
          held (record { row = row; found = found; state = test; current = lease }, current)

  -- An `expire_lease` that returns, on a task with an action that may have been carried out, leaves
  -- the task in "needs_reconciliation", whatever the caller says of a replay.
  pub expire_lease_uncertain :
      (id : String) (v : ℕ) (safe : Bool) (given : Option String) (actor key : String)
      → (task_actions is_uncertain id db == 0) ≡ false
      → Post env db
          (expire_lease_in id v safe given actor key)
          (λ _ db'. InState id TaskState.needs_reconciliation db')
  unfolding expire_lease_in
  expire_lease_uncertain id v safe given actor key some_open =
      view (expect_version_lem _ _) λ _ current. view (task_row_lem id) λ row found.
        view (guard_lem _ _) λ _ test. view (time_of_lem _) λ expires _.
          view (given_now_lem given) λ now _. view (time_of_lem _) λ time _.
            view (guard_lem _ _) λ _ _. view (reads_lem _) λ uncertain counted.
              let l = held_legal row.state test in
              let f = expiry_legal row.state uncertain safe row (l.1, l.2, l.3) in
              weaken
                (transition_lands id row v current found (after_expiry uncertain safe row)
                  drop_lease f.0 (λ m now _. lease_dropped row _ _ m now drop_lease f.1 refl) _ _ _
                  _)
                (λ _ db' there.
                  subst (λ to. InState id to db')
                    (uncertain_stops uncertain safe row (ap (λ n. n == 0) counted ∙ some_open))
                    there)

  -- `prepare_action` returns only to the holder of the run and the fencing token of a task that is
  -- running.
  pub prepare_action-Fenced :
      (fields : Fields) (token actor key : String)
      → Post env db (prepare_action_in fields token actor key) (λ _ _.
        (id : String) × (run_id : String) × (get "task_id" fields ≡ some (str id))
        × (get "run_id" fields ≡ some (str run_id))
        × Fenced db env is_running id run_id token)
  unfolding prepare_action_in
  prepare_action-Fenced fields token actor key = view (field_of_lem _ _) λ j j_is.
      view (text_of_lem _) λ id id_is. view (field_of_lem _ _) λ r r_is.
        view (text_of_lem _) λ run_id run_is. view (task_row_lem id) λ row found.
          view (require_current_lease_lem row run_id token) λ _ lease.
            view (guard_lem _ _) λ _ test. held (
              id,
              run_id,
              j_is ∙ ap some id_is,
              r_is ∙ ap some run_is,
              record { row = row; found = found; state = test; current = lease },
            )

  -- `resume_after_reconciliation` returns only for a task that needs reconciliation and none of
  -- whose actions is prepared, dispatched or unknown.
  pub resume_resolved :
      (id : String) (v : ℕ) (actor key : String)
      → Post env db (resume_in id v actor key) (λ _ _.
        InState id TaskState.needs_reconciliation db
        × ((task_actions is_unresolved id db == 0) ≡ true)
        × (task_version id db ≡ v))
  unfolding resume_in
  resume_resolved id v actor key = view (expect_version_lem _ _) λ _ current.
      view (task_row_lem id) λ row found. view (guard_lem _ _) λ _ test.
        view (reads_lem _) λ n counted. view (guard_lem _ _) λ _ zero. held (
          (row, found, reconciling_lem row.state test),
          ap (λ k. k == 0) (sym counted) ∙ zero,
          current,
        )

  -- `submit_result` returns only for the run that the task has, under the fencing token of that
  -- run's envelope, and only while the task is running or its cancellation is requested.
  pub submit_result-Submits :
      (result : Fields) (actor key : String)
      → Post env db
          (submit_result_in result actor key)
          (λ _ _. (id : String) × (run_id : String) × Submits db result id run_id)
  unfolding submit_result_in
  submit_result-Submits result actor key = view (field_of_lem _ _) λ j1 j1_is.
      view (text_of_lem _) λ id id_is. view (field_of_lem _ _) λ j2 _. view (nat_of_lem _) λ v _.
        view (field_of_lem _ _) λ j3 j3_is. view (text_of_lem _) λ run_id run_is.
          view (task_row_lem id) λ row found. view (result_version_lem row id v found) λ _ _.
            view (run_row_lem run_id) λ run run_found. view (guard_lem _ _) λ _ of_task.
              view (field_of_lem _ _) λ granted granted_is.
                view (field_of_lem _ _) λ fence fence_is. view (guard_lem _ _) λ _ same.
                  view (guard_lem _ _) λ _ owner. view (guard_lem _ _) λ _ test. held (
                    id,
                    run_id,
                    record {
                      row = row;
                      run = run;
                      granted = granted;
                      fence = fence;
                      task_id = j1_is ∙ ap some id_is;
                      run_id = j3_is ∙ ap some run_is;
                      found = found;
                      run_found = run_found;
                      granted_is = granted_is;
                      fence_is = fence_is;
                      of_task = of_task;
                      same_fence = same;
                      owner = owner;
                      state = test;
                    },
                  )
