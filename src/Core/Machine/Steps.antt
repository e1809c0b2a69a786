-- ===== src/Core/Machine/Steps.antt =====
-- What one call of a method of src/city2core/core.py makes of the log and the projections.
use city.Base.{ℕ, String, ◌≡◌, refl, sym, ap, subst, ◌⊎◌, inl, inr, Bool}
use city.Model.Json.{Fields, obj}
use city.Store.Rows.{Db}
use city.Store.Tx.{Env, State, Result, ok, err}
use city.Store.Post.{Post}
use city.Store.Command.Left.{Left, command-Left}
use city.Core.Call.{invoke, checked, answer, later}
use city.Core.Effect.{Effect, ledger}
use city.Core.Effect.Transitions.{
  set_task_ready-Effect, request_task_approval-Effect, review_task-Effect, resume-Effect,
  request_cancellation-Effect, confirm_cancellation-Effect,
}
use city.Core.Effect.Leases.{lease_task-Effect, start_run-Effect, expire_lease-Effect}
use city.Core.Effect.Results.{submit_result-Effect, revise_task-Effect, create_task-Effect}
use city.Core.Effect.Actions.{
  prepare_action-Effect, begin_action_dispatch-Effect, reconcile_action-Effect,
}
use city.Core.Effect.Objectives.{
  create_objective-Effect, set_objective_status-Effect, revise_objective-Effect,
}
use city.Core.Machine.{Method, call_of}

module _ {env : Env} {db : Db} where
  -- What a method does inside its transaction, if it returns, is one `Effect`.
  pub operation-Effect :
      (m : Method) (key : String)
      → Post env db ((call_of m).operation key) (λ _ db'. Effect env db (ledger db'))
  unfolding call_of city.Core.Objective.create_objective city.Core.Objective.set_objective_status
      city.Core.Objective.revise_objective city.Core.Task.create_task city.Core.Task.set_task_ready
      city.Core.Task.request_task_approval city.Core.Task.review_task city.Core.Revise.revise_task
      city.Core.Revise.resume_after_reconciliation city.Core.Lease.lease_task
      city.Core.Lease.start_run city.Core.Submit.submit_result city.Core.Revise.request_cancellation
      city.Core.Revise.confirm_cancellation city.Core.Lease.expire_lease
      city.Core.Action.prepare_action city.Core.Action.reconcile_action
      city.Core.Transition.simple_task_transition
  operation-Effect (Method.create_objective a b) key = create_objective-Effect a b key
  operation-Effect (Method.set_objective_status a b c d) key =
      set_objective_status-Effect a b c d key
  operation-Effect (Method.revise_objective a b c d) key = revise_objective-Effect a b c d key
  operation-Effect (Method.create_task a b) key = create_task-Effect a b key
  operation-Effect (Method.set_task_ready a b c) key = set_task_ready-Effect a b c key
  operation-Effect (Method.request_task_approval a b c) key = request_task_approval-Effect a b c key
  operation-Effect (Method.review_task a b c d e f g) key = review_task-Effect a b c d e _ g key
  operation-Effect (Method.revise_task a b c d e f) key = revise_task-Effect a b c d e f key
  operation-Effect (Method.resume_after_reconciliation a b c) key = resume-Effect a b c key
  operation-Effect (Method.lease_task a b c d) key = lease_task-Effect a b c d key
  operation-Effect (Method.start_run a b c d e) key = start_run-Effect a b c d e key
  operation-Effect (Method.submit_result a b) key = submit_result-Effect a b key
  operation-Effect (Method.request_cancellation a b c) key = request_cancellation-Effect a b c key
  operation-Effect (Method.confirm_cancellation a b c) key = confirm_cancellation-Effect a b c key
  operation-Effect (Method.expire_lease a b c d e) key = expire_lease-Effect a b c d e key
  operation-Effect (Method.prepare_action a b c) key = prepare_action-Effect a b c key
  operation-Effect (Method.begin_action_dispatch a b c) key = begin_action_dispatch-Effect a b c key
  operation-Effect (Method.reconcile_action a b c d e f) key =
      reconcile_action-Effect a b c d e f key

-- The ledger after a call is the old one, or that of one `Effect`.
abbrev pub Stepped : Env → Db → Db → Type 0
Stepped env db db' = (ledger db' ≡ ledger db) ⊎ ((k : ℕ) × Effect (later k env) db (ledger db'))

module _ (env : Env) (m : Method) (key : String) (db : Db) where
  checked-Stepped :
      (r : Result (Fields × State)) → Stepped env db (checked env (call_of m) key db r).1
  checked-Stepped (err e) = inl refl
  checked-Stepped (ok (d, s)) = subst (Stepped env db) (sym (answered _)) (
      left s.calls _ (
        command-Left (later s.calls env) key (call_of m).operation db
          (λ d. Effect (later s.calls env) db (ledger d)) (operation-Effect m key) (obj d)))
    where
      answered : (r : Result (Fields × Bool) × Db) → (answer r).1 ≡ r.1
      answered (ok (_, _), d) = refl
      answered (err _, d) = refl

      left :
          (k : ℕ) (db' : Db)
          → Left db (λ d. Effect (later k env) db (ledger d)) db'
          → Stepped env db db'
      left k db' (inl same) = inl (ap ledger same)
      left k db' (inr (d, t, effect, same)) =
          inr (k, subst (λ x. Effect (later k env) db (ledger x)) (sym same) effect)

  -- A call leaves the log, its counters and the projections alone, or it has one `Effect`, in an
  -- environment whose clock and random source have been read before: one aggregate is created or
  -- moves with one event, or an action moves to "unknown" and then its own task, which was not in a
  -- terminal state, moves to "needs_reconciliation".
  pub invoke-Stepped : Stepped env db (invoke env (call_of m) key db).1
  unfolding invoke
  invoke-Stepped = checked-Stepped _
