-- ===== src/Core/Effect/Leases.antt =====
-- Leases in src/city2core/core.py: `lease_task`, `start_run` and `expire_lease`.
use city.Base.{
  ℕ, ◌+◌, leb, String, ◌≡◌, refl, sym, Bool, true, false, inl, inr, Option, none, some, arith,
  Bool-cases, ◌=?◌,
}
use city.Store.States.{TaskState}
use city.Store.Rows.{Db, Event, TaskRow, Marker}
use city.Store.Tx.{Env}
use city.Store.Post.{Post, Views, look, view, returns, weaken_view}
use city.Store.Post.Steps.{
  Any, reads_lem, guard_lem, time_of_lem, utc_now_lem, new_id_lem, token_urlsafe_lem, sha_json_lem,
  sha_profile_lem, check_canonical_lem, fault_lem, pure_lem, insert_then, write_then,
}
use city.Store.Events.Append.{append_then, marker_of}
use city.Core.Rows.{task_key}
use city.Core.Rows.Reads.{
  expect_version_lem, task_row_lem, task_revision_lem, pick_lem, validate_lem, task_lem,
  projection_updated_lem,
}
use city.Core.Lifecycle.{TaskStep, TaskMarks, may_move, is_held, lease_ok}
use city.Core.Transition.{keep_lease, drop_lease, moved}
use city.Core.Lease.{
  LeaseRequest, holds, require_current_lease, may_lease, leased_row, lease_task_in, is_leased,
  start_run_in, given_now, after_expiry, expire_lease_in,
}
use city.Core.Effect.{Effect, task_moves, ledger}
use city.Core.Effect.Moves.{found_version, update-TaskMoves}
use city.Core.Effect.Transitions.{transition, held_legal, lease_dropped}

-- A lease that is current: the run and the fencing token are those of the row.
pub record Current (env : Env) (row : TaskRow) (run_id fencing_token : String) : Type 0 where
  pub run : holds row.current_run_id run_id ≡ true
  pub fence : holds row.lease_fencing_token fencing_token ≡ true

leased_row-TaskStep :
    (row : TaskRow) (v : ℕ) (m : Marker) (now sha run_id fence : String) (r : LeaseRequest)
    → row.aggregate_version ≡ v
    → may_lease row.state ≡ true
    → leb (row.attempt_count + 1) row.max_attempts ≡ true
    → TaskStep row (leased_row (v + 1) m now (row.attempt_count + 1) sha run_id fence r row)
unfolding leased_row may_lease may_move lease_ok
leased_row-TaskStep row v m now sha run_id fence r current test room = record {
  task_id = refl;
  version = ground arith;
  edge = ground arith;
  lease = λ _. refl;
  attempts = inr (refl, refl, ground arith);
}

leased_row-TaskMarks :
    (row : TaskRow) (v a : ℕ) (e : Event) (now sha run_id fence : String) (r : LeaseRequest)
    → e.aggregate_version ≡ v
    → TaskMarks e (leased_row v (marker_of e) now a sha run_id fence r row)
unfolding leased_row
leased_row-TaskMarks row v a e now sha run_id fence r h = record {
  event_id = refl;
  event_sha256 = refl;
  high_water = refl;
  version = sym h;
}

leased_row-key :
    (v a : ℕ) (m : Marker) (now sha run_id fence : String) (r : LeaseRequest) (t : TaskRow)
    → task_key (leased_row v m now a sha run_id fence r t) ≡ task_key t
unfolding leased_row
leased_row-key v a m now sha run_id fence r t = refl

start_legal :
    (s : TaskState)
    → is_leased s ≡ true
    → (may_move s TaskState.running ≡ true) × (is_held s ≡ true)
unfolding is_leased may_move is_held
start_legal s h = ground arith

-- A start keeps the lease.
lease_kept :
    (row : TaskRow) (v : ℕ) (m : Marker) (now : String)
    → is_held row.state ≡ true
    → lease_ok row ≡ true
    → lease_ok (moved TaskState.running v m now keep_lease row) ≡ true
unfolding moved lease_ok
lease_kept row v m now held fine = ground arith

pub expiry_legal :
    (s : TaskState) (n : ℕ) (safe : Bool) (row : TaskRow)
    → (may_move s TaskState.needs_reconciliation ≡ true)
      × (may_move s TaskState.failed_terminal ≡ true)
      × (may_move s TaskState.ready ≡ true)
    → (may_move s (after_expiry n safe row) ≡ true) × (is_held (after_expiry n safe row) ≡ false)
unfolding after_expiry is_held
expiry_legal s n safe row l = ground arith

module _ {env : Env} {db : Db} where
  pub require_current_lease_lem :
      (row : TaskRow) (run_id token : String)
      → Views env db (require_current_lease row run_id token) (λ _. Current env row run_id token)
  unfolding require_current_lease
  require_current_lease_lem row run_id token = look (guard_lem _ _) λ _ same.
      look (time_of_lem _) λ expires _. look utc_now_lem λ now _. look (time_of_lem _) λ current _.
        weaken_view (guard_lem _ _) λ _ _. record { run = ground arith; fence = ground arith }

  pub lease_task-Effect :
      (id : String) (v : ℕ) (request : LeaseRequest) (actor key : String)
      → Post env db (lease_task_in id v request actor key) (λ _ db'. Effect env db (ledger db'))
  unfolding lease_task_in
  lease_task-Effect id v request actor key = view (expect_version_lem _ _) λ _ current.
      view (task_row_lem id) λ row found. view (guard_lem _ _) λ _ test.
        view (guard_lem _ _) λ _ room. view (new_id_lem _) λ run_id _.
          view token_urlsafe_lem λ fence _. view (task_revision_lem _ _) λ revision _.
            view (pick_lem _ _) λ chosen _. view (sha_profile_lem _ _) λ sha _.
              view (validate_lem _ _) λ _ _. view utc_now_lem λ now _.
                view (sha_json_lem _) λ fence_sha _. append_then _ _ _ λ event facts.
                  view (check_canonical_lem _) λ _ _. insert_then _ _ _ _ _ λ runs _.
                    write_then _ _ λ _. view projection_updated_lem λ _ _. view (fault_lem _) λ _ _.
                      view (task_lem _) λ leased _. returns _ (
                        let version = found_version id v db row current found in
                        task_moves (
                          update-TaskMoves id row _ event
                            (leased_row (v + 1) (marker_of event) now (row.attempt_count + 1) sha
                              run_id fence request)
                            found facts refl refl (ground arith)
                            (leased_row-key (v + 1) (row.attempt_count + 1) (marker_of event) now
                              sha run_id fence request)
                            (leased_row-TaskStep row v (marker_of event) now sha run_id fence
                              request version test room)
                            (leased_row-TaskMarks row (v + 1) (row.attempt_count + 1) event now sha
                              run_id fence request facts.aggregate_version)))

  pub start_run-Effect :
      (id run_id token : String) (v : ℕ) (actor key : String)
      → Post env db (start_run_in id run_id token v actor key) (λ _ db'. Effect env db (ledger db'))
  unfolding start_run_in
  start_run-Effect id run_id token v actor key = view (expect_version_lem _ _) λ _ current.
      view (task_row_lem id) λ row found. view (require_current_lease_lem row run_id token) λ _ _.
        view (guard_lem _ _) λ _ test.
          let l = start_legal row.state test in
          transition id row v current found TaskState.running keep_lease l.0
            (λ m now. lease_kept row _ m now l.1) _ _ _ _

  pub given_now_lem : (given : Option String) → Views env db (given_now given) Any
  unfolding given_now
  given_now_lem none = utc_now_lem
  given_now_lem (some t) = elim (Bool-cases (t =? "")) [
    | inl e ↦ rw e utc_now_lem
    | inr e ↦ rw e (weaken_view (pure_lem t) λ _ _. tt)
  ]

  pub expire_lease-Effect :
      (id : String) (v : ℕ) (safe : Bool) (given : Option String) (actor key : String)
      → Post env db
          (expire_lease_in id v safe given actor key)
          (λ _ db'. Effect env db (ledger db'))
  unfolding expire_lease_in
  expire_lease-Effect id v safe given actor key = view (expect_version_lem _ _) λ _ current.
      view (task_row_lem id) λ row found. view (guard_lem _ _) λ _ test.
        view (time_of_lem _) λ expires _. view (given_now_lem given) λ now _.
          view (time_of_lem _) λ time _. view (guard_lem _ _) λ _ _.
            view (reads_lem _) λ uncertain _.
              let held = held_legal row.state test in
              let l = expiry_legal row.state uncertain safe row (held.1, held.2, held.3) in
              transition id row v current found (after_expiry uncertain safe row) drop_lease l.0
                (λ m now _. lease_dropped row _ _ m now drop_lease l.1 refl) _ _ _ _
