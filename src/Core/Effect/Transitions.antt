-- ===== src/Core/Effect/Transitions.antt =====
-- The methods of src/city2core/core.py that end in `_transition_in_tx`.
use city.Base.{
  ℕ, ◌+◌, String, ◌≡◌, refl, sym, subst, Bool, true, false, ◌||◌, inl, inr, Option, some, List,
  arith, Bool-cases, if◌then◌else◌, ap, ◌∙◌, eq_refl, ◌=?◌,
}
use city.Model.Json.{Fields}
use city.Store.States.{TaskState, RunStatus}
use city.Store.Rows.{Db, TaskRow, RunRow, Marker}
use city.Store.Table.{find, find-key}
use city.Store.Tx.{Env}
use city.Store.Post.{Post, view, weaken}
use city.Store.Post.Steps.{reads_lem, guard_lem, or_raise_lem}
use city.Core.Rows.{task_key, task_version}
use city.Core.Rows.Reads.{expect_version_lem, task_row_lem, task_revision_lem}
use city.Core.Lifecycle.{TaskStep, may_move, is_held, lease_ok}
use city.Core.Transition.{
  Clearing, keep_lease, drop_lease, drop_fence, moved, transition_in_tx, simple_task_transition_in,
}
use city.Core.Task.{may_be_ready, is_proposed, is_review, review_state, review_task_in}
use city.Core.Revise.{
  after_reconciliation, is_reconciling, resume_in, may_cancel, has_lease, fence_in,
  request_cancellation_in, is_cancelling, confirm_cancellation_in,
}
use city.Core.Effect.{Effect, task_moves, ledger, TaskMoves}
use city.Core.Effect.Moves.{found_version, transition_in_tx-TaskMoves}

-- The task is there, in that state.
abbrev pub InState : String → TaskState → Db → Type 0
InState id state db = (r : TaskRow) × (find task_key id db.tasks ≡ some r) × (r.state ≡ state)

-- The step that `_transition_in_tx` makes, from its edge and what becomes of the lease.
moved-TaskStep :
    (row : TaskRow) (to_state : TaskState) (v : ℕ) (m : Marker) (now : String) (c : Clearing)
    → row.aggregate_version ≡ v
    → may_move row.state to_state ≡ true
    → (lease_ok row ≡ true → lease_ok (moved to_state (v + 1) m now c row) ≡ true)
    → TaskStep row (moved to_state (v + 1) m now c row)
unfolding moved
moved-TaskStep row to_state v m now c current edge lease = record {
  task_id = ground arith;
  version = ground arith;
  edge = ground arith;
  lease = lease;
  attempts = inl (ground arith);
}

-- No lease is left by a transition that drops it, to a state that needs none.
pub lease_dropped :
    (row : TaskRow) (to_state : TaskState) (v : ℕ) (m : Marker) (now : String) (c : Clearing)
    → is_held to_state ≡ false
    → (c.clear_lease || c.clear_fence) ≡ true
    → lease_ok (moved to_state v m now c row) ≡ true
unfolding moved lease_ok
lease_dropped row to_state v m now c free drops = ground arith

-- Between states that need no lease none appears.
lease_free :
    (row : TaskRow) (to_state : TaskState) (v : ℕ) (m : Marker) (now : String) (c : Clearing)
    → is_held row.state ≡ false
    → is_held to_state ≡ false
    → lease_ok row ≡ true
    → lease_ok (moved to_state v m now c row) ≡ true
unfolding moved lease_ok
lease_free row to_state v m now c was free fine = ground arith

review_legal :
    (decision : String) (s to_state : TaskState)
    → review_state decision ≡ some to_state
    → is_review s ≡ true
    → (may_move s to_state ≡ true) × (is_held s ≡ false) × (is_held to_state ≡ false)
unfolding review_state is_review may_move is_held
review_legal decision s to_state h g = ground arith

resume_legal :
    (s : TaskState) (run : Option RunRow)
    → is_reconciling s ≡ true
    → (may_move s (after_reconciliation run) ≡ true)
      × (is_held s ≡ false)
      × (is_held (after_reconciliation run) ≡ false)
unfolding is_reconciling after_reconciliation may_move is_held
resume_legal s run h = ground arith

cancel_legal :
    (s : TaskState)
    → may_cancel s ≡ true
    → (may_move s TaskState.cancelled ≡ true) × (is_held s ≡ false)
unfolding may_cancel may_move is_held
cancel_legal s h = ground arith

pub held_legal :
    (s : TaskState)
    → has_lease s ≡ true
    → (may_move s TaskState.cancellation_requested ≡ true)
      × (may_move s TaskState.needs_reconciliation ≡ true)
      × (may_move s TaskState.failed_terminal ≡ true)
      × (may_move s TaskState.ready ≡ true)
unfolding has_lease may_move
held_legal s h = ground arith

cancelling_legal : (s : TaskState) → is_cancelling s ≡ true → may_move s TaskState.cancelled ≡ true
unfolding is_cancelling may_move
cancelling_legal s h = ground arith

module _ {env : Env} {db : Db} where
  -- A transition of the row that is found in the expected version.
  pub transition_moves :
      (id : String) (row : TaskRow) (v : ℕ)
      → task_version id db ≡ v
      → find task_key id db.tasks ≡ some row
      → (to_state : TaskState) (c : Clearing) → may_move row.state to_state ≡ true
      → ((m : Marker) (now : String)
          → lease_ok row ≡ true
          → lease_ok (moved to_state (v + 1) m now c row) ≡ true)
      → (key actor : String) (details : Fields) (run_status : Option RunStatus)
      → Post env db (transition_in_tx key row to_state v actor details run_status c) (λ _ db'.
        (moves : TaskMoves env db (ledger db')) × (moves.old ≡ row) × (moves.new.state ≡ to_state))
  transition_moves id row v current found to_state c edge lease key actor details run_status =
      (transition_in_tx-TaskMoves key row to_state v actor details run_status c
        (subst (λ k. find task_key k db.tasks ≡ some row)
          (sym (find-key task_key id db.tasks row found)) found)
        version (λ m now. moved-TaskStep row to_state v m now c version edge (lease m now)))
    where
      version : row.aggregate_version ≡ v
      version = found_version id v db row current found

  pub transition :
      (id : String) (row : TaskRow) (v : ℕ)
      → task_version id db ≡ v
      → find task_key id db.tasks ≡ some row
      → (to_state : TaskState) (c : Clearing) → may_move row.state to_state ≡ true
      → ((m : Marker) (now : String)
          → lease_ok row ≡ true
          → lease_ok (moved to_state (v + 1) m now c row) ≡ true)
      → (key actor : String) (details : Fields) (run_status : Option RunStatus)
      → Post env db
          (transition_in_tx key row to_state v actor details run_status c)
          (λ _ db'. Effect env db (ledger db'))
  transition id row v current found to_state c edge lease key actor details run_status =
      weaken
        (transition_moves id row v current found to_state c edge lease key actor details run_status)
        (λ _ db' moves. task_moves moves.0)

  -- The task is found in the state that the transition names.
  pub transition_lands :
      (id : String) (row : TaskRow) (v : ℕ)
      → task_version id db ≡ v
      → find task_key id db.tasks ≡ some row
      → (to_state : TaskState) (c : Clearing) → may_move row.state to_state ≡ true
      → ((m : Marker) (now : String)
          → lease_ok row ≡ true
          → lease_ok (moved to_state (v + 1) m now c row) ≡ true)
      → (key actor : String) (details : Fields) (run_status : Option RunStatus)
      → Post env db
          (transition_in_tx key row to_state v actor details run_status c)
          (λ _ db'. InState id to_state db')
  transition_lands id row v current found to_state c edge lease key actor details run_status =
      weaken
        (transition_moves id row v current found to_state c edge lease key actor details run_status)
        (λ _ db' (moves, same, state).
          let named = ap (λ r. r.task_id) same ∙ find-key task_key id db.tasks row found in
          (
            moves.new,
            moves.tasks id
                ∙ ap (λ k. if k =? id then some moves.new else find task_key id db.tasks) named
                ∙ ap (λ b. if b then some moves.new else find task_key id db.tasks) (eq_refl id),
            state,
          ))

  simple_task_transition-Effect :
      (id : String) (to_state : TaskState) (allowed : TaskState → Bool) (v : ℕ) (actor key : String)
      → is_held to_state ≡ false
      → ((s : TaskState) → allowed s ≡ true → (may_move s to_state ≡ true) × (is_held s ≡ false))
      → Post env db
          (simple_task_transition_in id to_state allowed v actor key)
          (λ _ db'. Effect env db (ledger db'))
  unfolding simple_task_transition_in
  simple_task_transition-Effect id to_state allowed v actor key free legal =
      view (expect_version_lem _ _) λ _ current. view (task_row_lem id) λ row found.
        view (guard_lem _ _) λ _ test.
          let l = legal row.state test in
          transition id row v current found to_state keep_lease l.0
            (λ m now. lease_free row to_state _ m now keep_lease l.1 free) _ _ _ _

  pub set_task_ready-Effect :
      (id : String) (v : ℕ) (actor key : String)
      → Post env db
          (simple_task_transition_in id TaskState.ready may_be_ready v actor key)
          (λ _ db'. Effect env db (ledger db'))
  unfolding may_be_ready may_move is_held
  set_task_ready-Effect id v actor key =
      simple_task_transition-Effect id TaskState.ready may_be_ready v actor key refl
        (λ s h. ground arith)

  pub request_task_approval-Effect :
      (id : String) (v : ℕ) (actor key : String)
      → Post env db
          (simple_task_transition_in id TaskState.awaiting_approval is_proposed v actor key)
          (λ _ db'. Effect env db (ledger db'))
  unfolding is_proposed may_move is_held
  request_task_approval-Effect id v actor key =
      simple_task_transition-Effect id TaskState.awaiting_approval is_proposed v actor key refl
        (λ s h. ground arith)

  pub review_task-Effect :
      (id decision : String) (v : ℕ) (review_id : String) (findings : List String)
      (dispositions : Fields) (actor key : String)
      → Post env db
          (review_task_in id decision v review_id findings dispositions actor key)
          (λ _ db'. Effect env db (ledger db'))
  unfolding review_task_in
  review_task-Effect id decision v review_id findings dispositions actor key =
      view (or_raise_lem _ _) λ to_state chosen. view (expect_version_lem _ _) λ _ current.
        view (task_row_lem id) λ row found. view (guard_lem _ _) λ _ test.
          view (task_revision_lem _ _) λ revision _. view (or_raise_lem _ _) λ open_ids _.
            view (guard_lem _ _) λ _ _.
              let l = review_legal decision row.state to_state chosen test in
              transition id row v current found to_state keep_lease l.0
                (λ m now. lease_free row to_state _ m now keep_lease l.1 l.2) _ _ _ _

  pub resume-Effect :
      (id : String) (v : ℕ) (actor key : String)
      → Post env db (resume_in id v actor key) (λ _ db'. Effect env db (ledger db'))
  unfolding resume_in
  resume-Effect id v actor key = view (expect_version_lem _ _) λ _ current.
      view (task_row_lem id) λ row found. view (guard_lem _ _) λ _ test.
        view (reads_lem _) λ uncertain _. view (guard_lem _ _) λ _ _. view (reads_lem _) λ run _.
          let l = resume_legal row.state run test in
          transition id row v current found (after_reconciliation run) _ l.0
            (λ m now. lease_free row _ _ m now _ l.1 l.2) _ _ _ _

  fence-Effect :
      (id : String) (row : TaskRow) (v : ℕ) (actor key : String)
      → task_version id db ≡ v
      → find task_key id db.tasks ≡ some row
      → Post env db (fence_in row v actor key) (λ _ db'. Effect env db (ledger db'))
  unfolding fence_in is_held
  fence-Effect id row v actor key current found = view (guard_lem _ _) λ _ test.
      transition id row v current found TaskState.cancellation_requested drop_fence
        (held_legal row.state test).0 (λ m now _. lease_dropped row _ _ m now drop_fence refl refl)
        _ _ _ _

  pub request_cancellation-Effect :
      (id : String) (v : ℕ) (actor key : String)
      → Post env db (request_cancellation_in id v actor key) (λ _ db'. Effect env db (ledger db'))
  unfolding request_cancellation_in is_held
  request_cancellation-Effect id v actor key = view (expect_version_lem _ _) λ _ current.
      view (task_row_lem id) λ row found. elim (Bool-cases (may_cancel row.state)) [
        | inl e ↦ rw e (
            transition id row v current found TaskState.cancelled drop_lease
              (cancel_legal row.state e).0
              (λ m now _. lease_dropped row _ _ m now drop_lease refl refl) _ _ _ _)
        | inr e ↦ rw e (fence-Effect id row v actor key current found)
      ]

  pub confirm_cancellation-Effect :
      (id : String) (v : ℕ) (actor key : String)
      → Post env db (confirm_cancellation_in id v actor key) (λ _ db'. Effect env db (ledger db'))
  unfolding confirm_cancellation_in is_held
  confirm_cancellation-Effect id v actor key = view (expect_version_lem _ _) λ _ current.
      view (task_row_lem id) λ row found. view (guard_lem _ _) λ _ test.
        view (reads_lem _) λ uncertain _. view (guard_lem _ _) λ _ _.
          transition id row v current found TaskState.cancelled drop_lease
            (cancelling_legal row.state test)
            (λ m now _. lease_dropped row _ _ m now drop_lease refl refl) _ _ _ _
