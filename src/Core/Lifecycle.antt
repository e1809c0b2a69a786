-- ===== src/Core/Lifecycle.antt =====
-- What the methods of src/city2core/core.py may do to a task, said without their code: which
-- states follow which, and which columns of a lease are set.
use city.Base.{
  ◌+◌, ◌≤◌, String, ◌≡◌, ◌≢◌, Bool, true, false, not, ◌&&◌, ◌⊎◌, Option, none, some, if◌then◌else◌,
}
use city.Store.States.{TaskState, ActionState, ObjectiveStatus}
use city.Store.Rows.{TaskRow, ActionRow, ObjectiveRow, Event}

abbrev pub is_some : Option String → Bool
is_some none = false
is_some (some t) = true

-- `TASK_TERMINAL`
unfoldable pub is_terminal : TaskState → Bool
is_terminal TaskState.accepted = true
is_terminal TaskState.rejected = true
is_terminal TaskState.cancelled = true
is_terminal TaskState.failed_terminal = true
is_terminal _ = false

-- A task in these states is held by a run.
unfoldable pub is_held : TaskState → Bool
is_held TaskState.leased = true
is_held TaskState.running = true
is_held _ = false

from_held : TaskState → Bool
from_held TaskState.ready = true
from_held TaskState.failed_terminal = true
from_held TaskState.cancellation_requested = true
from_held TaskState.needs_reconciliation = true
from_held _ = false

from_waiting : TaskState → Bool
from_waiting TaskState.cancelled = true
from_waiting TaskState.needs_reconciliation = true
from_waiting _ = false

is_ready : TaskState → Bool
is_ready TaskState.ready = true
is_ready _ = false

is_leased : TaskState → Bool
is_leased TaskState.leased = true
is_leased _ = false

from_proposed : TaskState → Bool
unfolding from_waiting
from_proposed TaskState.ready = true
from_proposed TaskState.awaiting_approval = true
from_proposed s = from_waiting s

from_running : TaskState → Bool
unfolding from_held
from_running TaskState.review = true
from_running s = from_held s

from_leased : TaskState → Bool
unfolding from_held
from_leased TaskState.running = true
from_leased s = from_held s

from_review : TaskState → Bool
from_review TaskState.accepted = true
from_review TaskState.rejected = true
from_review TaskState.changes_requested = true
from_review TaskState.needs_reconciliation = true
from_review _ = false

from_cancelling : TaskState → Bool
from_cancelling TaskState.cancellation_requested = true
from_cancelling TaskState.cancelled = true
from_cancelling TaskState.needs_reconciliation = true
from_cancelling _ = false

from_reconciling : TaskState → Bool
from_reconciling TaskState.review = true
from_reconciling TaskState.ready = true
from_reconciling _ = false

needs_help : TaskState → Bool
needs_help TaskState.needs_reconciliation = true
needs_help _ = false

-- The states that may follow a state.
unfoldable pub may_move : TaskState → TaskState → Bool
unfolding from_waiting is_ready is_leased from_proposed from_running from_leased from_review
    from_cancelling from_reconciling needs_help
may_move TaskState.proposed s = from_proposed s
may_move TaskState.awaiting_approval s = if is_ready s then true else from_waiting s
may_move TaskState.ready s = if is_leased s then true else from_waiting s
may_move TaskState.leased s = from_leased s
may_move TaskState.running s = from_running s
may_move TaskState.review s = from_review s
may_move TaskState.changes_requested s = if is_ready s then true else needs_help s
may_move TaskState.cancellation_requested s = from_cancelling s
may_move TaskState.expired s =
    if is_ready s then true else if is_leased s then true else from_waiting s
may_move TaskState.needs_reconciliation s = from_reconciling s
may_move _ s = false

-- A held task has a run and every column of a lease; any other has no column of one.
unfoldable pub lease_ok : TaskRow → Bool
unfolding is_held
lease_ok r =
    if is_held r.state
    then is_some r.current_run_id
      && is_some r.lease_owner
      && is_some r.lease_fencing_token
      && is_some r.lease_expires_at
    else not (is_some r.lease_owner)
      && not (is_some r.lease_fencing_token)
      && not (is_some r.lease_expires_at)

-- One step of a task, from a row to the row that replaces it.
pub record TaskStep (old new : TaskRow) : Type 0 where
  pub task_id : new.task_id ≡ old.task_id
  pub version : new.aggregate_version ≡ old.aggregate_version + 1
  pub edge : may_move old.state new.state ≡ true
  pub lease : lease_ok old ≡ true → lease_ok new ≡ true
  -- An attempt is counted with a lease, and with nothing else.
  pub attempts :
      (new.attempt_count ≡ old.attempt_count)
      ⊎ ((new.attempt_count ≡ old.attempt_count + 1)
          × (new.state ≡ TaskState.leased)
          × (new.attempt_count ≤ new.max_attempts))

-- The columns that a projection takes over from its last event.
pub record TaskMarks (e : Event) (r : TaskRow) : Type 0 where
  pub event_id : r.last_event_id ≡ e.event_id
  pub event_sha256 : r.last_event_sha256 ≡ e.event_sha256
  pub high_water : r.event_high_water ≡ e.database_sequence
  pub version : r.aggregate_version ≡ e.aggregate_version

-- The states that may follow a state of an action.
unfoldable pub action_may_move : ActionState → ActionState → Bool
action_may_move ActionState.prepared ActionState.dispatched = true
action_may_move ActionState.prepared ActionState.failed = true
action_may_move ActionState.dispatched ActionState.confirmed = true
action_may_move ActionState.dispatched ActionState.failed = true
action_may_move ActionState.dispatched ActionState.unknown = true
action_may_move ActionState.unknown ActionState.confirmed = true
action_may_move ActionState.unknown ActionState.failed = true
action_may_move ActionState.confirmed ActionState.compensated = true
action_may_move _ _ = false

pub record ActionStep (old new : ActionRow) : Type 0 where
  pub action_id : new.action_id ≡ old.action_id
  pub version : new.aggregate_version ≡ old.aggregate_version + 1
  pub edge : action_may_move old.state new.state ≡ true
  -- What the action does, and for whom, stays.
  pub task_id : new.task_id ≡ old.task_id
  pub run_id : new.run_id ≡ old.run_id
  pub operation_key : new.operation_idempotency_key ≡ old.operation_idempotency_key

-- The statuses that may follow a status of an objective.
unfoldable pub status_may_move : ObjectiveStatus → ObjectiveStatus → Bool
status_may_move ObjectiveStatus.proposed ObjectiveStatus.active = true
status_may_move ObjectiveStatus.proposed ObjectiveStatus.cancelled = true
status_may_move ObjectiveStatus.active ObjectiveStatus.paused = true
status_may_move ObjectiveStatus.active ObjectiveStatus.completed = true
status_may_move ObjectiveStatus.active ObjectiveStatus.cancelled = true
status_may_move ObjectiveStatus.active ObjectiveStatus.superseded = true
status_may_move ObjectiveStatus.paused ObjectiveStatus.active = true
status_may_move ObjectiveStatus.paused ObjectiveStatus.cancelled = true
status_may_move ObjectiveStatus.paused ObjectiveStatus.superseded = true
status_may_move _ _ = false

unfoldable pub is_final : ObjectiveStatus → Bool
is_final ObjectiveStatus.completed = true
is_final ObjectiveStatus.cancelled = true
is_final ObjectiveStatus.superseded = true
is_final _ = false

-- An objective changes its status, or is revised in an open status.
pub record ObjectiveStep (old new : ObjectiveRow) : Type 0 where
  pub objective_id : new.objective_id ≡ old.objective_id
  pub version : new.aggregate_version ≡ old.aggregate_version + 1
  pub change :
      ((status_may_move old.status new.status ≡ true)
        × (new.objective_revision ≡ old.objective_revision)
        × (new.objective_sha256 ≡ old.objective_sha256))
      ⊎ ((is_final old.status ≡ false)
          × (new.status ≡ old.status)
          × (new.objective_revision ≡ old.objective_revision + 1)
          × (new.objective_sha256 ≢ old.objective_sha256))

pub record ActionMarks (e : Event) (r : ActionRow) : Type 0 where
  pub event_id : r.last_event_id ≡ e.event_id
  pub event_sha256 : r.last_event_sha256 ≡ e.event_sha256
  pub high_water : r.event_high_water ≡ e.database_sequence
  pub version : r.aggregate_version ≡ e.aggregate_version

pub record ObjectiveMarks (e : Event) (r : ObjectiveRow) : Type 0 where
  pub event_id : r.last_event_id ≡ e.event_id
  pub event_sha256 : r.last_event_sha256 ≡ e.event_sha256
  pub high_water : r.event_high_water ≡ e.database_sequence
  pub version : r.aggregate_version ≡ e.aggregate_version
