-- ===== src/Store/States.antt =====
-- The states of the lifecycles: the texts that the CHECK constraints of
-- src/city2core/migrations/0001_core.sql list, each with the text that stands for it.
use city.Base.{String}

pub data TaskState : Type 0 where
  proposed awaiting_approval ready leased running review changes_requested : TaskState
  accepted rejected cancellation_requested cancelled expired : TaskState
  needs_reconciliation failed_terminal : TaskState

pub data ObjectiveStatus : Type 0 where
  proposed active paused completed cancelled superseded : ObjectiveStatus

pub data RunStatus : Type 0 where
  leased running review completed failed expired cancelled completed_after_cancel : RunStatus

pub data ActionState : Type 0 where
  prepared dispatched confirmed unknown failed compensated : ActionState

unfoldable pub task_state_text : TaskState → String
task_state_text TaskState.proposed = "proposed"
task_state_text TaskState.awaiting_approval = "awaiting_approval"
task_state_text TaskState.ready = "ready"
task_state_text TaskState.leased = "leased"
task_state_text TaskState.running = "running"
task_state_text TaskState.review = "review"
task_state_text TaskState.changes_requested = "changes_requested"
task_state_text TaskState.accepted = "accepted"
task_state_text TaskState.rejected = "rejected"
task_state_text TaskState.cancellation_requested = "cancellation_requested"
task_state_text TaskState.cancelled = "cancelled"
task_state_text TaskState.expired = "expired"
task_state_text TaskState.needs_reconciliation = "needs_reconciliation"
task_state_text TaskState.failed_terminal = "failed_terminal"

unfoldable pub objective_status_text : ObjectiveStatus → String
objective_status_text ObjectiveStatus.proposed = "proposed"
objective_status_text ObjectiveStatus.active = "active"
objective_status_text ObjectiveStatus.paused = "paused"
objective_status_text ObjectiveStatus.completed = "completed"
objective_status_text ObjectiveStatus.cancelled = "cancelled"
objective_status_text ObjectiveStatus.superseded = "superseded"

unfoldable pub run_status_text : RunStatus → String
run_status_text RunStatus.leased = "leased"
run_status_text RunStatus.running = "running"
run_status_text RunStatus.review = "review"
run_status_text RunStatus.completed = "completed"
run_status_text RunStatus.failed = "failed"
run_status_text RunStatus.expired = "expired"
run_status_text RunStatus.cancelled = "cancelled"
run_status_text RunStatus.completed_after_cancel = "completed_after_cancel"

unfoldable pub action_state_text : ActionState → String
action_state_text ActionState.prepared = "prepared"
action_state_text ActionState.dispatched = "dispatched"
action_state_text ActionState.confirmed = "confirmed"
action_state_text ActionState.unknown = "unknown"
action_state_text ActionState.failed = "failed"
action_state_text ActionState.compensated = "compensated"
