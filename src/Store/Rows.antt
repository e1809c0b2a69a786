-- ===== src/Store/Rows.antt =====
-- The rows of the tables of src/city2core/migrations/0001_core.sql, and the database. A column
-- that holds canonical JSON text holds the value here. `quarantined` is never written by Core.
use city.Base.{ℕ, String, Option, List}
use city.Model.Json.{Json, Fields}
use city.Store.Tables.{
  MemoryRow, MemoryReview, MemoryConflict, FtsRow, ContextPack, ManifestRow, TaskReview,
}
use city.Store.States.{TaskState, ObjectiveStatus, RunStatus, ActionState}

-- A row of `events`.
pub record Event : Type 0 where
  pub database_sequence : ℕ
  pub event_id : String
  pub aggregate_type : String
  pub aggregate_id : String
  pub event_type : String
  pub aggregate_version : ℕ
  pub aggregate_sequence : ℕ
  pub writer_id : String
  pub writer_sequence : ℕ
  pub actor : String
  pub occurred_at : String
  pub recorded_at : String
  pub idempotency_key : String
  pub prior_event_sha256 : String
  pub payload_sha256 : String
  pub payload : Json
  pub event_sha256 : String
  pub sensitivity : String

-- `EventMarker`
pub record Marker : Type 0 where
  pub event_id : String
  pub event_sha256 : String
  pub database_sequence : ℕ
  pub aggregate_version : ℕ

-- A row of `command_dedup`.
pub record Dedup : Type 0 where
  pub idempotency_key : String
  pub command_sha256 : String
  pub result : Fields
  pub committed_at : String

pub record ObjectiveRow : Type 0 where
  pub objective_id : String
  pub aggregate_version : ℕ
  pub objective_revision : ℕ
  pub objective_sha256 : String
  pub status : ObjectiveStatus
  pub record_json : Fields
  pub last_event_id : String
  pub last_event_sha256 : String
  pub event_high_water : ℕ
  pub updated_at : String

-- A row of `objective_revisions` or of `task_revisions`.
pub record Revision : Type 0 where
  pub id : String
  pub revision : ℕ
  pub sha256 : String
  pub record_json : Fields
  pub created_at : String

pub record TaskRow : Type 0 where
  pub task_id : String
  pub aggregate_version : ℕ
  pub task_revision : ℕ
  pub task_sha256 : String
  pub objective_id : String
  pub objective_revision : ℕ
  pub objective_sha256 : String
  pub state : TaskState
  pub attempt_count : ℕ
  pub max_attempts : ℕ
  pub current_run_id : Option String
  pub lease_owner : Option String
  pub lease_fencing_token : Option String
  pub lease_expires_at : Option String
  pub last_event_id : String
  pub last_event_sha256 : String
  pub event_high_water : ℕ
  pub created_at : String
  pub updated_at : String

pub record RunRow : Type 0 where
  pub run_id : String
  pub task_id : String
  pub task_revision : ℕ
  pub attempt_number : ℕ
  pub status : RunStatus
  pub task_envelope_json : Fields
  pub task_envelope_sha256 : String
  pub result_json : Option Fields
  pub result_sha256 : Option String
  pub created_at : String
  pub updated_at : String

pub record ActionRow : Type 0 where
  pub action_id : String
  pub aggregate_version : ℕ
  pub task_id : String
  pub task_revision : ℕ
  pub run_id : String
  pub operation_idempotency_key : String
  pub state : ActionState
  pub record_json : Fields
  pub provider_operation_id : Option Json
  pub provider_evidence_sha256 : Option String
  pub last_event_id : String
  pub last_event_sha256 : String
  pub event_high_water : ℕ
  pub created_at : String
  pub updated_at : String

-- The tables, each with the newest row first, and the two counters of `core_meta` and
-- `writer_state`.
pub record Db : Type 0 where
  pub global_sequence : ℕ
  pub writer_sequence : ℕ
  pub events : List Event
  pub command_dedup : List Dedup
  pub objectives : List ObjectiveRow
  pub objective_revisions : List Revision
  pub tasks : List TaskRow
  pub task_revisions : List Revision
  pub runs : List RunRow
  pub actions : List ActionRow
  pub memories : List MemoryRow
  pub memory_reviews : List MemoryReview
  pub memory_conflicts : List MemoryConflict
  pub memory_fts : List FtsRow
  pub context_packs : List ContextPack
  pub agent_manifests : List ManifestRow
  pub task_reviews : List TaskReview
