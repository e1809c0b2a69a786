-- ===== src/Store/Tables.antt =====
-- The rows of the tables of src/city2core/migrations/0002_memory.sql and of `agent_manifests` and
-- `task_reviews` of src/city2core/migrations/0004_review.sql.
use city.Base.{ℕ, String, Option}
use city.Model.Json.{Fields, Items}

pub data MemoryState : Type 0 where
  candidate accepted rejected stale superseded quarantined : MemoryState

unfoldable pub memory_state_text : MemoryState → String
memory_state_text candidate = "candidate"
memory_state_text accepted = "accepted"
memory_state_text rejected = "rejected"
memory_state_text stale = "stale"
memory_state_text superseded = "superseded"
memory_state_text quarantined = "quarantined"

-- A row of `memory_records`.
pub record MemoryRow : Type 0 where
  pub memory_id : String
  pub aggregate_version : ℕ
  pub scope : String
  pub memory_type : String
  pub review_state : MemoryState
  pub candidate_sha256 : String
  pub record_sha256 : String
  pub statement : String
  pub labels_text : String
  pub source_text : String
  pub record_json : Fields
  pub created_by : String
  pub reviewed_by : Option String
  pub accepted_at : Option String
  pub stale_reason : Option String
  pub revalidate_at : String
  pub valid_from : String
  pub valid_until : Option String
  pub sensitivity : String
  pub last_event_id : String
  pub last_event_sha256 : String
  pub event_high_water : ℕ
  pub created_at : String
  pub updated_at : String

pub record MemoryReview : Type 0 where
  pub review_id : String
  pub memory_id : String
  pub decision : MemoryState
  pub reviewer : String
  pub reviewed_at : String
  pub source_check_sha256 : String
  pub independence_json : Fields

-- A row of `memory_conflicts`, whose state is 'open'.
pub record MemoryConflict : Type 0 where
  pub conflict_id : String
  pub scope : String
  pub fact_class : String
  pub memory_ids : Items
  pub created_at : String

-- A row of the full-text index `memory_fts`.
pub record FtsRow : Type 0 where
  pub memory_id : String
  pub statement : String
  pub labels : String
  pub source_metadata : String

pub record ContextPack : Type 0 where
  pub context_id : String
  pub task_id : String
  pub run_id : String
  pub manifest_sha256 : String
  pub manifest_json : Fields
  pub content_sha256 : String
  pub content_json : Fields
  pub event_high_water : ℕ
  pub created_at : String

pub record ManifestRow : Type 0 where
  pub agent_id : String
  pub manifest_version : ℕ
  pub manifest_sha256 : String
  pub manifest_json : Fields
  pub registered_at : String

pub record TaskReview : Type 0 where
  pub review_id : String
  pub task_id : String
  pub run_id : String
  pub maker_agent_id : String
  pub reviewer_agent_id : String
  pub decision : String
  pub deterministic_checks_sha256 : String
  pub findings_json : Items
  pub independence_json : Fields
  pub reviewed_at : String
