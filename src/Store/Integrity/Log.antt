-- ===== src/Store/Integrity/Log.antt =====
-- Which event logs are well formed, said without the loop of `Store.verify_integrity`.
use city.Base.{ℕ, ◌+◌, String, ◌=?◌, ◌≡◌, some, List, [], ◌∷◌, arith, eq_iff, if◌then◌else◌}
use city.Model.Json.{obj}
use city.Model.Canonical.{Digest, sha256_json}
use city.Store.Rows.{Event}
use city.Store.Events.{event_from_row, latest, prior_version, prior_sequence, prior_hash}

abbrev pub length : List Event → ℕ
length [] = 0
length (e ∷ l) = length l + 1

-- The sequence number of a writer's newest event, or 0.
unfoldable pub last_written : String → List Event → ℕ
last_written w [] = 0
last_written w (e ∷ l) =
    let rest = last_written w l in if e.writer_id =? w then e.writer_sequence else rest

-- An event that may stand on top of a log.
pub record Extends (lib : Digest) (e : Event) (l : List Event) : Type 0 where
  pub position : e.database_sequence ≡ length l + 1
  pub payload : sha256_json lib e.payload ≡ some e.payload_sha256
  pub hash : sha256_json lib (obj (event_from_row e)) ≡ some e.event_sha256
  pub version : e.aggregate_version ≡ prior_version (latest e.aggregate_id l) + 1
  pub sequence : e.aggregate_sequence ≡ prior_sequence (latest e.aggregate_id l) + 1
  pub prior : e.prior_event_sha256 ≡ prior_hash (latest e.aggregate_id l)
  pub writer : e.writer_sequence ≡ last_written e.writer_id l + 1

-- Every event extends what was logged before it: numbers without gaps, and one hash chain for
-- each aggregate.
abbrev pub IsChained : Digest → List Event → Type 0
IsChained lib [] = Unit {0}
IsChained lib (e ∷ l) = Extends lib e l × IsChained lib l

-- The newest event of an aggregate has its highest number.
pub latest-cons :
    (lib : Digest) (id : String) (e : Event) (l : List Event)
    → Extends lib e l
    → latest id (e ∷ l) ≡ (if e.aggregate_id =? id then some e else latest id l)
unfolding latest
latest-cons lib id e l x = ground (arith, eq_iff e.aggregate_id id, x.sequence)
