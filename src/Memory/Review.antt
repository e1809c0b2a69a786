-- ===== src/Memory/Review.antt =====
-- `review_candidate`, `_verify_source_checks`, `_find_conflict` and `_supersede_in_tx` of
-- src/city2core/memory.py.
pub mod Checks
pub mod Approval
use Prim.Native.String.{slice, len}
use city.Base.{
  ℕ, ◌+◌, String, ◌=?◌, ◌&◌, Bool, true, false, not, ◌&&◌, ◌||◌, Option, none, some, List, [], ◌∷◌,
  if◌then◌else◌,
}
use city.Model.Json.{
  Json, Items, Fields, str, num, obj, arr, boolean, end, field, merge, items, unknown, elem,
}
use city.Model.Ids
use city.Store.Tables.{MemoryState, memory_state_text, MemoryRow, MemoryReview, MemoryConflict}
use city.Store.Rows.{Db}
use city.Store.Tx.{
  Tx, core_error, invalid_memory_decision, invalid_independence, memory_transition, self_approval,
  company_acceptance, feedback_source, source_checks_missing, superseded_not_accepted, ◌>>=◌, ◌>>◌,
  pure, fail, guard, or_raise, reads, write, insert_row, utc_now, new_id, uuid4, sha_json,
  check_canonical, list_of, asks,
}
use city.Store.Events.{append_event, expect_version, projection_updated}
use city.Core.Call.{Call, dict, is_empty}
use city.Memory.Fields.{text_at, texts_at, sources, dicts_of, collect, each, when, any_of, meets}
use city.Memory.Sort.{sort, text_le, texts_le, same_rows}
use city.Memory.Text.{normalize_text, starts_with}
use city.Memory.Validate.{validate_memory}
use city.Memory.Rows.{
  Review, memory_version, memory_row, update_projection, unindex, index_record, no_review,
}
use city.Memory.Stale.{is_accepted, restated}

-- {"accepted", "rejected", "quarantined"}
unfoldable pub decision_of : String → Option MemoryState
decision_of decision =
    if decision =? "accepted"
    then some MemoryState.accepted
    else if decision =? "rejected"
    then some MemoryState.rejected
    else if decision =? "quarantined"
    then some MemoryState.quarantined
    else none

unfoldable pub is_candidate : MemoryState → Bool
is_candidate MemoryState.candidate = true
is_candidate _ = false

unfoldable pub all_boolean : Fields → Bool
all_boolean end = true
all_boolean (field k (boolean b) d) = all_boolean d
all_boolean (field k _ d) = false

-- `INDEPENDENCE_DIMENSIONS`
unfoldable pub independence_known : Fields → Bool
unfolding unknown elem is_empty all_boolean
independence_known d =
    is_empty (
      unknown
        ("different_model" ∷ "different_provider" ∷ "no_maker_private_memory"
          ∷ "no_shared_write_credential" ∷ "separate_identity" ∷ "separate_session" ∷ [])
        d)
    && all_boolean d

-- `(source["uri"], source["content_sha256"], source["validity_status"])`
unfoldable pub source_triple : Fields → Tx (List String)
source_triple source = do
  uri ← text_at "uri" source
  sha ← text_at "content_sha256" source
  status ← text_at "validity_status" source
  pure (uri ∷ sha ∷ status ∷ [])

-- the third part of a triple is "current"
unfoldable pub status_current : List String → Bool
status_current (uri ∷ sha ∷ status ∷ []) = status =? "current"
status_current _ = false

unfoldable pub all_rows : (List String → Bool) → List (List String) → Bool
all_rows test [] = true
all_rows test (r ∷ t) = test r && all_rows test t

-- the test of `_verify_source_checks`
unfoldable pub proves_current : List (List String) → List (List String) → Bool
unfolding sort texts_le same_rows all_rows status_current
proves_current expected actual =
    same_rows (sort texts_le actual) (sort texts_le expected)
    && all_rows status_current (sort texts_le actual)

unfoldable pub verify_source_checks : Fields → Items → Tx (Unit {0})
unfolding source_triple proves_current
verify_source_checks record_dict checks = do
  refs ← sources record_dict
  expected ← collect source_triple refs
  check_dicts ← dicts_of checks
  actual ← collect source_triple check_dicts
  guard (proves_current expected actual) (core_error source_checks_missing)

-- a feedback record comes from a human
unfoldable pub feedback_human : Fields → Tx (Unit {0})
unfolding starts_with any_of
feedback_human record_dict = do
  asserted_by ← text_at "asserted_by" record_dict
  refs ← sources record_dict
  relationships ← collect (text_at "relationship") refs
  guard (starts_with "human:" asserted_by && any_of (λ t. t =? "asserted_by") relationships)
      (core_error feedback_source)

-- the rows that `_find_conflict` reads: accepted facts of the scope
unfoldable pub accepted_facts : String → List MemoryRow → List MemoryRow
unfolding is_accepted
accepted_facts scope [] = []
accepted_facts scope (r ∷ t) =
    let rest = accepted_facts scope t in
    if r.scope =? scope && r.memory_type =? "fact" && is_accepted r.review_state
    then r ∷ rest
    else rest

-- whether a row contradicts the record
unfoldable pub contradicts : Fields → MemoryRow → Tx Bool
unfolding meets any_of
contradicts record_dict r = do
  theirs ← text_at "fact_class" r.record_json
  ours ← text_at "fact_class" record_dict
  labels ← texts_at "labels" record_dict
  their_labels ← texts_at "labels" r.record_json
  supersedes ← texts_at "supersedes" record_dict
  their_statement ← text_at "statement" r.record_json
  statement ← text_at "statement" record_dict
  normal ← asks normalize_text
  pure (
      theirs =? ours
      && meets labels their_labels
      && not (any_of (λ id. id =? r.memory_id) supersedes)
      && not (normal their_statement =? normal statement))

unfoldable pub first_conflict : Fields → List MemoryRow → Tx (Option MemoryRow)
unfolding contradicts
first_conflict record_dict [] = pure none
first_conflict record_dict (r ∷ t) = do
  against ← contradicts record_dict r
  elim against [ true ↦ pure (some r) | false ↦ first_conflict record_dict t ]

-- `_find_conflict`
unfoldable pub find_conflict : Fields → Tx (Option MemoryRow)
unfolding accepted_facts first_conflict
find_conflict record_dict = do
  memory_type ← text_at "type" record_dict
  scope ← text_at "scope" record_dict
  rows ← reads (λ db. accepted_facts scope db.memories)
  if memory_type =? "fact" then first_conflict record_dict rows else pure none

abbrev conflict_key : MemoryConflict → String
conflict_key r = r.conflict_id

abbrev pub review_key : MemoryReview → String
review_key r = r.review_id

-- the state that a conflict makes of "accepted", with its row in `memory_conflicts`
unfoldable pub settle_conflict : String → Fields → Option MemoryRow → Tx MemoryState
unfolding sort text_le items
settle_conflict memory_id record_dict none = pure MemoryState.accepted
settle_conflict memory_id record_dict (some other) = do
  id ← uuid4
  scope ← text_at "scope" record_dict
  fact_class ← text_at "fact_class" record_dict
  let ids = items (sort text_le (memory_id ∷ other.memory_id ∷ []))
  check_canonical (arr ids)
  now ← utc_now
  insert_row conflict_key (λ db. db.memory_conflicts) (λ t db. record db { memory_conflicts = t })
      (record {
        conflict_id = "cnf_" & id;
        scope = scope;
        fact_class = fact_class;
        memory_ids = ids;
        created_at = now;
      })
  pure MemoryState.quarantined

-- the state that a decision leads to
unfoldable pub decide : String → MemoryState → Fields → Items → Tx MemoryState
unfolding verify_source_checks feedback_human find_conflict settle_conflict
decide memory_id MemoryState.accepted record_dict checks = do
  verify_source_checks record_dict checks
  memory_type ← text_at "type" record_dict
  when (memory_type =? "feedback") (feedback_human record_dict)
  conflict ← find_conflict record_dict
  settle_conflict memory_id record_dict conflict
decide memory_id state record_dict checks = pure state

-- one round of `_supersede_in_tx`
unfoldable pub supersede_one : String → Fields → String → String → String → Tx (Unit {0})
unfolding is_accepted restated update_projection unindex
supersede_one key record_dict actor now old_id = do
  old ← memory_row old_id
  scope ← text_at "scope" record_dict
  guard (is_accepted old.review_state && old.scope =? scope) (core_error superseded_not_accepted)
  let old_record = restated (old.aggregate_version + 1) "superseded" old.record_json
  memory_id ← text_at "memory_id" record_dict
  record_sha ← sha_json (obj old_record)
  sensitivity ← text_at "sensitivity" old_record
  marker ← append_event key (record {
    aggregate_type = "memory";
    aggregate_id = old_id;
    event_type = "memory.superseded";
    aggregate_version = old.aggregate_version + 1;
    actor = actor;
    payload = dict (("superseded_by", str memory_id) ∷ ("record_sha256", str record_sha) ∷ []);
    sensitivity = sensitivity;
  })
  update_projection MemoryState.superseded (old.aggregate_version + 1) old_record marker now
      no_review
  unindex old_id

-- `_supersede_in_tx`
unfoldable pub supersede : String → Fields → String → String → Tx (Unit {0})
unfolding supersede_one
supersede key record_dict actor now = do
  ids ← texts_at "supersedes" record_dict
  each (supersede_one key record_dict actor now) ids

-- a reviewer that may decide so
unfoldable pub reviewer_allowed : Fields → MemoryState → String → Tx (Unit {0})
unfolding starts_with is_accepted
reviewer_allowed record_dict state reviewer = do
  created_by ← text_at "created_by" record_dict
  guard (not (starts_with "agent:" created_by && created_by =? reviewer)) (core_error self_approval)
  scope ← text_at "scope" record_dict
  guard (not (scope =? "company" && is_accepted state && not (reviewer =? "human:chad")))
      (core_error company_acceptance)

-- the UPDATE's review columns
abbrev pub reviewed : MemoryState → String → String → Review
reviewed state reviewer now = record {
  reviewed_by = some reviewer;
  accepted_at = if is_accepted state then some now else none;
  stale_reason = none;
}

unfoldable pub review_candidate_in :
    String → String → ℕ → String → Items → Fields → String → Tx Fields
unfolding decision_of is_candidate reviewer_allowed decide restated update_projection index_record
    supersede validate_memory
review_candidate_in memory_id decision expected_version reviewer checks independence key = do
  wanted ← or_raise (core_error invalid_memory_decision) (decision_of decision)
  expect_version expected_version (memory_version memory_id)
  row ← memory_row memory_id
  guard (is_candidate row.review_state) (core_error (memory_transition row.review_state))
  reviewer_allowed row.record_json wanted reviewer
  state ← decide memory_id wanted row.record_json checks
  let next_record = restated (expected_version + 1) (memory_state_text state) row.record_json
  validate_memory next_record
  now ← utc_now
  record_sha ← sha_json (obj next_record)
  checks_sha ← sha_json (arr checks)
  sensitivity ← text_at "sensitivity" row.record_json
  marker ← append_event key (record {
    aggregate_type = "memory";
    aggregate_id = memory_id;
    event_type = "memory." & memory_state_text state;
    aggregate_version = expected_version + 1;
    actor = reviewer;
    payload = dict (
        ("record_sha256", str record_sha)
        ∷ ("review_state", str (memory_state_text state))
        ∷ ("source_check_sha256", str checks_sha)
        ∷ []);
    sensitivity = sensitivity;
  })
  update_projection state (expected_version + 1) next_record marker now
      (reviewed state reviewer now)
  review_id ← new_id Ids.review
  check_canonical (obj independence)
  insert_row review_key (λ db. db.memory_reviews) (λ t db. record db { memory_reviews = t })
      (record {
        review_id = review_id;
        memory_id = memory_id;
        decision = state;
        reviewer = reviewer;
        reviewed_at = now;
        source_check_sha256 = checks_sha;
        independence_json = independence;
      })
  when (is_accepted state) (index_record next_record >> supersede key next_record reviewer now)
  projection_updated
  pure (
      dict (
        ("memory", obj next_record)
        ∷ ("review_id", str review_id)
        ∷ ("conflict", boolean (is_quarantined state && decision =? "accepted"))
        ∷ []))
  where
    is_quarantined : MemoryState → Bool
    is_quarantined MemoryState.quarantined = true
    is_quarantined _ = false

unfoldable pub review_candidate : String → String → ℕ → String → Items → Fields → Call
unfolding review_candidate_in independence_known decision_of
review_candidate memory_id decision expected_version reviewer checks independence = record {
  prepare = do
    wanted ← or_raise (core_error invalid_memory_decision) (decision_of decision)
    guard (independence_known independence) (core_error invalid_independence)
    pure (
        dict (
          ("command", str "review_memory")
          ∷ ("memory_id", str memory_id)
          ∷ ("decision", str decision)
          ∷ ("expected_version", num expected_version)
          ∷ ("reviewer", str reviewer)
          ∷ ("source_checks", arr checks)
          ∷ ("independence", obj independence)
          ∷ []));
  operation = review_candidate_in memory_id decision expected_version reviewer checks independence;
}
