-- ===== src/Memory/Stale.antt =====
-- `mark_stale` and `revalidate` of src/city2core/memory.py.
use city.Base.{ℕ, ◌+◌, String, Bool, true, false, some, List, [], ◌∷◌}
use city.Model.Json.{Json, Fields, str, num, obj, merge}
use city.Store.Tables.{MemoryState}
use city.Store.Tx.{
  Tx, core_error, memory_transition, evidence_changed, ◌>>=◌, ◌>>◌, pure, guard, utc_now, sha_json,
  list_of,
}
use city.Store.Events.{append_event, expect_version, projection_updated}
use city.Core.Call.{Call, dict}
use city.Memory.Fields.{text_at, sources, dicts_of, collect}
use city.Memory.Sort.{sort, texts_le, same_rows}
use city.Memory.Validate.{validate_memory}
use city.Memory.Rows.{
  memory_version, memory_row, update_projection, unindex, index_record, no_review, all_current,
}

unfoldable pub is_accepted : MemoryState → Bool
is_accepted MemoryState.accepted = true
is_accepted _ = false

unfoldable pub is_stale : MemoryState → Bool
is_stale MemoryState.stale = true
is_stale _ = false

-- `record.update(aggregate_version=…, review_state=…)`
unfoldable pub restated : ℕ → String → Fields → Fields
unfolding dict merge
restated version state d =
    merge d (dict (("aggregate_version", num version) ∷ ("review_state", str state) ∷ []))

unfoldable pub mark_stale_in : String → String → ℕ → String → String → Tx Fields
unfolding is_accepted restated update_projection unindex
mark_stale_in memory_id reason expected_version actor key = do
  expect_version expected_version (memory_version memory_id)
  row ← memory_row memory_id
  guard (is_accepted row.review_state) (core_error (memory_transition row.review_state))
  let record_dict = restated (expected_version + 1) "stale" row.record_json
  record_sha ← sha_json (obj record_dict)
  sensitivity ← text_at "sensitivity" record_dict
  marker ← append_event key (record {
    aggregate_type = "memory";
    aggregate_id = memory_id;
    event_type = "memory.stale";
    aggregate_version = expected_version + 1;
    actor = actor;
    payload = dict (("reason", str reason) ∷ ("record_sha256", str record_sha) ∷ []);
    sensitivity = sensitivity;
  })
  now ← utc_now
  update_projection MemoryState.stale (expected_version + 1) record_dict marker now
      (record no_review { stale_reason = some reason })
  unindex memory_id
  projection_updated
  pure record_dict

unfoldable pub mark_stale : String → String → ℕ → String → Call
unfolding mark_stale_in
mark_stale memory_id reason expected_version actor = record {
  prepare = pure (
      dict (
        ("command", str "mark_memory_stale")
        ∷ ("memory_id", str memory_id)
        ∷ ("reason", str reason)
        ∷ ("expected_version", num expected_version)
        ∷ ("actor", str actor)
        ∷ []));
  operation = mark_stale_in memory_id reason expected_version actor;
}

-- `(source["uri"], source["content_sha256"])`
unfoldable pub source_pair : Fields → Tx (List String)
source_pair source = do
  uri ← text_at "uri" source
  sha ← text_at "content_sha256" source
  pure (uri ∷ sha ∷ [])

unfoldable pub revalidate_in : String → Json → String → ℕ → String → String → Tx Fields
unfolding is_stale source_pair sort texts_le same_rows merge update_projection index_record
    validate_memory all_current
revalidate_in memory_id evidence_refs revalidate_at expected_version actor key = do
  expect_version expected_version (memory_version memory_id)
  row ← memory_row memory_id
  guard (is_stale row.review_state) (core_error (memory_transition row.review_state))
  old_refs ← sources row.record_json
  old_pairs ← collect source_pair old_refs
  new_items ← list_of evidence_refs
  new_refs ← dicts_of new_items
  new_pairs ← collect source_pair new_refs
  guard (same_rows (sort texts_le old_pairs) (sort texts_le new_pairs))
      (core_error evidence_changed)
  current ← all_current new_refs
  guard current (core_error evidence_changed)
  let record_dict = merge row.record_json (
      dict (
        ("aggregate_version", num (expected_version + 1))
        ∷ ("evidence_refs", evidence_refs)
        ∷ ("revalidate_at", str revalidate_at)
        ∷ ("review_state", str "accepted")
        ∷ []))
  validate_memory record_dict
  record_sha ← sha_json (obj record_dict)
  sensitivity ← text_at "sensitivity" record_dict
  marker ← append_event key (record {
    aggregate_type = "memory";
    aggregate_id = memory_id;
    event_type = "memory.accepted";
    aggregate_version = expected_version + 1;
    actor = actor;
    payload = dict (("reason", str "revalidated") ∷ ("record_sha256", str record_sha) ∷ []);
    sensitivity = sensitivity;
  })
  now ← utc_now
  update_projection MemoryState.accepted (expected_version + 1) record_dict marker now no_review
  index_record record_dict
  projection_updated
  pure record_dict

unfoldable pub revalidate : String → Json → String → ℕ → String → Call
unfolding revalidate_in
revalidate memory_id evidence_refs revalidate_at expected_version actor = record {
  prepare = pure (
      dict (
        ("command", str "revalidate_memory")
        ∷ ("memory_id", str memory_id)
        ∷ ("evidence_refs", evidence_refs)
        ∷ ("revalidate_at", str revalidate_at)
        ∷ ("expected_version", num expected_version)
        ∷ ("actor", str actor)
        ∷ []));
  operation = revalidate_in memory_id evidence_refs revalidate_at expected_version actor;
}
