-- ===== src/Memory/Create.antt =====
-- `MemoryService.create_candidate` of src/city2core/memory.py.
use city.Base.{String, none, some, [], ◌∷◌}
use city.Model.Json.{Fields, str, num, obj, arr, nil, end, field, get, merge}
use city.Model.Ids
use city.Store.Tx.{Tx, ◌>>=◌, ◌>>◌, pure, reads, utc_now, new_id, sha_json, field_of}
use city.Store.Events.{append_event, projection_updated}
use city.Core.Call.{Call, dict, required, get_or}
use city.Memory.Fields.{text_at}
use city.Memory.Validate.{validate_memory}
use city.Memory.Rows.{candidate_profile, same_candidate, insert_projection}

-- `valid_until`, when it is given
unfoldable pub expiry_part : Fields → Fields
unfolding get
expiry_part fields = elim (get "valid_until" fields) [
  | none ↦ end
  | some v ↦ field "valid_until" v end
]

unfoldable pub candidate_record : Fields → String → String → String → Tx Fields
unfolding expiry_part merge
candidate_record fields actor now memory_id = do
  scope ← field_of "scope" fields
  memory_type ← field_of "type" fields
  statement ← field_of "statement" fields
  evidence_refs ← field_of "evidence_refs" fields
  asserted_by ← field_of "asserted_by" fields
  owner ← field_of "owner" fields
  valid_from ← field_of "valid_from" fields
  fact_class ← field_of "fact_class" fields
  revalidation_policy ← field_of "revalidation_policy" fields
  revalidate_at ← field_of "revalidate_at" fields
  confidence ← field_of "confidence" fields
  sensitivity ← field_of "sensitivity" fields
  labels ← field_of "labels" fields
  pure (
      merge
        (dict (
          ("schema_version", str "city2.memory/v1")
          ∷ ("memory_id", str memory_id)
          ∷ ("aggregate_version", num 1)
          ∷ ("scope", scope)
          ∷ ("type", memory_type)
          ∷ ("statement", statement)
          ∷ ("evidence_refs", evidence_refs)
          ∷ ("asserted_by", asserted_by)
          ∷ ("owner", owner)
          ∷ ("created_by", str actor)
          ∷ ("created_at", get_or "created_at" (str now) fields)
          ∷ ("valid_from", valid_from)
          ∷ ("fact_class", fact_class)
          ∷ ("revalidation_policy", revalidation_policy)
          ∷ ("revalidate_at", revalidate_at)
          ∷ ("confidence", confidence)
          ∷ ("sensitivity", sensitivity)
          ∷ ("review_state", str "candidate")
          ∷ ("supersedes", get_or "supersedes" (arr nil) fields)
          ∷ ("labels", labels)
          ∷ []))
        (expiry_part fields))

-- what follows when no record of the scope has the candidate's digest
unfoldable pub insert_candidate : Fields → String → String → String → String → Tx Fields
unfolding insert_projection
insert_candidate record_dict candidate_sha now actor key = do
  memory_id ← text_at "memory_id" record_dict
  record_sha ← sha_json (obj record_dict)
  scope ← field_of "scope" record_dict
  memory_type ← field_of "type" record_dict
  sensitivity ← text_at "sensitivity" record_dict
  marker ← append_event key (record {
    aggregate_type = "memory";
    aggregate_id = memory_id;
    event_type = "memory.created";
    aggregate_version = 1;
    actor = actor;
    payload = dict (
        ("candidate_sha256", str candidate_sha)
        ∷ ("record_sha256", str record_sha)
        ∷ ("scope", scope)
        ∷ ("type", memory_type)
        ∷ []);
    sensitivity = sensitivity;
  })
  insert_projection record_dict candidate_sha marker now
  projection_updated
  pure record_dict

unfoldable pub create_candidate_in : Fields → String → String → Tx Fields
unfolding candidate_record validate_memory candidate_profile same_candidate insert_candidate
create_candidate_in fields actor key = do
  now ← utc_now
  memory_id ← new_id Ids.memory
  record_dict ← candidate_record fields actor now memory_id
  validate_memory record_dict
  candidate_sha ← sha_json (obj (candidate_profile record_dict))
  scope ← text_at "scope" record_dict
  existing ← reads (λ db. same_candidate scope candidate_sha db.memories)
  elim existing [
    | some r ↦ pure r.record_json
    | none ↦ insert_candidate record_dict candidate_sha now actor key
  ]

unfoldable pub create_candidate : Fields → String → Call
unfolding create_candidate_in
create_candidate fields actor = record {
  prepare = do
    required
        ("scope" ∷ "type" ∷ "statement" ∷ "evidence_refs" ∷ "asserted_by" ∷ "owner" ∷ "valid_from"
          ∷ "fact_class" ∷ "revalidation_policy" ∷ "revalidate_at" ∷ "confidence" ∷ "sensitivity"
          ∷ "labels" ∷ [])
        fields
    pure (
        dict (
          ("command", str "create_memory_candidate")
          ∷ ("fields", obj fields)
          ∷ ("actor", str actor)
          ∷ []));
  operation = create_candidate_in fields actor;
}
