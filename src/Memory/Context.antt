-- ===== src/Memory/Context.antt =====
-- `MemoryService.assemble_context` of src/city2core/memory.py.
use city.Base.{
  ℕ, suc, ◌+◌, ltb, String, ◌=?◌, ◌&◌, Bool, true, false, none, List, [], ◌∷◌, if◌then◌else◌,
}
use city.Model.Json.{Items, Fields, str, num, obj, arr, put, elem, unknown, items}
use city.Model.Ids
use city.Store.Tables.{ContextPack}
use city.Store.Rows.{Db, Event, RunRow}
use city.Store.Tx.{
  Env, Tx, Result, ok, err, core_error, no_run, scope_exceeded, unknown_sections, ◌>>=◌, ◌>>◌, pure,
  guard, reads, or_raise, insert_row, asks, utc_now, new_id, sha_json, sha_profile, check_canonical,
  field_of,
}
use city.Store.Events.{append_event, projection_updated}
use city.Core.Call.{Call, dict, invoke, later, validate, is_empty}
use city.Core.Rows.{latest_run}
use city.Memory.Fields.{texts_at, collect}
use city.Memory.Sort.{sort, text_le}
use city.Memory.Sweep.{sweep_stale}
use city.Memory.Retrieve.{Retrieval, retrieve}
use city.Memory.Manifest.{
  ContextRequest, section_order, budget_list, budget_of, json_list, selected_json,
  unsigned_manifest, projection_json,
}
use city.Memory.Pack.{entry_of, pack, empty_packing, max_sensitivity}

-- `set(a).issubset(b)`
unfoldable pub all_among : List String → List String → Bool
unfolding elem
all_among names [] = true
all_among names (s ∷ l) = if elem s names then all_among names l else false

-- The run of the task, whose envelope allows the scopes, and the time of the assembly.
unfoldable pub context_run : ContextRequest → Tx (RunRow × String)
unfolding latest_run all_among
context_run request = do
  found ← reads (λ db. latest_run request.task_id db.runs)
  run ← or_raise (core_error no_run) found
  scopes ← texts_at "memory_scopes" run.task_envelope_json
  guard (all_among (("task:" & request.task_id) ∷ scopes) request.allowed_scopes)
      (core_error scope_exceeded)
  now ← utc_now
  pure (run, now)

-- `SELECT COALESCE(MAX(aggregate_version), 0) FROM events WHERE aggregate_id = …`
unfoldable pub highest_version : String → List Event → ℕ
highest_version id [] = 0
highest_version id (e ∷ l) =
    let rest = highest_version id l in
    if e.aggregate_id =? id
    then (if ltb rest e.aggregate_version then e.aggregate_version else rest)
    else rest

unfoldable pub context_content : ContextRequest → Fields → Items → Tx Fields
unfolding dict
context_content request envelope selected = do
  task_revision ← field_of "task_revision" envelope
  intent ← field_of "intent" envelope
  acceptance_criteria ← field_of "acceptance_criteria" envelope
  constraints ← field_of "constraints" envelope
  pure (
      dict (
        (
          "task",
          obj (
              dict (
                ("task_id", str request.task_id)
                ∷ ("task_revision", task_revision)
                ∷ ("intent", intent)
                ∷ ("acceptance_criteria", acceptance_criteria)
                ∷ ("constraints", constraints)
                ∷ [])),
        )
        ∷ ("memory", arr selected)
        ∷ []))

abbrev pub context_key : ContextPack → String
context_key r = r.context_id

-- the event and the row of a manifest with its content
unfoldable pub store_context :
    ContextRequest
    → RunRow
    → Fields
    → Fields
    → String
    → String
    → ℕ
    → String
    → String
    → Tx (Unit {0})
unfolding highest_version
store_context request run manifest content context_id sensitivity high_water now key = do
  version ← reads (λ db. highest_version run.run_id db.events + 1)
  manifest_sha ← sha_json (obj manifest)
  content_sha ← sha_json (obj content)
  append_event key (record {
    aggregate_type = "run";
    aggregate_id = run.run_id;
    event_type = "run.context_assembled";
    aggregate_version = version;
    actor = request.actor;
    payload = dict (
        ("context_id", str context_id)
        ∷ ("manifest_sha256", str manifest_sha)
        ∷ ("content_sha256", str content_sha)
        ∷ ("source_event_high_water", num high_water)
        ∷ []);
    sensitivity = sensitivity;
  })
  check_canonical (obj manifest)
  check_canonical (obj content)
  insert_row context_key (λ db. db.context_packs) (λ t db. record db { context_packs = t })
      (record {
        context_id = context_id;
        task_id = request.task_id;
        run_id = run.run_id;
        manifest_sha256 = manifest_sha;
        manifest_json = manifest;
        content_sha256 = content_sha;
        content_json = content;
        event_high_water = high_water;
        created_at = now;
      })

unfoldable pub assemble_in : ContextRequest → RunRow → Retrieval → String → Tx Fields
unfolding unknown budget_list budget_of entry_of pack selected_json unsigned_manifest
    max_sensitivity projection_json context_content store_context put
assemble_in request run found key = do
  let strange = sort text_le (unknown section_order request.section_budgets)
  guard (is_empty strange) (core_error (unknown_sections strange))
  budgets ← budget_list request.section_budgets
  entries ← collect entry_of found.records
  space ← asks (λ env. env.is_space)
  let packed = pack space (budget_of budgets) entries (empty_packing found.excluded)
  high_water ← reads (λ db. db.global_sequence)
  projection ← reads (λ db. projection_json db.memories)
  now ← utc_now
  context_id ← new_id Ids.context
  projection_sha ← sha_json (arr projection)
  sensitivity ← max_sensitivity packed.selected entries
  sha ← asks (λ env. env.digest.sha256_text)
  let selected = json_list (selected_json sha) packed.selected
  let unsigned =
      unsigned_manifest request run found (budget_of budgets) packed selected high_water
        projection_sha context_id sensitivity now
  pack_sha ← sha_profile unsigned ("pack_sha256" ∷ [])
  let manifest = put "pack_sha256" (str pack_sha) unsigned
  validate "context-pack.schema.json" manifest
  content ← context_content request run.task_envelope_json selected
  store_context request run manifest content context_id sensitivity high_water now key
  projection_updated
  pure (dict (("manifest", obj manifest) ∷ ("content", obj content) ∷ []))

unfoldable pub context_call : ContextRequest → RunRow → Retrieval → Call
unfolding assemble_in
context_call request run found = record {
  prepare = pure (
      dict (
        ("command", str "assemble_context")
        ∷ ("task_id", str request.task_id)
        ∷ ("run_id", str run.run_id)
        ∷ ("query", str request.query)
        ∷ ("allowed_scopes", arr (items request.allowed_scopes))
        ∷ ("clearance", str request.clearance)
        ∷ ("section_budgets", obj request.section_budgets)
        ∷ ("task_envelope_sha256", str run.task_envelope_sha256)
        ∷ []));
  operation = assemble_in request run found;
}

abbrev sweeper : String
sweeper = "service:memory-sweeper"

-- the search and the command, once the sweep has returned
unfoldable pub assemble_swept :
    Env → ContextRequest → RunRow → String → Result (List String) × Db → Result Fields × Db
unfolding retrieve context_call invoke
assemble_swept env request run key (err e, db) = (err e, db)
assemble_swept env request run key (ok ids, db) =
    elim (retrieve request.query request.allowed_scopes request.clearance none env
      (record { db = db; calls = 0 })) [
        | err e ↦ (err e, db)
        | ok (found, s) ↦ invoke (later s.calls env) (context_call request run found) key db
      ]

-- The first environment is for the run, the second one for the search and the command, and the
-- others for the sweep.
unfoldable pub assemble_context : (ℕ → Env) → ContextRequest → String → Db → Result Fields × Db
unfolding context_run sweep_stale assemble_swept
assemble_context envs request key db =
    elim (context_run request (envs 0) (record { db = db; calls = 0 })) [
      | err e ↦ (err e, db)
      | ok ((run, now), s) ↦
          assemble_swept (envs 1) request run key
            (sweep_stale (λ n. envs (suc (suc n))) now sweeper db)
    ]
