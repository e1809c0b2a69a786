-- ===== src/Memory/Manifest.antt =====
-- The manifest that `assemble_context` of src/city2core/memory.py writes.
use city.Base.{ℕ, ◌+◌, String, ◌=?◌, Bool, List, [], ◌∷◌, if◌then◌else◌}
use city.Model.Json.{
  Json, Items, Fields, pos, negsuc, int, str, num, boolean, obj, arr, nil, cons, end, field, has,
  items,
}
use city.Store.Tables.{MemoryRow}
use city.Store.Rows.{RunRow}
use city.Store.Tx.{Tx, core_error, value_error, negative_budget, ◌>>=◌, pure, fail}
use city.Core.Call.{dict}
use city.Memory.Sort.{sort, text_le, texts_le}
use city.Memory.Retrieve.{Retrieval, Exclusion}
use city.Memory.Pack.{Selected, Packing, total_tokens}

-- The arguments of `assemble_context` beside the actor and the key.
pub record ContextRequest : Type 0 where
  pub task_id : String
  pub query : String
  pub allowed_scopes : List String
  pub clearance : String
  pub section_budgets : Fields
  pub actor : String

-- `SECTION_ORDER`
abbrev pub section_order : List String
section_order =
    "constitution" ∷ "task_envelope" ∷ "role_authority" ∷ "project_decisions" ∷ "procedures"
    ∷ "knowledge" ∷ "task_working" ∷ []

unfoldable pub ordered_sections : List String → Fields → List String
unfolding has
ordered_sections [] budgets = []
ordered_sections (s ∷ l) budgets =
    let rest = ordered_sections l budgets in if has s budgets then s ∷ rest else rest

-- `int(value)` of every budget, none of which is negative
unfoldable pub budget_list : Fields → Tx (List (String × ℕ))
budget_list end = pure []
budget_list (field s (int (pos n)) d) = do rest ← budget_list d; pure ((s, n) ∷ rest)
budget_list (field s (int (negsuc n)) d) = fail (core_error negative_budget)
budget_list (field s _ d) = fail value_error

-- `section_budgets.get(section, 0)`
unfoldable pub budget_of : List (String × ℕ) → String → ℕ
budget_of [] s = 0
budget_of ((t, n) ∷ l) s = if t =? s then n else budget_of l s

abbrev pub json_list : {A : Type 0} → (A → Json) → List A → Items
json_list f [] = nil
json_list f (x ∷ l) = cons (f x) (json_list f l)

unfoldable pub selected_json : (String → String) → Selected → Json
unfolding dict
selected_json sha x = obj (
    dict (
      ("memory_id", str x.memory_id)
      ∷ ("excerpt", str x.excerpt)
      ∷ ("excerpt_sha256", str (sha x.excerpt))
      ∷ ("section", str x.section)
      ∷ ("token_count", num x.token_count)
      ∷ []))

unfoldable pub exclusion_json : Exclusion → Json
unfolding dict
exclusion_json x = obj (dict (("memory_id", str x.memory_id) ∷ ("reason", str x.reason) ∷ []))

unfoldable pub exclusion_le : Exclusion → Exclusion → Bool
unfolding texts_le
exclusion_le a b = texts_le (a.memory_id ∷ a.reason ∷ []) (b.memory_id ∷ b.reason ∷ [])

-- `enumerate(ranked, 1)`
unfoldable pub candidates_json : ℕ → List (String × String) → Items
unfolding dict
candidates_json rank [] = nil
candidates_json rank ((id, score) ∷ l) =
    cons (obj (dict (("memory_id", str id) ∷ ("score", str score) ∷ ("rank", num rank) ∷ [])))
      (candidates_json (rank + 1) l)

unfoldable pub section_json : (String → ℕ) → Packing → String → Json
unfolding dict
section_json budget p s = obj (
    dict (
      ("name", str s)
      ∷ ("token_budget", num (budget s))
      ∷ ("token_count", num (p.used s))
      ∷ ("truncated", boolean (p.truncated s))
      ∷ []))

abbrev named : String → String → Json
named id version = obj (field "id" (str id) (field "version" (str version) end))

-- `SELECT record_json FROM memory_records ORDER BY memory_id`
unfoldable pub projection_json : List MemoryRow → Items
unfolding sort text_le
projection_json rows =
    json_list (λ r. obj r.record_json) (sort (λ a b. text_le a.memory_id b.memory_id) rows)

-- the manifest before its digest is put in
unfoldable pub unsigned_manifest :
    ContextRequest
    → RunRow
    → Retrieval
    → (String → ℕ)
    → Packing
    → Items
    → ℕ
    → String
    → String
    → String
    → String
    → Fields
unfolding dict exclusion_json exclusion_le candidates_json section_json ordered_sections sort
    total_tokens items
unsigned_manifest request run found budget p selected high_water projection_sha context_id
      sensitivity now =
    dict (
      ("schema_version", str "city2.context-pack/v1")
      ∷ ("context_id", str context_id)
      ∷ ("task_id", str request.task_id)
      ∷ ("task_envelope_sha256", str run.task_envelope_sha256)
      ∷ ("assembler", named "city2-context" "1")
      ∷ ("retrieval_policy", named "memory-fts" "1")
      ∷ ("tokenizer", named "unicode-codepoint-char4" "1")
      ∷ ("normalized_query", str found.normalized_query)
      ∷ (
        "source_snapshot",
        obj (
            dict (
              ("event_high_water", num high_water)
              ∷ ("memory_projection_sha256", str projection_sha)
              ∷ [])),
      )
      ∷ ("candidate_memory_ids", arr (items found.candidate_memory_ids))
      ∷ ("filters", arr (items found.filters))
      ∷ ("ranked_candidates", arr (candidates_json 1 found.ranked_candidates))
      ∷ ("selected", arr selected)
      ∷ ("excluded", arr (json_list exclusion_json (sort exclusion_le p.excluded)))
      ∷ (
        "tie_break",
        arr (
            items (
              "policy_priority_asc" ∷ "relevance_desc" ∷ "evidence_observed_desc" ∷ "memory_id_asc"
              ∷ [])),
      )
      ∷ (
        "sections",
        arr (
            json_list (section_json budget p)
              (ordered_sections section_order request.section_budgets)),
      )
      ∷ ("total_tokens", num (total_tokens p.selected))
      ∷ ("pack_sha256", str "")
      ∷ ("sensitivity", str sensitivity)
      ∷ ("created_at", str now)
      ∷ [])
