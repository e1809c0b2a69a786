-- ===== src/Memory/Validate.antt =====
-- `MemoryService._validate` and `_reject_secret_metadata` of src/city2core/memory.py.
pub mod Reads
use city.Base.{
  ℕ, ◌-◌, ltb, leb, String, ◌=?◌, Bool, true, false, not, ◌||◌, List, [], ◌∷◌, if◌then◌else◌,
}
use city.Model.Json.{Fields}
use city.Store.Tx.{
  Tx, core_error, evidence_required, derivation_required, secret_content, secret_metadata,
  uri_user_info, revalidation_before_validity, revalidation_too_late, ◌>>=◌, ◌>>◌, guard, asks,
  time_of,
}
use city.Core.Call.{validate}
use city.Core.Action.{fields_secret}
use city.Memory.Fields.{text_at, sources, each, collect, when, some_of, has_both}

-- derived evidence names its method
unfoldable pub derivation_named : Fields → Tx (Unit {0})
unfolding has_both
derivation_named source = do
  relationship ← text_at "relationship" source
  guard
      (not (relationship =? "derived_from")
        || has_both "derivation_method" "derivation_version" source)
      (core_error derivation_required)

unfoldable pub reject_secret_metadata : Fields → Tx (Unit {0})
unfolding fields_secret
reject_secret_metadata d = do
  secret ← asks (λ env. fields_secret env.secret_metadata_key d)
  guard (not secret) (core_error secret_metadata)

unfoldable pub no_user_info : Fields → Tx (Unit {0})
no_user_info source = do
  uri ← text_at "uri" source
  named ← asks (λ env. env.has_user_info uri)
  guard (not named) (core_error uri_user_info)

-- `CRITICAL_FACT_CLASSES`
unfoldable pub is_critical : String → Bool
is_critical t =
    (t =? "credential_state")
    || (t =? "production_state")
    || (t =? "security_control")
    || (t =? "service_health")

-- `max([baseline] + times)`
unfoldable pub latest_time : ℕ → List ℕ → ℕ
latest_time baseline [] = baseline
latest_time baseline (t ∷ l) = latest_time (if ltb baseline t then t else baseline) l

-- 24 hours, in microseconds
abbrev pub critical_window : ℕ
critical_window = 86400000000

-- A critical fact is checked again within 24 hours of the last check of its sources; a negative
-- difference is no larger than that.
unfoldable pub critical_in_time : Fields → List Fields → Tx (Unit {0})
unfolding latest_time
critical_in_time record_dict refs = do
  valid_from ← time_of (← text_at "valid_from" record_dict)
  checks ← collect (λ source. text_at "revocation_checked_at" source >>= time_of) refs
  revalidate ← time_of (← text_at "revalidate_at" record_dict)
  guard (leb (revalidate - latest_time valid_from checks) critical_window)
      (core_error revalidation_too_late)

unfoldable pub validate_memory : Fields → Tx (Unit {0})
unfolding derivation_named reject_secret_metadata no_user_info is_critical critical_in_time some_of
validate_memory record_dict = do
  validate "memory.schema.json" record_dict
  memory_type ← text_at "type" record_dict
  refs ← sources record_dict
  guard (memory_type =? "hypothesis" || some_of refs) (core_error evidence_required)
  each derivation_named refs
  statement ← text_at "statement" record_dict
  leaks ← asks (λ env. env.secret_content statement)
  guard (not leaks) (core_error secret_content)
  reject_secret_metadata record_dict
  each no_user_info refs
  revalidate ← time_of (← text_at "revalidate_at" record_dict)
  valid_from ← time_of (← text_at "valid_from" record_dict)
  guard (leb valid_from revalidate) (core_error revalidation_before_validity)
  fact_class ← text_at "fact_class" record_dict
  when (is_critical fact_class) (critical_in_time record_dict refs)
