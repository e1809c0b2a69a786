-- ===== src/Memory/Validate/Reads.antt =====
-- `_validate` of src/city2core/memory.py only reads.
use city.Base.{String, List}
use city.Model.Json.{Fields}
use city.Store.Rows.{Db}
use city.Store.Tx.{Env, ◌>>=◌, time_of}
use city.Memory.Fields.{text_at}
use city.Store.Post.{Views, look, weaken_view}
use city.Store.Post.Steps.{Any, guard_lem, asks_lem, time_of_lem}
use city.Core.Rows.Reads.{validate_lem}
use city.Memory.Fields.Reads.{text_at_lem, dicts_at_lem, collect_lem, each_lem, when_lem}
use city.Memory.Validate.{
  derivation_named, reject_secret_metadata, no_user_info, critical_in_time, validate_memory,
}

module _ {env : Env} {db : Db} where
  derivation_named_lem : (source : Fields) → Views env db (derivation_named source) Any
  unfolding derivation_named
  derivation_named_lem source =
      look (text_at_lem _ source) λ _ _. weaken_view (guard_lem _ _) λ _ _. tt

  reject_secret_metadata_lem : (d : Fields) → Views env db (reject_secret_metadata d) Any
  unfolding reject_secret_metadata
  reject_secret_metadata_lem d = look (asks_lem _) λ _ _. weaken_view (guard_lem _ _) λ _ _. tt

  no_user_info_lem : (source : Fields) → Views env db (no_user_info source) Any
  unfolding no_user_info
  no_user_info_lem source =
      look (text_at_lem _ source)
        λ _ _. look (asks_lem _) λ _ _. weaken_view (guard_lem _ _) λ _ _. tt

  time_at : (k : String) (d : Fields) → Views env db (text_at k d >>= time_of) Any
  time_at k d = look (text_at_lem k d) λ t _. weaken_view (time_of_lem t) λ _ _. tt

  critical_in_time_lem :
      (d : Fields) (refs : List Fields) → Views env db (critical_in_time d refs) Any
  unfolding critical_in_time
  critical_in_time_lem d refs = look (text_at_lem _ d) λ _ _. look (time_of_lem _) λ _ _.
      look (collect_lem (λ _ _. Unit {0}) _ (λ source. time_at _ source) refs) λ _ _.
        look (text_at_lem _ d)
          λ _ _. look (time_of_lem _) λ _ _. weaken_view (guard_lem _ _) λ _ _. tt

  pub validate_memory_lem : (d : Fields) → Views env db (validate_memory d) Any
  unfolding validate_memory
  validate_memory_lem d = look (validate_lem _ d) λ _ _. look (text_at_lem "type" d) λ _ _.
      look (dicts_at_lem _ d) λ refs _. look (guard_lem _ _) λ _ _.
        look (each_lem _ derivation_named_lem refs) λ _ _. look (text_at_lem "statement" d) λ _ _.
          look (asks_lem _) λ _ _. look (guard_lem _ _) λ _ _.
            look (reject_secret_metadata_lem d) λ _ _.
              look (each_lem _ no_user_info_lem refs) λ _ _. look (text_at_lem _ d) λ _ _.
                look (time_of_lem _) λ _ _. look (text_at_lem _ d) λ _ _.
                  look (time_of_lem _) λ _ _. look (guard_lem _ _) λ _ _.
                    look (text_at_lem "fact_class" d)
                      λ _ _. when_lem _ _ (critical_in_time_lem d refs)
