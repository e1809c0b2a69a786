-- ===== src/Tests/Memories.antt =====
-- Memories of src/city2core/memory.py from candidate to accepted record, searches and packs.
use city.Base.{ℕ, String, ◌≡◌, ◌&◌, ◌⊎◌, refl, Bool, false, List, some, [], ◌∷◌}
use Prim.Native.Char.{Char}
use city.Model.Json.{Json, Items, Fields, str, num, obj, arr, nil, cons, get, end, field, items}
use city.Store.Tables.{MemoryState, MemoryRow}
use city.Store.Rows.{Db}
use city.Store.Tx.{Env}
use city.Store.Post.{Post, Views}
use city.Core.Call.{invoke, dict}
use city.Core.Machine.{empty_db}
use city.Memory.Text.{normalize_text}
use city.Memory.Review.{review_candidate_in, verify_source_checks}
use city.Memory.Review.Checks.{Checked, verify_source_checks-Checked}
use city.Memory.Review.Approval.{Reviewed, review_candidate-Reviewed}
use city.Memory.Lifecycle.{SafeDb}
use city.Memory.Machine.{MemoryMethod, memory_call, memory_call-Safe, empty-Safe}
use city.Memory.Machine.Sweeps.{reaches-Safe, call, begin, sweep}
use city.Memory.Sweep.{sweep_stale}
use city.Memory.Retrieve.{Ranked, retrieve, sensitivity_rank}
use city.Memory.Retrieve.Permitted.{Answers, retrieve-Permitted}
use city.Memory.Pack.{Entry, pack, empty_packing}
use city.Memory.Pack.Bounds.{Fits, pack-Fits}
use city.Tests.Data.{test_env, digit}

abbrev source : Fields
source = field "uri" (str "file:plan") (
    field "content_sha256" (str "sha") (
      field "validity_status" (str "current") (
        field "relationship" (str "asserted_by")
          (field "observed_at" (str "1Z") (field "revocation_checked_at" (str "1Z") end)))))

abbrev memory_input : Fields
memory_input = field "scope" (str "project:map") (
    field "type" (str "fact") (
      field "statement" (str "The river is west") (
        field "evidence_refs" (arr (cons (obj source) nil)) (
          field "asserted_by" (str "human:ada") (
            field "owner" (str "ada") (
              field "valid_from" (str "1Z") (
                field "fact_class" (str "geography") (
                  field "revalidation_policy" (str "yearly") (
                    field "revalidate_at" (str "lateZ") (
                      field "confidence" (num 1) (
                        field "sensitivity" (str "internal")
                          (field "labels" (arr (items ("river" ∷ []))) end))))))))))))

abbrev create_memory : MemoryMethod
create_memory = MemoryMethod.create_candidate memory_input "agent:bob"

abbrev candidate_db : Db
candidate_db = (invoke test_env (memory_call create_memory) "key-1" empty_db).1

-- how texts are normalized here
abbrev normal : String → String
normal t = normalize_text test_env t

-- A later call has other readings of the random source.
abbrev later_env : String → Env
later_env prefix = record test_env { uuid7 = λ n. prefix & digit n }

abbrev accept_memory : MemoryMethod
accept_memory =
    MemoryMethod.review_candidate "mem_1" "accepted" 1 "human:ada" (cons (obj source) nil) end

abbrev accepted_db : Db
accepted_db = (invoke (later_env "b") (memory_call accept_memory) "key-2" candidate_db).1

review_candidate-Reviewed_example :
    Post test_env candidate_db
      (review_candidate_in "mem_1" "accepted" 1 "human:ada" (cons (obj source) nil) end "key-2")
      (λ result _.
        Reviewed candidate_db "mem_1" "accepted" 1 "human:ada" (cons (obj source) nil) result)
review_candidate-Reviewed_example =
    review_candidate-Reviewed {env = test_env} {db = candidate_db} "mem_1" "accepted" 1 "human:ada"
      (cons (obj source) nil) end "key-2"

verify_source_checks-Checked_example :
    Views test_env candidate_db
      (verify_source_checks memory_input (cons (obj source) nil))
      (λ _. Checked memory_input (cons (obj source) nil))
verify_source_checks-Checked_example =
    verify_source_checks-Checked {env = test_env} {db = candidate_db} memory_input
      (cons (obj source) nil)

memory_call-Safe_example : SafeDb normal [] candidate_db
unfolding normalize_text
memory_call-Safe_example =
    memory_call-Safe normal test_env create_memory "key-1" [] empty_db (λ t. refl)
      (empty-Safe normal)

abbrev swept_db : Db
swept_db = (sweep_stale (λ n. later_env "c") "lateZ" "service:memory-sweeper" accepted_db).1

reaches-Safe_example : SafeDb normal swept_db.memories swept_db
unfolding normalize_text
reaches-Safe_example = reaches-Safe normal swept_db (
    sweep (λ n. later_env "c") "lateZ" "service:memory-sweeper" accepted_db (λ n t. refl)
      (call (later_env "b") accept_memory "key-2" candidate_db (λ t. refl)
        (call test_env create_memory "key-1" empty_db (λ t. refl) begin)))

retrieve-Permitted_example :
    Views test_env accepted_db
      (retrieve "river" ("project:map" ∷ []) "internal" (some "1Z"))
      (λ found.
        (rank : ℕ) × (sensitivity_rank "internal" ≡ some rank)
        × ((found.records ≡ [])
            ⊎ Answers test_env accepted_db ("project:map" ∷ []) rank (some "1Z") found))
retrieve-Permitted_example =
    retrieve-Permitted {env = test_env} {db = accepted_db} "river" ("project:map" ∷ []) "internal"
      (some "1Z")

abbrev ranked : ℕ → ℕ → String → Ranked
ranked priority score id = record {
  priority = priority;
  score_units = score;
  inverted_time = "8";
  memory_id = id;
  record_json = end;
}

abbrev three_ranked : List Ranked
three_ranked = ranked 50 7 "mem_2" ∷ ranked 10 1 "mem_3" ∷ ranked 50 7 "mem_1" ∷ []

abbrev entry : String → Entry
entry id = record {
  memory_id = id;
  section = "knowledge";
  statement = "The river is west of the town";
  sensitivity = "internal";
}

abbrev no_space : Char → Bool
no_space c = false

abbrev ten_tokens : String → ℕ
ten_tokens s = 10

pack-Fits_example :
    Fits ten_tokens
      (pack no_space ten_tokens (entry "mem_1" ∷ entry "mem_2" ∷ []) (empty_packing []))
pack-Fits_example = pack-Fits no_space ten_tokens (entry "mem_1" ∷ entry "mem_2" ∷ []) []

abbrev states : List MemoryRow → List MemoryState
states [] = []
states (r ∷ t) = r.review_state ∷ states t

-- The candidate is created and accepted by another, and a sweep after it is due marks it stale.
memory_course :
    (states candidate_db.memories ≡ MemoryState.candidate ∷ [])
    × (states accepted_db.memories ≡ MemoryState.accepted ∷ [])
    × (states swept_db.memories ≡ MemoryState.stale ∷ [])
unfolding city.Core.Call.get_or city.Core.Call.required city.Core.Call.validate
    city.Memory.Create.create_candidate city.Memory.Fields.collect city.Memory.Fields.dicts_at
    city.Memory.Fields.each city.Memory.Fields.text_at city.Memory.Fields.texts_at
    city.Memory.Fields.when city.Memory.Machine.memory_call city.Memory.Review.review_candidate
    city.Memory.Rows.memory_row city.Memory.Rows.memory_version
    city.Memory.Sweep.mark_source_changed city.Memory.Sweep.sweep_stale
    city.Model.Canonical.canonical_json city.Model.Canonical.digest_profile
    city.Model.Ids.parse_time city.Model.Json.items city.Store.Events.append_event
    city.Store.Events.event_from_row city.Store.Events.expect_version city.Store.Events.latest
    city.Store.Events.projection_updated city.Store.Tx.accepts city.Store.Tx.asks
    city.Store.Tx.check_canonical city.Store.Tx.fault city.Store.Tx.field_of city.Store.Tx.guard
    city.Store.Tx.insert_row city.Store.Tx.list_of city.Store.Tx.new_id city.Store.Tx.pure
    city.Store.Tx.reads city.Store.Tx.sha_json city.Store.Tx.time_of city.Store.Tx.utc_now
    city.Store.Tx.write city.Store.Tx.writer city.Store.Tx.◌>>=◌
memory_course = (refl, refl, refl)
