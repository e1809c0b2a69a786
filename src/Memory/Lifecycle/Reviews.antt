-- ===== src/Memory/Lifecycle/Reviews.antt =====
-- `review_candidate` and `_supersede_in_tx` of src/city2core/memory.py keep the tables of memory
-- safe.
use city.Base.{
  ℕ, ◌+◌, String, ◌=?◌, ◌&&◌, ◌≡◌, refl, sym, ◌∙◌, ap, Bool, true, false, Option, none, some, List,
  [], ◌∷◌, arith, if◌then◌else◌, text_eq,
}
use city.Model.Json.{Items, Fields}
use city.Store.Tables.{MemoryState, memory_state_text, MemoryRow, FtsRow}
use city.Store.Rows.{Db}
use city.Store.Table.{find}
use city.Store.Tx.{Env, Tx, pure}
use city.Store.Post.{Post, Views, view, look, weaken, weaken_view, seq, returns}
use city.Store.Post.Steps.{
  Any, guard_lem, or_raise_lem, reads_lem, asks_lem, uuid4_lem, sha_json_lem, utc_now_lem,
  new_id_lem, pure_lem, check_canonical_lem, insert_then, write_lem,
}
use city.Store.Events.{current_version}
use city.Store.Events.Append.{append_then, marker_of}
use city.Core.Rows.Reads.{expect_version_lem, projection_updated_lem}
use city.Memory.Fields.{each, when, text_at}
use city.Memory.Fields.Reads.{text_at_lem, texts_at_lem, dicts_at_lem, collect_lem, when_lem}
use city.Memory.Validate.Reads.{validate_memory_lem}
use city.Memory.Rows.{memory_key, memory_version, without_index, unindex, no_review}
use city.Memory.Rows.Reads.{memory_row_lem}
use city.Memory.Rows.Fresh.{branch_view, split_view}
use city.Memory.Rows.Writes.{Normal, update_projection_lem, index_record_lem}
use city.Memory.Stale.{is_accepted}
use city.Memory.Review.{
  is_candidate, feedback_human, contradicts, first_conflict, find_conflict, settle_conflict, decide,
  supersede_one, supersede, reviewed, review_candidate_in,
}
use city.Memory.Review.Checks.{verify_source_checks-Checked}
use city.Memory.Review.Approval.{reviewer_allowed_lem}
use city.Memory.Lifecycle.{is_final, is_indexed, accepted_at, SafeDb}
use city.Memory.Lifecycle.Stale.{
  restated-named, update-Safe, unindexed, reindexed, unindexed_shown, reindexed_shown, left_shown,
}

-- Neither the records nor the index have changed.
abbrev Aside : Db → Db → Type 0
Aside db db' = (db'.memories ≡ db.memories) × (db'.memory_fts ≡ db.memory_fts)

module _ {env : Env} {db : Db} where
  contradicts_lem : (d : Fields) (r : MemoryRow) → Views env db (contradicts d r) Any
  unfolding contradicts
  contradicts_lem d r = look (text_at_lem _ _) λ _ _. look (text_at_lem _ _) λ _ _.
      look (texts_at_lem _ _) λ _ _. look (texts_at_lem _ _) λ _ _. look (texts_at_lem _ _) λ _ _.
        look (text_at_lem _ _) λ _ _.
          look (text_at_lem _ _) λ _ _. look (asks_lem _) λ _ _. weaken_view (pure_lem _) λ _ _. tt

  first_conflict_lem :
      (d : Fields) (rows : List MemoryRow) → Views env db (first_conflict d rows) Any
  unfolding first_conflict
  first_conflict_lem d [] = weaken_view (pure_lem _) λ _ _. tt
  first_conflict_lem d (r ∷ rows) = look (contradicts_lem d r) λ against _.
      split_view against _ _ (λ _. weaken_view (pure_lem _) λ _ _. tt)
        (λ _. first_conflict_lem d rows)

  find_conflict_lem : (d : Fields) → Views env db (find_conflict d) Any
  unfolding find_conflict
  find_conflict_lem d = look (text_at_lem "type" d) λ memory_type _. look (text_at_lem _ d) λ _ _.
      look (reads_lem _) λ rows _.
        branch_view (memory_type =? "fact") (first_conflict d rows) (pure none)
          (λ _. first_conflict_lem d rows) (λ _. weaken_view (pure_lem none) λ _ _. tt)

  relationship_lem : (d : Fields) → Views env db (text_at "relationship" d) Any
  relationship_lem d = weaken_view (text_at_lem _ d) λ _ _. tt

  feedback_human_lem : (d : Fields) → Views env db (feedback_human d) Any
  unfolding feedback_human
  feedback_human_lem d = look (text_at_lem "asserted_by" d) λ _ _. look (dicts_at_lem _ d) λ refs _.
      look (collect_lem (λ _ _. Unit {0}) _ relationship_lem refs)
        λ _ _. weaken_view (guard_lem _ _) λ _ _. tt

  settle_conflict-Aside :
      (id : String) (d : Fields) (conflict : Option MemoryRow)
      → Post env db (settle_conflict id d conflict) (λ _ db'. Aside db db')
  unfolding settle_conflict
  settle_conflict-Aside id d none = returns _ (refl, refl)
  settle_conflict-Aside id d (some other) = view uuid4_lem λ _ _. view (text_at_lem _ d) λ _ _.
      view (text_at_lem "fact_class" d) λ _ _.
        view (check_canonical_lem _)
          λ _ _. view utc_now_lem λ _ _. insert_then _ _ _ _ _ λ t there. returns _ (refl, refl)

  decide-Aside :
      (id : String) (wanted : MemoryState) (d : Fields) (checks : Items)
      → Post env db (decide id wanted d checks) (λ _ db'. Aside db db')
  unfolding decide
  decide-Aside id MemoryState.accepted d checks =
      view (verify_source_checks-Checked d checks) λ _ _. view (text_at_lem "type" d) λ _ _.
        view (when_lem _ _ (feedback_human_lem d))
          λ _ _. view (find_conflict_lem d) λ conflict _. settle_conflict-Aside id d conflict
  decide-Aside id MemoryState.candidate d checks = returns _ (refl, refl)
  decide-Aside id MemoryState.rejected d checks = returns _ (refl, refl)
  decide-Aside id MemoryState.stale d checks = returns _ (refl, refl)
  decide-Aside id MemoryState.superseded d checks = returns _ (refl, refl)
  decide-Aside id MemoryState.quarantined d checks = returns _ (refl, refl)

  -- what runs only if a test succeeds
  when_post :
      (b : Bool) (m : Tx (Unit {0})) (Q : Db → Type 0)
      → (b ≡ true → Post env db m (λ _ db'. Q db'))
      → (b ≡ false → Q db)
      → Post env db (when b m) (λ _ db'. Q db')
  unfolding when
  when_post true m Q f g = f refl
  when_post false m Q f g = returns _ (g refl)

version_of :
    (id : String) (db : Db) (row : MemoryRow)
    → find memory_key id db.memories ≡ some row
    → memory_version id db ≡ row.aggregate_version
unfolding memory_version current_version
version_of id db row f = ground (arith, f)

candidate_open : (s : MemoryState) → is_candidate s ≡ true → is_final s ≡ false
unfolding is_candidate is_final
candidate_open s h = ground arith

candidate_unindexed : (s : MemoryState) → is_candidate s ≡ true → is_accepted s ≡ false
unfolding is_candidate is_accepted
candidate_unindexed s h = ground arith

accepted_free : (s : MemoryState) (b : Bool) → (is_accepted s && b) ≡ true → is_final s ≡ false
unfolding is_accepted is_final
accepted_free s b h = ground arith

-- A record that the index does not have is left out of it by leaving it alone.
left_alone :
    (to : MemoryState) (id : String) (index : List FtsRow)
    → is_accepted to ≡ false
    → is_indexed id index ≡ false
    → (j : String) → is_indexed j index ≡ (if id =? j then is_accepted to else is_indexed j index)
left_alone to id index h absent j = at (id =? j) refl
  where
    at :
        (b : Bool)
        → (id =? j) ≡ b
        → is_indexed j index ≡ (if b then is_accepted to else is_indexed j index)
    at true same = ap (λ k. is_indexed k index) (sym (text_eq id j same)) ∙ absent ∙ sym h
    at false other = refl

module _ {env : Env} {f : String → String} {start : List MemoryRow} where
  supersede_one-Safe :
      {db : Db}
      → SafeDb f start db
      → (key : String) (d : Fields) (actor now old_id : String)
      → Post env db (supersede_one key d actor now old_id) (λ _ db'. SafeDb f start db')
  unfolding supersede_one unindex
  supersede_one-Safe {db} safe key d actor now old_id = view (memory_row_lem old_id) λ old found.
      view (text_at_lem _ d) λ scope _. view (guard_lem _ _) λ _ both. view (text_at_lem _ d) λ _ _.
        view (sha_json_lem _) λ _ _. view (text_at_lem "sensitivity" _) λ _ _.
          append_then _ _ _ λ event facts.
            let named =
              restated-named (old.aggregate_version + 1) "superseded" old.record_json
              ∙ safe.named old_id old found in
            seq
              (update_projection_lem old_id _ named MemoryState.superseded
                (old.aggregate_version + 1) (marker_of event) now no_review)
              λ _ db' updated. weaken (write_lem _) λ _ db'' e. rw e (
                update-Safe db _ safe refl refl old_id old MemoryState.superseded
                  old.aggregate_version _ (marker_of event) now no_review db'
                  (without_index old_id db'.memory_fts) updated found
                  (version_of old_id db old found) (accepted_free old.review_state _ both) named
                  (unindexed MemoryState.superseded old_id db'.memory_fts refl)
                  (unindexed_shown f _ old_id _ db'.memory_fts))

  each-Safe :
      {A : Type 0} (body : A → Tx (Unit {0}))
      → ((db : Db)
          → SafeDb f start db
          → (x : A) → Post env db (body x) (λ _ db'. SafeDb f start db'))
      → (l : List A) (db : Db) → SafeDb f start db
      → Post env db (each body l) (λ _ db'. SafeDb f start db')
  unfolding each
  each-Safe body h [] db safe = returns _ safe
  each-Safe body h (x ∷ l) db safe = seq (h db safe x) λ _ db' safe'. each-Safe body h l db' safe'

  supersede-Safe :
      {db : Db}
      → SafeDb f start db
      → (key : String) (d : Fields) (actor now : String)
      → Post env db (supersede key d actor now) (λ _ db'. SafeDb f start db')
  unfolding supersede
  supersede-Safe {db} safe key d actor now =
      view (texts_at_lem _ d) λ ids _.
        each-Safe _ (λ db' safe' id. supersede_one-Safe safe' key d actor now id) ids db safe

module _ {f : String → String} {start : List MemoryRow} (db : Db) (safe : SafeDb f start db) where
  -- a candidate is not in the index
  absent :
      (id : String) (row : MemoryRow) (d db' : Db)
      → find memory_key id db.memories ≡ some row
      → d.memory_fts ≡ db.memory_fts
      → db'.memory_fts ≡ d.memory_fts
      → is_candidate row.review_state ≡ true
      → is_indexed id db'.memory_fts ≡ false
  absent id row d db' found before after candidate =
      ap (is_indexed id) (after ∙ before)
      ∙ safe.indexed id
      ∙ ap accepted_at found
      ∙ candidate_unindexed row.review_state candidate

module _ {env : Env} {db : Db} {f : String → String} {start : List MemoryRow} (norm : Normal f env)
    (safe : SafeDb f start db) where
  pub review_candidate_in-Safe :
      (id decision : String) (v : ℕ) (reviewer : String) (checks : Items) (independence : Fields)
      (key : String)
      → Post env db
          (review_candidate_in id decision v reviewer checks independence key)
          (λ _ db'. SafeDb f start db')
  unfolding review_candidate_in
  review_candidate_in-Safe id decision v reviewer checks independence key =
      view (or_raise_lem _ _) λ wanted _. view (expect_version_lem _ _) λ _ version.
        view (memory_row_lem id) λ row found. view (guard_lem _ _) λ _ candidate.
          view (reviewer_allowed_lem _ wanted reviewer) λ _ _.
            seq (decide-Aside id wanted row.record_json checks) λ state d aside.
              view (validate_memory_lem _) λ _ _. view utc_now_lem λ now _.
                view (sha_json_lem _) λ _ _. view (sha_json_lem _) λ checks_sha _.
                  view (text_at_lem "sensitivity" _) λ _ _. append_then _ _ _ λ event facts.
                    let named =
                      restated-named (v + 1) (memory_state_text state) row.record_json
                      ∙ safe.named id row found in
                    let land =
                      update-Safe db _ safe aside.0 aside.1 id row state v _ (marker_of event) now
                        (reviewed state reviewer now) in
                    seq
                      (update_projection_lem id _ named state (v + 1) (marker_of event) now
                        (reviewed state reviewer now))
                      λ _ db' updated. view (new_id_lem _) λ review_id _.
                        view (check_canonical_lem _) λ _ _. insert_then _ _ _ _ _ λ t there.
                          seq
                            (when_post (is_accepted state) _ (SafeDb f start)
                              (λ accepted. seq (index_record_lem id _ named norm) λ _ db'' indexed.
                                supersede-Safe
                                  (rw indexed.is (
                                    land db' _ updated found version
                                      (candidate_open row.review_state candidate) named
                                      (reindexed state id indexed.row db'.memory_fts accepted
                                        indexed.id_is)
                                      (reindexed_shown f _ id _ indexed.row db'.memory_fts
                                        indexed.id_is indexed.shown)))
                                  key _ reviewer now)
                              (λ other.
                                land db' db'.memory_fts updated found version
                                  (candidate_open row.review_state candidate) named
                                  (left_alone state id db'.memory_fts other (
                                    absent db safe id row d db' found aside.1
                                      (ap (λ x. x.memory_fts) updated.is) candidate))
                                  (left_shown f _ id _ db'.memory_fts (
                                    absent db safe id row d db' found aside.1
                                      (ap (λ x. x.memory_fts) updated.is) candidate))))
                            λ _ db'' safe'. view projection_updated_lem λ _ _. returns _ safe'
