-- ===== src/Memory/Lifecycle/Stale.antt =====
-- `mark_stale` and `revalidate` of src/city2core/memory.py keep the tables of memory safe.
use city.Base.{
  ℕ, ◌+◌, String, ◌=?◌, ◌≡◌, refl, sym, subst, ◌∙◌, ap, true, false, some, List, [], ◌∷◌, arith,
  if◌then◌else◌, eq_iff, if-cases, inl, inr,
}
use city.Model.Json.{Json, Fields, str, num, get, put, merge, get-put}
use city.Store.Tables.{MemoryState, MemoryRow, FtsRow}
use city.Store.Rows.{Db, Marker}
use city.Store.Table.{find, update}
use city.Store.Tx.{Env}
use city.Store.Post.{Post, Views, view, look, weaken_view, seq, ends}
use city.Store.Post.Steps.{
  Any, guard_lem, sha_json_lem, utc_now_lem, pure_lem, list_of_lem, write_then,
}
use city.Store.Events.{current_version}
use city.Store.Events.Append.{append_then, marker_of}
use city.Core.Call.{dict}
use city.Core.Rows.Reads.{expect_version_lem, projection_updated_lem}
use city.Memory.Fields.Reads.{text_at_lem, dicts_of_lem, dicts_at_lem, collect_lem}
use city.Memory.Validate.Reads.{validate_memory_lem}
use city.Memory.Rows.{
  memory_key, memory_version, memory_moved, Review, no_review, without_index, unindex,
}
use city.Memory.Rows.Reads.{memory_row_lem}
use city.Memory.Rows.Writes.{Normal, Shown, Updated, update_projection_lem, index_record_lem}
use city.Memory.Stale.{is_accepted, is_stale, restated, mark_stale_in, source_pair, revalidate_in}
use city.Memory.Rows.Fresh.{Every, all_current_lem}
use city.Memory.Lifecycle.{
  is_final, is_indexed, is_indexed-without_index, Safe, SafeDb, move-Safe, Backed, Reindex,
}

-- The two fields that are set do not name the record.
pub restated-named :
    (v : ℕ) (state : String) (d : Fields) → get "memory_id" (restated v state d) ≡ get "memory_id" d
unfolding restated dict merge
restated-named v state d =
    get-put "review_state" "memory_id" (str state) (put "aggregate_version" (num v) d)
    ∙ get-put "aggregate_version" "memory_id" (num v) d

pub version_found :
    (id : String) (v : ℕ) (db : Db) (row : MemoryRow)
    → memory_version id db ≡ v
    → find memory_key id db.memories ≡ some row
    → row.aggregate_version ≡ v
unfolding memory_version current_version
version_found id v db row h f = ground (arith, h, f)

revalidated-named :
    (v : ℕ) (evidence : Json) (again : String) (d : Fields)
    → get "memory_id" (
        merge d (
          dict (
            ("aggregate_version", num v)
            ∷ ("evidence_refs", evidence)
            ∷ ("revalidate_at", str again)
            ∷ ("review_state", str "accepted")
            ∷ [])))
      ≡ get "memory_id" d
unfolding dict merge
revalidated-named v evidence again d =
    get-put "review_state" "memory_id" _ _
    ∙ get-put "revalidate_at" "memory_id" _ _
    ∙ get-put "evidence_refs" "memory_id" _ _
    ∙ get-put "aggregate_version" "memory_id" _ _

source_pair_lem : {env : Env} {db : Db} (d : Fields) → Views env db (source_pair d) Any
unfolding source_pair
source_pair_lem d =
    look (text_at_lem _ d) λ _ _. look (text_at_lem _ d) λ _ _. weaken_view (pure_lem _) λ _ _. tt

accepted_open : (s : MemoryState) → is_accepted s ≡ true → is_final s ≡ false
unfolding is_accepted is_final
accepted_open s h = ground arith

stale_open : (s : MemoryState) → is_stale s ≡ true → is_final s ≡ false
unfolding is_stale is_final
stale_open s h = ground arith

pub unindexed :
    (to : MemoryState) (id : String) (index : List FtsRow)
    → is_accepted to ≡ false
    → (j : String)
    → is_indexed j (without_index id index)
      ≡ (if id =? j then is_accepted to else is_indexed j index)
unindexed to id index h j =
    is_indexed-without_index id j index
    ∙ ap (λ b. if id =? j then b else is_indexed j index) (sym h)

pub reindexed :
    (to : MemoryState) (id : String) (row : FtsRow) (index : List FtsRow)
    → is_accepted to ≡ true
    → row.memory_id ≡ id
    → (j : String)
    → is_indexed j (row ∷ without_index id index)
      ≡ (if id =? j then is_accepted to else is_indexed j index)
unfolding is_indexed
reindexed to id row index h same j =
    ground (arith, is_indexed-without_index id j index, eq_iff id j, eq_iff row.memory_id j)

module _ (f : String → String) (rows : List MemoryRow) (id : String) (d : Fields) where
  pub unindexed_shown :
      (index : List FtsRow)
      → Every (Backed f rows) index
      → Every (Reindex f rows id d) (without_index id index)
  unfolding Every without_index
  unindexed_shown [] h = tt
  unindexed_shown (x ∷ l) h =
      if-cases (Every (Reindex f rows id d)) (x.memory_id =? id) _ _ (λ _. unindexed_shown l h.1)
        (λ other. (
          inl (h.0, ground (arith, eq_iff x.memory_id id, eq_iff id x.memory_id)),
          unindexed_shown l h.1,
        ))

  pub reindexed_shown :
      (row : FtsRow) (index : List FtsRow)
      → row.memory_id ≡ id
      → Shown f d row
      → Every (Backed f rows) index
      → Every (Reindex f rows id d) (row ∷ without_index id index)
  unfolding Every
  reindexed_shown row index same shows h = (inr (sym same, shows), unindexed_shown index h)

  pub left_shown :
      (index : List FtsRow)
      → is_indexed id index ≡ false
      → Every (Backed f rows) index
      → Every (Reindex f rows id d) index
  unfolding Every is_indexed
  left_shown [] absent h = tt
  left_shown (x ∷ l) absent h = (
    inl (h.0, ground (arith, eq_iff x.memory_id id, eq_iff id x.memory_id)),
    left_shown l (ground arith) h.1,
  )

module _ {f : String → String} {start : List MemoryRow} (db d : Db) (safe : SafeDb f start db)
    (same_rows : d.memories ≡ db.memories) (same_index : d.memory_fts ≡ db.memory_fts) where
  -- After `_update_projection` and with the index set right.
  pub update-Safe :
      (id : String) (row : MemoryRow) (to : MemoryState) (v : ℕ) (r : Fields) (m : Marker)
      (now : String) (review : Review) (db' : Db) (index : List FtsRow)
      → Updated d id to (v + 1) r m now review db'
      → find memory_key id db.memories ≡ some row
      → memory_version id db ≡ v
      → is_final row.review_state ≡ false
      → get "memory_id" r ≡ some (str id)
      → ((j : String)
          → is_indexed j index ≡ (if id =? j then is_accepted to else is_indexed j db'.memory_fts))
      → (Every (Backed f db.memories) db'.memory_fts → Every (Reindex f db.memories id r) index)
      → Safe f start db'.memories index
  update-Safe id row to v r m now review db' index updated found version free named right shown =
      subst (λ rows. Safe f start rows index)
        (sym (
          ap (λ x. x.memories) updated.is
          ∙ ap
              (update memory_key id
                (memory_moved to (v + 1) m now review r updated.sha updated.again updated.until))
              same_rows))
        (move-Safe safe id row to (v + 1) m now review r updated.sha updated.again updated.until
          index found free (let same = version_found id v db row version found in omega arith) named
          (subst
            (λ x.
              (j : String)
              → is_indexed j index ≡ (if id =? j then is_accepted to else is_indexed j x))
            (ap (λ x. x.memory_fts) updated.is ∙ same_index) right)
          (shown (
            subst (Every (Backed f db.memories))
              (sym (ap (λ x. x.memory_fts) updated.is ∙ same_index)) safe.content)))

module _ {env : Env} {db : Db} {f : String → String} {start : List MemoryRow}
    (safe : SafeDb f start db) where
  -- Marking a record stale keeps the tables of memory safe: the record leaves the index with its
  -- state, and every other record stays as it is.
  pub mark_stale_in-Safe :
      (id reason : String) (v : ℕ) (actor key : String)
      → Post env db (mark_stale_in id reason v actor key) (λ _ db'. SafeDb f start db')
  unfolding mark_stale_in unindex is_accepted
  mark_stale_in-Safe id reason v actor key = view (expect_version_lem _ _) λ _ version.
      view (memory_row_lem id) λ row found. view (guard_lem _ _) λ _ accepted.
        view (sha_json_lem _) λ _ _. view (text_at_lem "sensitivity" _) λ _ _.
          append_then _ _ _ λ event facts. view utc_now_lem λ now _.
            let named = restated-named (v + 1) "stale" row.record_json ∙ safe.named id row found in
            let review = record no_review { stale_reason = some reason } in
            seq
              (update_projection_lem id _ named MemoryState.stale (v + 1) (marker_of event) now
                review)
              λ _ db' updated. write_then _ _ λ _. view projection_updated_lem λ _ _.
                ends (pure_lem _) λ _ _.
                  update-Safe db _ safe refl refl id row MemoryState.stale v _ (marker_of event) now
                    review db' (without_index id db'.memory_fts) updated found version
                    (accepted_open row.review_state accepted) named
                    (unindexed MemoryState.stale id db'.memory_fts refl)
                    (unindexed_shown f _ id _ db'.memory_fts)

  pub revalidate_in-Safe :
      (id : String) (evidence : Json) (again : String) (v : ℕ) (actor key : String)
      → Normal f env
      → Post env db (revalidate_in id evidence again v actor key) (λ _ db'. SafeDb f start db')
  unfolding revalidate_in is_accepted
  revalidate_in-Safe id evidence again v actor key norm = view (expect_version_lem _ _) λ _ version.
      view (memory_row_lem id) λ row found. view (guard_lem _ _) λ _ stale.
        view (dicts_at_lem _ _) λ old _.
          view (collect_lem (λ _ _. Unit {0}) _ source_pair_lem old) λ _ _.
            view (list_of_lem evidence) λ items _. view (dicts_of_lem items) λ refs _.
              view (collect_lem (λ _ _. Unit {0}) _ source_pair_lem refs) λ _ _.
                view (guard_lem _ _) λ _ _. view (all_current_lem refs) λ _ _.
                  view (guard_lem _ _) λ _ _. view (validate_memory_lem _) λ _ _.
                    view (sha_json_lem _) λ _ _. view (text_at_lem "sensitivity" _) λ _ _.
                      append_then _ _ _ λ event facts. view utc_now_lem λ now _.
                        let named =
                          revalidated-named _ _ _ row.record_json ∙ safe.named id row found in
                        seq
                          (update_projection_lem id _ named MemoryState.accepted (v + 1)
                            (marker_of event) now no_review)
                          λ _ db' updated. seq (index_record_lem id _ named norm) λ _ db'' indexed.
                            view projection_updated_lem λ _ _. ends (pure_lem _) λ _ _.
                              rw indexed.is (
                                update-Safe db _ safe refl refl id row MemoryState.accepted v _
                                  (marker_of event) now no_review db' _ updated found version
                                  (stale_open row.review_state stale) named
                                  (reindexed MemoryState.accepted id indexed.row db'.memory_fts refl
                                    indexed.id_is)
                                  (reindexed_shown f _ id _ indexed.row db'.memory_fts indexed.id_is
                                    indexed.shown))
