-- ===== src/Memory/Rows/Writes.antt =====
-- The postconditions of `_update_projection` and `_index_record` of src/city2core/memory.py.
use city.Base.{ℕ, String, ◌≡◌, subst, ◌∙◌, Option, some, List, ◌∷◌, ap}
use city.Model.Json.{Fields, str, arr, get, items}
use city.Store.Tables.{MemoryState, FtsRow}
use city.Store.Rows.{Db, Marker}
use city.Store.Table.{update}
use city.Store.Tx.{Env}
use city.Store.Post.{Post, view, weaken}
use city.Store.Post.Steps.{sha_json_lem, check_canonical_lem, write_lem, write_then, asks_lem}
use city.Memory.Fields.Reads.{DictsAt, text_at_lem}
use city.Memory.Text.{normalize_text, join_text}
use city.Memory.Rows.{
  memory_key, with_memories, Review, memory_moved, update_projection, unindex, without_index,
  index_record,
}
use city.Memory.Rows.Reads.{mapped, shown_source, text_column_lem, labels_text_lem, source_text_lem}

-- The rows after `_update_projection` for a record.
pub record Updated (db : Db) (id : String) (to : MemoryState) (v : ℕ) (d : Fields) (m : Marker)
    (now : String) (review : Review) (db' : Db) : Type 0 where
  pub sha : String
  pub again : String
  pub until : Option String
  pub is :
      db'
      ≡ with_memories
          (update memory_key id (memory_moved to v m now review d sha again until) db.memories)
          db

-- The environment normalizes texts by `f`.
abbrev pub Normal : (String → String) → Env → Type 0
Normal f env = (t : String) → normalize_text env t ≡ f t

-- What a row of the index shows of a record: its statement, its labels and its sources, each
-- normalized.
pub record Shown (f : String → String) (d : Fields) (x : FtsRow) : Type 0 where
  pub statement : String
  pub labels : List String
  pub refs : List Fields
  pub statement_is : get "statement" d ≡ some (str statement)
  pub labels_are : get "labels" d ≡ some (arr (items labels))
  pub refs_are : DictsAt "evidence_refs" d refs
  pub shows_statement : x.statement ≡ f statement
  pub shows_labels : x.labels ≡ f (join_text " " labels)
  pub shows_sources : x.source_metadata ≡ f (join_text " " (mapped shown_source refs))

-- The index after `_index_record` for a record.
pub record Indexed (f : String → String) (db : Db) (id : String) (d : Fields) (db' : Db)
    : Type 0 where
  pub row : FtsRow
  pub id_is : row.memory_id ≡ id
  pub shown : Shown f d row
  pub is : db' ≡ record db { memory_fts = row ∷ without_index id db.memory_fts }

same_id :
    (id : String) (d : Fields) (j : String)
    → get "memory_id" d ≡ some (str id)
    → get "memory_id" d ≡ some (str j)
    → j ≡ id
same_id id d j named found = cc

module _ {env : Env} {db : Db} (id : String) (d : Fields)
    (named : get "memory_id" d ≡ some (str id)) where
  pub update_projection_lem :
      (to : MemoryState) (v : ℕ) (m : Marker) (now : String) (review : Review)
      → Post env db
          (update_projection to v d m now review)
          (λ _ db'. Updated db id to v d m now review db')
  unfolding update_projection
  update_projection_lem to v m now review = view (sha_json_lem _) λ sha _.
      view (check_canonical_lem _) λ _ _. view (text_at_lem "revalidate_at" d) λ again _.
        view (text_column_lem _) λ until _. view (text_at_lem "memory_id" d) λ j found.
          weaken (write_lem _) λ _ db' e. record {
            sha = sha;
            again = again;
            until = until;
            is =
                subst
                  (λ k.
                    db'
                    ≡ with_memories
                        (update memory_key k (memory_moved to v m now review d sha again until)
                          db.memories)
                        db)
                  (same_id id d j named found) e;
          }

  pub index_record_lem :
      {f : String → String}
      → Normal f env
      → Post env db (index_record d) (λ _ db'. Indexed f db id d db')
  unfolding index_record unindex
  index_record_lem norm = view (text_at_lem "memory_id" d) λ j found. write_then _ _ λ _.
      view (text_at_lem "statement" d) λ statement statement_is. view (asks_lem _) λ normal e1.
        view (labels_text_lem d) λ labels (l, l_are, e2).
          view (source_text_lem d) λ source (refs, refs_are, e3). weaken (write_lem _) λ _ db' e.
            record {
              row = _;
              id_is = same_id id d j named found;
              shown = record {
                statement = statement;
                labels = l;
                refs = refs;
                statement_is = statement_is;
                labels_are = l_are;
                refs_are = refs_are;
                shows_statement = e1 ∙ norm _;
                shows_labels = e2 ∙ norm _;
                shows_sources = e3 ∙ norm _;
              };
              is =
                  e
                  ∙ ap
                      (λ k. record db {
                        memory_fts =
                            record {
                              memory_id = j;
                              statement = normal;
                              labels = labels;
                              source_metadata = source;
                            }
                            ∷ without_index k db.memory_fts;
                      })
                      (same_id id d j named found);
            }
