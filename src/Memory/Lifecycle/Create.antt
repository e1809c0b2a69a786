-- ===== src/Memory/Lifecycle/Create.antt =====
-- `create_candidate` of src/city2core/memory.py: what it returns is stored, and it keeps the tables
-- of memory safe.
use city.Base.{
  String, ◌≡◌, refl, sym, subst, ◌∙◌, ap, ◌⊎◌, inl, inr, Bool, true, false, ◌&&◌, Option, none,
  some, List, [], ◌∷◌, arith, if◌then◌else◌, eq_refl, ◌=?◌, and_parts, text_eq,
}
use mathlib.Core.List.{Mem, mem-cons_self, mem-cons_of_mem}
use city.Model.Json.{Json, Fields, str, obj, get, merge, end, field, get-put}
use city.Model.Canonical.{sha256_json}
use city.Store.Tables.{MemoryState, MemoryRow}
use city.Store.Rows.{Db, Event, Marker}
use city.Store.Table.{find, insert, find-insert, find-insert_new}
use city.Store.Tx.{Env, guard, pure, sqlite_error}
use city.Store.Post.{Post, Views, view, look, weaken, weaken_view, seq, returns}
use city.Store.Post.Steps.{
  Any, guard_lem, reads_lem, sha_json_lem, utc_now_lem, new_id_lem, pure_lem, check_canonical_lem,
  insert_row_lem, field_of_lem,
}
use city.Store.Events.{logged}
use city.Store.Events.Append.{append_then, marker_of}
use city.Core.Rows.Reads.{projection_updated_lem}
use city.Memory.Fields.Reads.{text_at_lem}
use city.Memory.Validate.Reads.{validate_memory_lem}
use city.Memory.Rows.{
  memory_key, with_memories, same_candidate, candidate_profile, insert_projection,
}
use city.Memory.Rows.Reads.{text_column_lem, labels_text_lem, source_text_lem}
use city.Memory.Create.{expiry_part, candidate_record, insert_candidate, create_candidate_in}
use city.Memory.Stale.{is_accepted}
use city.Memory.Lifecycle.{Safe, SafeDb, insert-Safe}

-- The row that `_insert_projection` adds for a record.
pub record Inserted (sha : String) (db : Db) (d : Fields) (db' : Db) : Type 0 where
  pub row : MemoryRow
  pub rows : List MemoryRow
  pub inserted : insert memory_key row db.memories ≡ some rows
  pub is : db' ≡ with_memories rows db
  pub record_is : row.record_json ≡ d
  pub named : get "memory_id" d ≡ some (str row.memory_id)
  pub state : row.review_state ≡ MemoryState.candidate
  pub scope_is : get "scope" d ≡ some (str row.scope)
  pub sha_is : row.candidate_sha256 ≡ sha

module _ {env : Env} {db : Db} where
  free_lem :
      (taken : Option MemoryRow)
      → Views env db (elim taken [ some r ↦ guard false sqlite_error | none ↦ pure tt ]) Any
  free_lem none = weaken_view (pure_lem tt) λ _ _. tt
  free_lem (some r) = weaken_view (guard_lem _ _) λ _ _. tt

  insert_projection-Inserted :
      (d : Fields) (sha : String) (m : Marker) (now : String)
      → Post env db (insert_projection d sha m now) (λ _ db'. Inserted sha db d db')
  unfolding insert_projection
  insert_projection-Inserted d sha m now = view (text_at_lem "memory_id" d) λ id named.
      view (text_at_lem "scope" d) λ scope scoped. view (text_at_lem "type" d) λ memory_type _.
        view (sha_json_lem _) λ record_sha _. view (text_at_lem "statement" d) λ statement _.
          view (labels_text_lem d) λ labels _. view (source_text_lem d) λ source _.
            view (check_canonical_lem _) λ _ _. view (text_at_lem "created_by" d) λ created_by _.
              view (text_at_lem "revalidate_at" d) λ again _.
                view (text_at_lem "valid_from" d) λ from _. view (text_column_lem _) λ until _.
                  view (text_at_lem "sensitivity" d) λ sensitivity _.
                    view (text_at_lem "created_at" d) λ created_at _. view (guard_lem _ _) λ _ _.
                      view (reads_lem _) λ taken _. view (free_lem taken) λ _ _.
                        weaken (insert_row_lem _ _ _ _) λ _ db' (t, there, same). record {
                          row = _;
                          rows = t;
                          inserted = there;
                          is = same;
                          record_is = refl;
                          named = named;
                          state = refl;
                          scope_is = scoped;
                          sha_is = refl;
                        }

-- The candidate that is made of the fields: they are copied, with the actor and the first state.
pub record IsCandidate (fields : Fields) (actor : String) (d : Fields) : Type 0 where
  pub scope : get "scope" d ≡ get "scope" fields
  pub memory_type : get "type" d ≡ get "type" fields
  pub statement : get "statement" d ≡ get "statement" fields
  pub evidence_refs : get "evidence_refs" d ≡ get "evidence_refs" fields
  pub fact_class : get "fact_class" d ≡ get "fact_class" fields
  pub labels : get "labels" d ≡ get "labels" fields
  pub created_by : get "created_by" d ≡ some (str actor)
  pub review_state : get "review_state" d ≡ some (str "candidate")

-- The record is that of a row that was there, in the scope and with the digest, and nothing has
-- changed.
pub record Reused (scope sha : String) (db : Db) (d : Fields) (db' : Db) : Type 0 where
  pub row : MemoryRow
  pub stored : Mem row db.memories
  pub scope_is : row.scope ≡ scope
  pub sha_is : row.candidate_sha256 ≡ sha
  pub record_is : row.record_json ≡ d
  pub same : db' ≡ db

same_candidate_lem :
    (scope sha : String) (l : List MemoryRow) (r : MemoryRow)
    → same_candidate scope sha l ≡ some r
    → Mem r l × (r.scope ≡ scope) × (r.candidate_sha256 ≡ sha)
unfolding same_candidate
same_candidate_lem scope sha [] r h = cc
same_candidate_lem scope sha (x ∷ l) r h =
    branch (x.scope =? scope && x.candidate_sha256 =? sha) refl (same_candidate_lem scope sha l r) h
  where
    branch :
        (b : Bool)
        → (x.scope =? scope && x.candidate_sha256 =? sha) ≡ b
        → (same_candidate scope sha l ≡ some r
            → Mem r l × (r.scope ≡ scope) × (r.candidate_sha256 ≡ sha))
        → ◌≡◌ {A = Option MemoryRow} (if b then some x else same_candidate scope sha l) (some r)
        → Mem r (x ∷ l) × (r.scope ≡ scope) × (r.candidate_sha256 ≡ sha)
    branch true t later found =
        let (a, c) = and_parts (x.scope =? scope) (x.candidate_sha256 =? sha) t in
        let same : x ≡ r = cc in
        subst (λ y. Mem y (x ∷ l) × (y.scope ≡ scope) × (y.candidate_sha256 ≡ sha)) same
          (mem-cons_self, text_eq _ _ a, text_eq _ _ c)
    branch false t later found =
        let rest = later found in (mem-cons_of_mem x rest.0, rest.1, rest.2)

-- The record is a new candidate, under a name that was free, with one event.
pub record New (sha : String) (db : Db) (d : Fields) (db' : Db) : Type 0 where
  pub row : MemoryRow
  pub event : Event
  pub free : find memory_key row.memory_id db.memories ≡ none
  pub found : find memory_key row.memory_id db'.memories ≡ some row
  pub record_is : row.record_json ≡ d
  pub named : get "memory_id" d ≡ some (str row.memory_id)
  pub state : row.review_state ≡ MemoryState.candidate
  pub scope_is : get "scope" d ≡ some (str row.scope)
  pub sha_is : row.candidate_sha256 ≡ sha
  pub events : db'.events ≡ event ∷ db.events

New-row :
    (sha : String) (db : Db) (event : Event) (d : Fields) (db' : Db)
    → Inserted sha (logged event db) d db'
    → New sha db d db'
New-row sha db event d db' i = record {
  row = i.row;
  event = event;
  free = find-insert_new memory_key i.row db.memories i.rows i.inserted;
  found =
      ap (λ x. find memory_key i.row.memory_id x.memories) i.is
      ∙ find-insert memory_key i.row db.memories i.rows i.row.memory_id i.inserted
      ∙ own i.row.memory_id i.row (find memory_key i.row.memory_id db.memories);
  record_is = i.record_is;
  named = i.named;
  state = i.state;
  scope_is = i.scope_is;
  sha_is = i.sha_is;
  events = ap (λ x. x.events) i.is;
}
  where
    own :
        (id : String) (r : MemoryRow) (o : Option MemoryRow)
        → ◌≡◌ {A = Option MemoryRow} (if city.Base.◌=?◌ id id then some r else o) (some r)
    own id r o = ground (arith, eq_refl id)

candidate_rejected : (s : MemoryState) → s ≡ MemoryState.candidate → is_accepted s ≡ false
unfolding is_accepted
candidate_rejected s h = ground arith

Inserted-Safe :
    {f : String → String} {start : List MemoryRow} (sha : String) (db d' : Db) (d : Fields)
    (db' : Db)
    → d'.memories ≡ db.memories
    → d'.memory_fts ≡ db.memory_fts
    → Inserted sha d' d db'
    → SafeDb f start db
    → SafeDb f start db'
Inserted-Safe {f} {start} sha db d' d db' rows index i safe = subst (SafeDb f start) (sym i.is) (
    insert-Safe
      (subst (λ r. Safe f start r d'.memory_fts) (sym rows)
        (subst (Safe f start db.memories) (sym index) safe))
      i.row i.rows i.inserted (ap (get "memory_id") i.record_is ∙ i.named)
      (candidate_rejected i.row.review_state i.state))

-- An expiry changes no other field.
with_expiry :
    (fields base : Fields) (k : String) (v : Option Json)
    → get k base ≡ v
    → ("valid_until" =? k) ≡ false
    → get k (merge base (expiry_part fields)) ≡ v
unfolding merge expiry_part
with_expiry fields base k v found other = at (get "valid_until" fields)
  where
    at :
        (o : Option Json)
        → get k (merge base (elim o [ none ↦ end | some t ↦ field "valid_until" t end ])) ≡ v
    at none = found
    at (some t) = let kept = get-put "valid_until" k t base in ground (arith, found, other)

-- The candidate of the fields, its scope and digest, and where the record is that was returned: in
-- a row that had them, or in a new one that has them.
pub record Created (env : Env) (db : Db) (fields : Fields) (actor : String) (d : Fields) (db' : Db)
    : Type 0 where
  pub candidate : Fields
  pub scope : String
  pub sha : String
  pub candidate_is : IsCandidate fields actor candidate
  pub scope_is : get "scope" candidate ≡ some (str scope)
  pub sha_is : sha256_json env.digest (obj (candidate_profile candidate)) ≡ some sha
  pub stored : Reused scope sha db d db' ⊎ (New sha db d db' × (d ≡ candidate))

-- what the last statements leave
abbrev Outcome :
    (String → String) → String → String → Fields → Db → List MemoryRow → Fields → Db → Type 0
Outcome f scope sha candidate db start d db' =
    (Reused scope sha db d db' ⊎ (New sha db d db' × (d ≡ candidate)))
    × (SafeDb f start db → SafeDb f start db')

module _ {env : Env} {db : Db} where
  candidate_record_lem :
      (fields : Fields) (actor now id : String)
      → Views env db (candidate_record fields actor now id) (IsCandidate fields actor)
  unfolding candidate_record get city.Core.Call.dict
  candidate_record_lem fields actor now id = look (field_of_lem "scope" _) λ _ scope.
      look (field_of_lem "type" _) λ _ memory_type. look (field_of_lem "statement" _) λ _ statement.
        look (field_of_lem "evidence_refs" _) λ _ refs. look (field_of_lem _ _) λ _ _.
          look (field_of_lem _ _) λ _ _. look (field_of_lem _ _) λ _ _.
            look (field_of_lem "fact_class" _) λ _ fact_class. look (field_of_lem _ _) λ _ _.
              look (field_of_lem _ _) λ _ _. look (field_of_lem _ _) λ _ _.
                look (field_of_lem _ _) λ _ _. look (field_of_lem "labels" _) λ _ labels.
                  weaken_view (pure_lem _) λ d same.
                    subst (IsCandidate fields actor) (sym same) (record {
                      scope = with_expiry fields _ "scope" _ refl refl ∙ sym scope;
                      memory_type = with_expiry fields _ "type" _ refl refl ∙ sym memory_type;
                      statement = with_expiry fields _ "statement" _ refl refl ∙ sym statement;
                      evidence_refs = with_expiry fields _ "evidence_refs" _ refl refl ∙ sym refs;
                      fact_class = with_expiry fields _ "fact_class" _ refl refl ∙ sym fact_class;
                      labels = with_expiry fields _ "labels" _ refl refl ∙ sym labels;
                      created_by = with_expiry fields _ "created_by" _ refl refl;
                      review_state = with_expiry fields _ "review_state" _ refl refl;
                    })

module _ {env : Env} {db : Db} {f : String → String} where
  insert_candidate-New :
      (start : List MemoryRow) (d : Fields) (scope sha now actor key : String)
      → Post env db (insert_candidate d sha now actor key) (Outcome f scope sha d db start)
  unfolding insert_candidate
  insert_candidate-New start d scope sha now actor key = view (text_at_lem "memory_id" d) λ id _.
      view (sha_json_lem _) λ _ _. view (field_of_lem _ d) λ _ _. view (field_of_lem _ d) λ _ _.
        view (text_at_lem _ d) λ _ _. append_then _ _ _ λ event facts.
          seq (insert_projection-Inserted d sha (marker_of event) now) λ _ db' i.
            view projection_updated_lem λ _ _.
              returns _
                (inr (New-row sha db event d db' i, refl), Inserted-Safe sha db _ d db' refl refl i)

  by_existing :
      (start : List MemoryRow) (d : Fields) (scope sha now actor key : String)
      (existing : Option MemoryRow)
      → existing ≡ same_candidate scope sha db.memories
      → Post env db
          (elim existing [
            | some r ↦ pure r.record_json
            | none ↦ insert_candidate d sha now actor key
          ])
          (Outcome f scope sha d db start)
  by_existing start d scope sha now actor key none e =
      insert_candidate-New start d scope sha now actor key
  by_existing start d scope sha now actor key (some r) e =
      let (stored, in_scope, same_sha) = same_candidate_lem scope sha db.memories r (sym e) in
      returns _ (
        inl (record {
          row = r;
          stored = stored;
          scope_is = in_scope;
          sha_is = same_sha;
          record_is = refl;
          same = refl;
        }),
        λ safe. safe,
      )

  pub create_candidate_in-Created :
      (start : List MemoryRow) (fields : Fields) (actor key : String)
      → Post env db
          (create_candidate_in fields actor key)
          (λ d db'. Created env db fields actor d db' × (SafeDb f start db → SafeDb f start db'))
  unfolding create_candidate_in
  create_candidate_in-Created start fields actor key = view utc_now_lem λ now _.
      view (new_id_lem _) λ id _. view (candidate_record_lem fields actor now id) λ d is.
        view (validate_memory_lem d) λ _ _. view (sha_json_lem _) λ sha sha_is.
          view (text_at_lem "scope" d) λ scope scope_is. view (reads_lem _) λ existing e.
            weaken (by_existing start d scope sha now actor key existing e)
              λ result db' (stored, safe). (
                record {
                  candidate = d;
                  scope = scope;
                  sha = sha;
                  candidate_is = is;
                  scope_is = scope_is;
                  sha_is = sha_is;
                  stored = stored;
                },
                safe,
              )
