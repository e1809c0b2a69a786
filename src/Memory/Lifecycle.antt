-- ===== src/Memory/Lifecycle.antt =====
-- The tables of memory through the calls of src/city2core/memory.py: what is true of them
-- between two calls, and what an UPDATE and an INSERT keep of it.
pub mod Create
pub mod Stale
pub mod Reviews
use city.Base.{
  ℕ, ◌+◌, ◌<◌, String, ◌=?◌, ◌≡◌, refl, sym, subst, ◌∙◌, ap, ◌⊎◌, inl, inr, Bool, true, false,
  Option, none, some, List, [], ◌∷◌, arith, if◌then◌else◌, text_eq, eq_iff, eq_refl, Bool-cases,
  Option-cases,
}
use mathlib.Core.Option
use city.Model.Json.{Json, Fields, str, get}
use city.Store.Tables.{MemoryState, MemoryRow, FtsRow}
use city.Store.Rows.{Db, Marker}
use city.Store.Table.{find, update, insert, find-update, find-insert, find-insert_new}
use city.Memory.Stale.{is_accepted}
use city.Memory.Rows.{memory_key, memory_moved, Review, without_index}
use city.Memory.Rows.Fresh.{Every, every_weaken}
use city.Memory.Rows.Writes.{Shown}

-- the states that a memory does not leave
unfoldable pub is_final : MemoryState → Bool
is_final MemoryState.rejected = true
is_final MemoryState.superseded = true
is_final MemoryState.quarantined = true
is_final _ = false

unfoldable pub is_indexed : String → List FtsRow → Bool
is_indexed id [] = false
is_indexed id (r ∷ t) = if r.memory_id =? id then true else is_indexed id t

abbrev pub accepted_at : Option MemoryRow → Bool
accepted_at none = false
accepted_at (some r) = is_accepted r.review_state

-- The row stays as it is, or it was not final and has a higher version.
abbrev pub Later : MemoryRow → MemoryRow → Type 0
Later r s =
    (s ≡ r) ⊎ ((is_final r.review_state ≡ false) × (r.aggregate_version < s.aggregate_version))

-- A row of the index shows the record of a row of the table.
abbrev pub Backed : (String → String) → List MemoryRow → FtsRow → Type 0
Backed f rows x =
    (r : MemoryRow) × (find memory_key x.memory_id rows ≡ some r) × Shown f r.record_json x

-- A row of the index is of another record than the one that changes, or shows its new record.
abbrev pub Reindex : (String → String) → List MemoryRow → String → Fields → FtsRow → Type 0
Reindex f rows id d x =
    (Backed f rows x × ((id =? x.memory_id) ≡ false)) ⊎ ((id ≡ x.memory_id) × Shown f d x)

-- Every record names its row, the full-text index has a row for the accepted records and no others,
-- each row of the index shows its record as it is, normalized by `f`, and since
-- `start` no row has gone, none has gone back, and the final ones are as they were.
pub record Safe (f : String → String) (start rows : List MemoryRow) (index : List FtsRow)
    : Type 0 where
  pub named :
      (id : String) (r : MemoryRow)
      → find memory_key id rows ≡ some r
      → get "memory_id" r.record_json ≡ some (str id)
  pub indexed : (id : String) → is_indexed id index ≡ accepted_at (find memory_key id rows)
  pub content : Every (Backed f rows) index
  pub kept :
      (id : String) (r : MemoryRow)
      → find memory_key id start ≡ some r
      → (s : MemoryRow) × (find memory_key id rows ≡ some s) × Later r s

abbrev pub SafeDb : (String → String) → List MemoryRow → Db → Type 0
SafeDb f start db = Safe f start db.memories db.memory_fts

-- What is kept is kept from the present on.
pub restart :
    {f : String → String} {start rows : List MemoryRow} {index : List FtsRow}
    → Safe f start rows index
    → Safe f rows rows index
restart s = record {
  named = s.named;
  indexed = s.indexed;
  content = s.content;
  kept = λ id r f. (r, f, inl refl);
}

pub is_indexed-without_index :
    (id j : String) (l : List FtsRow)
    → is_indexed j (without_index id l) ≡ (if id =? j then false else is_indexed j l)
unfolding is_indexed without_index
is_indexed-without_index id j [] = ground arith
is_indexed-without_index id j (r ∷ t) = ground (
  arith,
  is_indexed-without_index id j t,
  eq_iff id j,
  eq_iff r.memory_id id,
  eq_iff r.memory_id j,
)

Later-trans : (r s t : MemoryRow) → Later r s → Later s t → Later r t
Later-trans r s t (inl same) h = subst (λ x. Later x t) same h
Later-trans r s t (inr (free, less)) (inl same) =
    inr (free, subst (λ x. r.aggregate_version < x.aggregate_version) (sym same) less)
Later-trans r s t (inr (free, less)) (inr (still, more)) = inr (free, omega arith)

moved-key :
    (to : MemoryState) (v : ℕ) (m : Marker) (now : String) (review : Review) (d : Fields)
    (sha again : String) (until : Option String) (r : MemoryRow)
    → memory_key (memory_moved to v m now review d sha again until r) ≡ memory_key r
unfolding memory_moved
moved-key to v m now review d sha again until r = refl

module _ {f : String → String} {start rows : List MemoryRow} {index : List FtsRow}
    (safe : Safe f start rows index) where
  -- An UPDATE of a row that is not final, with the index set right.
  pub move-Safe :
      (id : String) (row : MemoryRow) (to : MemoryState) (v : ℕ) (m : Marker) (now : String)
      (review : Review) (d : Fields) (sha again : String) (until : Option String)
      (index' : List FtsRow)
      → find memory_key id rows ≡ some row
      → is_final row.review_state ≡ false
      → row.aggregate_version < v
      → get "memory_id" d ≡ some (str id)
      → ((j : String)
          → is_indexed j index' ≡ (if id =? j then is_accepted to else is_indexed j index))
      → Every (Reindex f rows id d) index'
      → Safe f start
          (update memory_key id (memory_moved to v m now review d sha again until) rows)
          index'
  unfolding memory_moved
  move-Safe id row to v m now review d sha again until index' found free less named reindexed
        shown =
      record { named = names; indexed = indexes; content = contents; kept = keeps }
    where
      change : MemoryRow → MemoryRow
      change = memory_moved to v m now review d sha again until

      after : List MemoryRow
      after = update memory_key id change rows

      found_after :
          (j : String)
          → find memory_key j after
            ≡ (if id =? j then some (change row) else find memory_key j rows)
      found_after j =
          find-update memory_key id j change rows (moved-key to v m now review d sha again until)
          ∙ ground (arith, eq_iff id j, found)

      names_of :
          (j : String) (b : Bool) (r : MemoryRow)
          → (id =? j) ≡ b
          → (if b then some (change row) else find memory_key j rows) ≡ some r
          → get "memory_id" r.record_json ≡ some (str j)
      names_of j true r same f =
          let record_is : r.record_json ≡ d = cc in let id_is = text_eq id j same in cc
      names_of j false r other f = safe.named j r f

      names :
          (j : String) (r : MemoryRow)
          → find memory_key j after ≡ some r
          → get "memory_id" r.record_json ≡ some (str j)
      names j r f = names_of j (id =? j) r refl (sym (found_after j) ∙ f)

      index_of :
          (j : String) (b : Bool)
          → (if b then is_accepted to else is_indexed j index)
            ≡ accepted_at (if b then some (change row) else find memory_key j rows)
      index_of j true = refl
      index_of j false = safe.indexed j

      content_of : (x : FtsRow) → Reindex f rows id d x → Backed f after x
      content_of x (inl ((r, g, shows), other)) =
          (r, found_after x.memory_id ∙ ground (arith, other, g), shows)
      content_of x (inr (same, shows)) =
          (change row, found_after x.memory_id ∙ ground (arith, eq_iff id x.memory_id, same), shows)

      contents : Every (Backed f after) index'
      contents = every_weaken (Reindex f rows id d) (Backed f after) content_of index' shown

      indexes : (j : String) → is_indexed j index' ≡ accepted_at (find memory_key j after)
      indexes j = reindexed j ∙ index_of j (id =? j) ∙ ap accepted_at (sym (found_after j))

      later_of :
          (j : String) (b : Bool) (r s : MemoryRow)
          → (id =? j) ≡ b
          → find memory_key j rows ≡ some s
          → Later r s
          → (t : MemoryRow) × ((if b then some (change row) else find memory_key j rows) ≡ some t)
            × Later r t
      later_of j true r s same f later =
          let id_is = text_eq id j same in
          let row_is : row ≡ s = cc in
          (
            change row,
            refl,
            Later-trans r s (change row) later
                (subst (λ x. Later x (change row)) row_is (inr (free, less))),
          )
      later_of j false r s other f later = (s, f, later)

      keeps :
          (j : String) (r : MemoryRow)
          → find memory_key j start ≡ some r
          → (s : MemoryRow) × (find memory_key j after ≡ some s) × Later r s
      keeps j r f =
          let (s, found_s, later) = safe.kept j r f in
          let (t, found_t, later_t) = later_of j (id =? j) r s refl found_s later in
          (t, found_after j ∙ found_t, later_t)

  -- An INSERT of a candidate.
  pub insert-Safe :
      (row : MemoryRow) (after : List MemoryRow)
      → insert memory_key row rows ≡ some after
      → get "memory_id" row.record_json ≡ some (str row.memory_id)
      → is_accepted row.review_state ≡ false
      → Safe f start after index
  insert-Safe row after inserted named candidate = record {
    named = names;
    indexed = indexes;
    content = contents;
    kept = keeps;
  }
    where
      found_after :
          (j : String)
          → find memory_key j after
            ≡ (if row.memory_id =? j then some row else find memory_key j rows)
      found_after j = find-insert memory_key row rows after j inserted

      new : find memory_key row.memory_id rows ≡ none
      new = find-insert_new memory_key row rows after inserted

      names_of :
          (j : String) (b : Bool) (r : MemoryRow)
          → (row.memory_id =? j) ≡ b
          → (if b then some row else find memory_key j rows) ≡ some r
          → get "memory_id" r.record_json ≡ some (str j)
      names_of j true r same f = let id_is = text_eq row.memory_id j same in cc
      names_of j false r other f = safe.named j r f

      names :
          (j : String) (r : MemoryRow)
          → find memory_key j after ≡ some r
          → get "memory_id" r.record_json ≡ some (str j)
      names j r f = names_of j (row.memory_id =? j) r refl (sym (found_after j) ∙ f)

      index_of :
          (j : String) (b : Bool)
          → (row.memory_id =? j) ≡ b
          → accepted_at (find memory_key j rows)
            ≡ accepted_at (if b then some row else find memory_key j rows)
      index_of j true same =
          let id_is = text_eq row.memory_id j same in
          let absent : find memory_key j rows ≡ none = cc new in
          ap accepted_at absent ∙ sym candidate
      index_of j false other = refl

      indexes : (j : String) → is_indexed j index ≡ accepted_at (find memory_key j after)
      indexes j =
          safe.indexed j
          ∙ index_of j (row.memory_id =? j) refl
          ∙ ap accepted_at (sym (found_after j))

      stays :
          (j : String) (b : Bool) (s : MemoryRow)
          → (row.memory_id =? j) ≡ b
          → find memory_key j rows ≡ some s
          → (if b then some row else find memory_key j rows) ≡ some s
      stays j true s same f = let id_is = text_eq row.memory_id j same in absurd (cc new)
      stays j false s other f = f

      contents : Every (Backed f after) index
      contents =
          every_weaken (Backed f rows) (Backed f after)
            (λ x (r, g, shows). (
              r,
              found_after x.memory_id ∙ stays x.memory_id (row.memory_id =? x.memory_id) r refl g,
              shows,
            ))
            index safe.content

      keeps :
          (j : String) (r : MemoryRow)
          → find memory_key j start ≡ some r
          → (s : MemoryRow) × (find memory_key j after ≡ some s) × Later r s
      keeps j r f =
          let (s, found_s, later) = safe.kept j r f in
          (s, found_after j ∙ stays j (row.memory_id =? j) s refl found_s, later)
