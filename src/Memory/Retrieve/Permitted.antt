-- ===== src/Memory/Retrieve/Permitted.antt =====
-- What the search of src/city2core/memory.py may return.
use mathlib.Core.List.{Mem, mem-cons_self, mem-cons_of_mem}
use city.Base.{
  ℕ, ltb, String, ◌=?◌, ◌≡◌, refl, sym, subst, ap, Bool, true, false, Option, none, some, List, [],
  ◌∷◌, if-cases, ◌⊎◌, inl, inr, text_eq,
}
use city.Model.Json.{Fields, elem}
use city.Store.Tables.{MemoryRow}
use city.Store.Rows.{Db}
use city.Store.Tx.{Env, ◌>>=◌, pure, utc_now}
use city.Store.Post.{Views, look, weaken_view}
use city.Store.Post.Steps.{Any, pure_lem, reads_lem, or_raise_lem, asks_lem, time_of_lem}
use city.Memory.Fields.Reads.{text_at_lem, texts_at_lem, dicts_at_lem, collect_lem}
use city.Memory.Fields.{text_at}
use city.Memory.Rows.Reads.{source_text_lem}
use city.Memory.Sort.{place, sort}
use city.Memory.Stale.{is_accepted}
use city.Memory.Rows.Fresh.{Every, every_weaken, Fresh, stale_reason_lem, branch_view}
use city.Memory.Retrieve.{
  sensitivity_rank, Ranked, rank_le, Retrieval, sensitivity_reason, row_reason, missed, Ranking,
  exclude_row, include_row, rank_entry, place_row, rank_rows, in_scopes, scoped_rows, records_of,
  chosen_time, matching, max_text, max_observed, retrieve_from, retrieve_nothing, retrieve,
}

-- a reading of the clock
abbrev pub ReadFrom : Env → String → Type 0
ReadFrom env now = (n : ℕ) × (now ≡ env.clock n)

-- The time of a search: the given one, or a reading of the clock where none or the empty text is
-- given.
abbrev pub IsSearchTime : Env → Option String → String → Type 0
IsSearchTime env given now =
    ((given ≡ none) × ReadFrom env now)
    ⊎ ((given ≡ some "") × ReadFrom env now)
    ⊎ (given ≡ some now)

module _ {A : Type 0} (P : A → Type 0) where
  every-place : (le : A → A → Bool) (x : A) (l : List A) → P x → Every P l → Every P (place le x l)
  unfolding Every place
  every-place le x [] p h = (p, tt)
  every-place le x (y ∷ l) p h =
      if-cases (Every P) (le x y) _ _ (λ _. (p, h)) (λ _. (h.0, every-place le x l p h.1))

  every-sort : (le : A → A → Bool) (l : List A) → Every P l → Every P (sort le l)
  unfolding Every sort
  every-sort le [] h = tt
  every-sort le (x ∷ l) h = every-place le x (sort le l) h.0 (every-sort le l h.1)

every-nil : {A : Type 0} (P : A → Type 0) → Every P []
unfolding Every
every-nil P = tt

every-Mem : {A : Type 0} (l : List A) → Every (λ x. Mem x l) l
unfolding Every
every-Mem [] = tt
every-Mem (x ∷ l) = (
  mem-cons_self,
  every_weaken (λ y. Mem y l) (λ y. Mem y (x ∷ l)) (λ y m. mem-cons_of_mem x m) l (every-Mem l),
)

-- a row of the table in one of the scopes
abbrev pub Scoped : List String → List MemoryRow → MemoryRow → Type 0
Scoped scopes table r = Mem r table × (elem r.scope scopes ≡ true)

in_scopes-Scoped :
    (scopes : List String) (table rows : List MemoryRow)
    → Every (λ r. Mem r table) rows
    → Every (Scoped scopes table) (in_scopes scopes rows)
unfolding Every in_scopes
in_scopes-Scoped scopes table [] h = tt
in_scopes-Scoped scopes table (r ∷ rows) h =
    let rest = in_scopes-Scoped scopes table rows h.1 in
    if-cases (Every (Scoped scopes table)) (elem r.scope scopes) _ _ (λ e. ((h.0, e), rest))
      (λ _. rest)

scoped_rows-Scoped :
    (scopes : List String) (table : List MemoryRow)
    → Every (Scoped scopes table) (scoped_rows scopes table)
unfolding scoped_rows
scoped_rows-Scoped scopes table =
    every-sort (Scoped scopes table) _ _ (in_scopes-Scoped scopes table table (every-Mem table))

-- The record is that of an accepted row of one of the scopes, whose sensitivity is no higher than
-- the clearance, and it is fresh.
pub record Permitted (env : Env) (db : Db) (scopes : List String) (clearance : ℕ) (now : String)
    (d : Fields) : Type 0 where
  pub row : MemoryRow
  pub rank : ℕ
  pub stored : Mem row db.memories
  pub record_is : row.record_json ≡ d
  pub scope : elem row.scope scopes ≡ true
  pub accepted : is_accepted row.review_state ≡ true
  pub rank_is : sensitivity_rank row.sensitivity ≡ some rank
  pub cleared : ltb clearance rank ≡ false
  pub fresh : Fresh env d now

-- what is known of a row that is not left out
record Passes (env : Env) (r : MemoryRow) (clearance : ℕ) (now : String) : Type 0 where
  rank : ℕ
  accepted : is_accepted r.review_state ≡ true
  rank_is : sensitivity_rank r.sensitivity ≡ some rank
  cleared : ltb clearance rank ≡ false
  fresh : Fresh env r.record_json now

missed-none : (b : Bool) (r : Option String) → missed b r ≡ none → r ≡ none
missed-none true none h = refl
missed-none false none h = cc
missed-none b (some t) h = cc

module _ {env : Env} {db : Db} where
  row_reason_lem :
      (r : MemoryRow) (clearance : ℕ) (now : String)
      → Views env db (row_reason r clearance now) (λ t. t ≡ none → Passes env r clearance now)
  unfolding row_reason sensitivity_reason
  row_reason_lem r clearance now =
      branch_view (is_accepted r.review_state) _ _
        (λ accepted. look (or_raise_lem _ _) λ rank rank_is.
          branch_view (ltb clearance rank) _ _ (λ _. weaken_view (pure_lem _) λ t e h. absurd (cc))
            (λ cleared. weaken_view (stale_reason_lem r.record_json now) λ t fresh h. record {
              rank = rank;
              accepted = accepted;
              rank_is = rank_is;
              cleared = cleared;
              fresh = fresh h;
            }))
        (λ _. weaken_view (pure_lem _) λ t e h. absurd (cc))

  max_observed_lem : (d : Fields) → Views env db (max_observed d) Any
  unfolding max_observed
  max_observed_lem d = look (dicts_at_lem _ d) λ refs _.
      look (collect_lem (λ _ _. Unit {0}) _ (λ source. text_any "observed_at" source) refs)
        λ times _. observed times
    where
      text_any : (k : String) (source : Fields) → Views env db (text_at k source) Any
      text_any k source = weaken_view (text_at_lem k source) λ _ _. tt

      observed :
          (times : List String)
          → Views {A = String} env db
              (elim times [ [] ↦ text_at "created_at" d | t ∷ l ↦ pure (max_text t l) ])
              Any
      observed [] = text_any "created_at" d
      observed (t ∷ l) = weaken_view (pure_lem _) λ _ _. tt

  clock_read : Views env db utc_now (ReadFrom env)
  unfolding utc_now
  clock_read = record { at = λ n a t h. (cc, (n, cc)) }

  chosen_time_lem :
      (given : Option String) → Views env db (chosen_time given) (IsSearchTime env given)
  chosen_time_lem none = weaken_view clock_read λ _ read. inl ((refl, read))
  chosen_time_lem (some t) =
      branch_view (t =? "") _ _
        (λ empty. weaken_view clock_read λ _ read. inr (inl ((ap some (text_eq t "" empty), read))))
        (λ _. weaken_view (pure_lem _) λ _ same. inr (inr (ap some (sym same))))

  matching_lem :
      (terms : List String) (rows : List MemoryRow) → Views env db (matching terms rows) Any
  unfolding matching
  matching_lem [] rows = weaken_view (pure_lem _) λ _ _. tt
  matching_lem (t ∷ terms) rows = look (reads_lem _) λ index _. weaken_view (asks_lem _) λ _ _. tt

  -- the entry of a row holds the row's record
  rank_entry_lem :
      (terms : List String) (r : MemoryRow)
      → Views env db (rank_entry terms r) (λ e. e.record_json ≡ r.record_json)
  unfolding rank_entry
  rank_entry_lem terms r = look (text_at_lem "statement" r.record_json) λ statement _.
      look (texts_at_lem _ _) λ labels _. look (source_text_lem _) λ source _.
        look (asks_lem _) λ haystack _. look (asks_lem _) λ found _.
          look (text_at_lem "type" r.record_json) λ memory_type _.
            look (or_raise_lem _ _) λ priority _. look (max_observed_lem _) λ observed _.
              look (time_of_lem observed) λ time _.
                look (asks_lem _)
                  λ micros _. weaken_view (pure_lem _) λ e h. ap (λ x. x.record_json) h

abbrev Holds : (Fields → Type 0) → Ranking → Type 0
Holds P k = Every (λ e. P e.record_json) k.ranked

-- a round that keeps it true of the entries so far
abbrev Keeps : (Fields → Type 0) → (Ranking → Ranking) → Type 0
Keeps P step = (k : Ranking) → Holds P k → Holds P (step k)

module _ {env : Env} {db : Db} (P : Fields → Type 0) where
  placed :
      (terms : List String) (r : MemoryRow) (reason : Option String)
      → (reason ≡ none → P r.record_json)
      → Views env db
          (elim reason [
            | some t ↦ pure (exclude_row r.memory_id t)
            | none ↦ rank_entry terms r >>= λ e. pure (include_row e)
          ])
          (Keeps P)
  unfolding Every
  placed terms r (some t) p = weaken_view (pure_lem _) λ step e k h. rw e h
  placed terms r none p =
      look (rank_entry_lem terms r)
        λ entry same. weaken_view (pure_lem _) λ step e k h. rw e (subst P (sym same) (p refl), h)

  -- what holds of the records that pass holds of all that are ranked
  place_row_lem :
      (terms matches : List String) (clearance : ℕ) (now : String) (r : MemoryRow)
      → (Passes env r clearance now → P r.record_json)
      → Views env db (place_row terms matches clearance now r) (Keeps P)
  unfolding place_row
  place_row_lem terms matches clearance now r p =
      look (row_reason_lem r clearance now)
        λ reason passes. placed terms r _ (λ none_left. p (passes (missed-none _ reason none_left)))

  rank_rows_lem :
      (terms matches : List String) (clearance : ℕ) (now : String) (rows : List MemoryRow)
      → Every (λ r. Passes env r clearance now → P r.record_json) rows
      → Views env db (rank_rows terms matches clearance now rows) (Holds P)
  unfolding rank_rows Every
  rank_rows_lem terms matches clearance now [] h =
      weaken_view (pure_lem _) λ k e. subst (Holds P) (sym e) tt
  rank_rows_lem terms matches clearance now (r ∷ rows) h =
      look (place_row_lem terms matches clearance now r h.0) λ step keeps.
        look (rank_rows_lem terms matches clearance now rows h.1)
          λ rest holds. weaken_view (pure_lem _) λ k e. subst (Holds P) (sym e) (keeps rest holds)

-- What the search returns: permitted records, at the time of the search.
pub record Answers (env : Env) (db : Db) (scopes : List String) (clearance : ℕ)
    (given : Option String) (found : Retrieval) : Type 0 where
  pub now : String
  pub now_is : IsSearchTime env given now
  pub records : Every (Permitted env db scopes clearance now) found.records

every-records :
    (P : Fields → Type 0) (l : List Ranked)
    → Every (λ e. P e.record_json) l
    → Every P (records_of l)
unfolding Every records_of
every-records P [] h = tt
every-records P (e ∷ l) h = (h.0, every-records P l h.1)

module _ {env : Env} {db : Db} where
  passing :
      (scopes : List String) (clearance : ℕ) (now : String) (r : MemoryRow)
      → Scoped scopes db.memories r
      → Passes env r clearance now
      → Permitted env db scopes clearance now r.record_json
  passing scopes clearance now r scoped passes = record {
    row = r;
    rank = passes.rank;
    stored = scoped.0;
    record_is = refl;
    scope = scoped.1;
    accepted = passes.accepted;
    rank_is = passes.rank_is;
    cleared = passes.cleared;
    fresh = passes.fresh;
  }

  retrieve_from_lem :
      (query : String) (scopes : List String) (clearance : ℕ) (given : Option String)
      → Views env db
          (retrieve_from query scopes clearance given)
          (Answers env db scopes clearance given)
  unfolding retrieve_from
  retrieve_from_lem query scopes clearance given = look (chosen_time_lem given) λ now now_is.
      look (time_of_lem now) λ _ _. look (asks_lem _) λ _ _. look (asks_lem _) λ found _.
        look (reads_lem _) λ rows rows_are. look (matching_lem _ rows) λ matches _.
          look
            (rank_rows_lem (Permitted env db scopes clearance now) _ matches clearance now rows (
              subst (Every _) (sym rows_are) (
                every_weaken (Scoped scopes db.memories) _ (passing scopes clearance now) _
                  (scoped_rows-Scoped scopes db.memories))))
            λ ranking holds. weaken_view (pure_lem _) λ r e. record {
              now = now;
              now_is = now_is;
              records =
                  subst (λ x. Every (Permitted env db scopes clearance now) x.records) (sym e)
                    (every-records _ _ (every-sort _ rank_le _ holds));
            }

  retrieve_nothing_lem :
      (query : String) → Views env db (retrieve_nothing query) (λ found. found.records ≡ [])
  unfolding retrieve_nothing
  retrieve_nothing_lem query =
      look (asks_lem _) λ normalized _. weaken_view (pure_lem _) λ r e. ap (λ x. x.records) e

  -- A search returns only records of accepted memories of the scopes that the caller allows, none
  -- more sensitive than the clearance, and all fresh at the time of the search, which is the time
  -- that the caller gives or else a reading of the clock: not due, not expired and with current
  -- sources.
  pub retrieve-Permitted :
      (query : String) (scopes : List String) (clearance : String) (given : Option String)
      → Views env db (retrieve query scopes clearance given) (λ found.
        (rank : ℕ) × (sensitivity_rank clearance ≡ some rank)
        × ((found.records ≡ []) ⊎ Answers env db scopes rank given found))
  unfolding retrieve
  retrieve-Permitted query scopes clearance given = look (or_raise_lem _ _) λ rank rank_is.
      branch_view _ _ _
        (λ _.
          weaken_view (retrieve_nothing_lem query) λ _ none_there. (rank, rank_is, inl none_there))
        (λ _.
          weaken_view (retrieve_from_lem query scopes rank given)
            λ found answers. (rank, rank_is, inr answers))
