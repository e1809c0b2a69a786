-- ===== src/Memory/Sweep.antt =====
-- `sweep_stale` and `mark_source_changed` of src/city2core/memory.py: each record for which there
-- is a reason is marked stale by a command of its own. The n-th row has the n-th environment.
use city.Base.{
  ℕ, suc, String, ◌=?◌, ◌&◌, Bool, true, false, not, Option, none, some, List, [], ◌∷◌,
  if◌then◌else◌,
}
use city.Model.Json.{Fields, arr, items}
use city.Store.Tables.{MemoryRow}
use city.Store.Rows.{Db}
use city.Store.Tx.{Env, State, Tx, Result, ok, err, ◌>>=◌, pure, sha_json, time_of}
use city.Core.Call.{invoke}
use city.Memory.Fields.{text_at, sources}
use city.Memory.Rows.{stale_reason}
use city.Memory.Stale.{is_accepted, mark_stale}

-- SELECT … FROM memory_records WHERE review_state = 'accepted', in the order of the table
unfoldable pub accepted_rows : List MemoryRow → List MemoryRow
unfolding is_accepted
accepted_rows [] = []
accepted_rows (r ∷ t) =
    let rest = accepted_rows t in if is_accepted r.review_state then r ∷ rest else rest

-- why a record is to be marked, and the idempotency key of that command
abbrev pub Finder : Type 0
Finder = MemoryRow → Tx (Option (String × String))

abbrev pub answered : String → Result (List String) × Db → Result (List String) × Db
answered id (ok ids, db) = (ok (id ∷ ids), db)
answered id (err e, db) = (err e, db)

-- the rest of the loop, after a command
unfoldable pub marked :
    String → (Db → Result (List String) × Db) → Result Fields × Db → Result (List String) × Db
marked id next (err e, after) = (err e, after)
marked id next (ok d, after) = answered id (next after)

-- the command for one row, and then the rest of the loop
unfoldable pub mark_row :
    Env
    → String
    → MemoryRow
    → Option (String × String)
    → Db
    → (Db → Result (List String) × Db)
    → Result (List String) × Db
unfolding invoke mark_stale marked
mark_row env actor r none db next = next db
mark_row env actor r (some (reason, key)) db next =
    marked r.memory_id next
      (invoke env (mark_stale r.memory_id reason r.aggregate_version actor) key db)

-- a row that the finder has looked at
unfoldable pub looked :
    Env
    → String
    → MemoryRow
    → Db
    → (Db → Result (List String) × Db)
    → Result (Option (String × String) × State)
    → Result (List String) × Db
unfolding mark_row
looked env actor r db next (err e) = (err e, db)
looked env actor r db next (ok (found, s)) = mark_row env actor r found db next

unfoldable pub mark_rows :
    (ℕ → Env) → Finder → String → List MemoryRow → Db → Result (List String) × Db
unfolding looked
mark_rows envs finder actor [] db = (ok [], db)
mark_rows envs finder actor (r ∷ rows) db =
    looked (envs 0) actor r db (λ d. mark_rows (λ n. envs (suc n)) finder actor rows d)
      (finder r (envs 0) (record { db = db; calls = 0 }))

unfoldable pub sweep_finder : String → Finder
unfolding stale_reason
sweep_finder now r = do
  reason ← stale_reason r.record_json now
  pure (elim reason [ none ↦ none | some t ↦ some (t, "memory:sweep:" & now & ":" & r.memory_id) ])

unfoldable pub timed :
    Db → Result (List String) × Db → Result (ℕ × State) → Result (List String) × Db
timed db out (err e) = (err e, db)
timed db out (ok t) = out

-- the time is read for its `ValueError` only
unfoldable pub with_time : Env → String → Db → Result (List String) × Db → Result (List String) × Db
unfolding timed
with_time env time db out = timed db out (time_of time env (record { db = db; calls = 0 }))

unfoldable pub sweep_stale : (ℕ → Env) → String → String → Db → Result (List String) × Db
unfolding mark_rows sweep_finder accepted_rows with_time
sweep_stale envs now actor db =
    with_time (envs 0) now db
      (mark_rows envs (sweep_finder now) actor (accepted_rows db.memories) db)

-- whether a source is the one that changed
unfoldable pub source_changed : String → String → Fields → Tx Bool
source_changed uri sha source = do
  there ← text_at "uri" source
  elim (there =? uri) [
    | true ↦ text_at "content_sha256" source >>= λ t. pure (not (t =? sha))
    | false ↦ pure false
  ]

unfoldable pub any_changed : String → String → List Fields → Tx Bool
unfolding source_changed
any_changed uri sha [] = pure false
any_changed uri sha (source ∷ refs) = do
  changed ← source_changed uri sha source
  elim changed [ true ↦ pure true | false ↦ any_changed uri sha refs ]

change_reason : String → String → MemoryRow → Bool → Tx (Option (String × String))
change_reason uri sha r false = pure none
change_reason uri sha r true = do
  t ← sha_json (arr (items (uri ∷ sha ∷ [])))
  pure (some ("source_revision_changed", "memory:source-change:" & t & ":" & r.memory_id))

unfoldable pub change_finder : String → String → Finder
unfolding any_changed change_reason
change_finder uri sha r = do
  refs ← sources r.record_json
  changed ← any_changed uri sha refs
  change_reason uri sha r changed

unfoldable pub mark_source_changed :
    (ℕ → Env) → String → String → String → String → Db → Result (List String) × Db
unfolding mark_rows change_finder accepted_rows with_time
mark_source_changed envs uri sha observed_at actor db =
    with_time (envs 0) observed_at db
      (mark_rows envs (change_finder uri sha) actor (accepted_rows db.memories) db)
