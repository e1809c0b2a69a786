-- ===== src/Memory/Machine/Sweeps.antt =====
-- The sweeps of src/city2core/memory.py, and the databases that the commands and the sweeps reach.
use city.Base.{ℕ, suc, String, Option, none, some, List, [], ◌∷◌}
use city.Model.Json.{Fields}
use city.Store.Tables.{MemoryRow}
use city.Store.Rows.{Db}
use city.Store.Tx.{Env, State, Result, ok, err, time_of}
use city.Core.Call.{invoke}
use city.Core.Machine.{empty_db}
use city.Memory.Sweep.{
  Finder, answered, marked, mark_row, looked, mark_rows, timed, with_time, sweep_stale,
  mark_source_changed, accepted_rows, sweep_finder, change_finder,
}
use city.Memory.Rows.Writes.{Normal}
use city.Memory.Lifecycle.{SafeDb, restart}
use city.Memory.Machine.{MemoryMethod, memory_call, memory_call-Safe, empty-Safe}

module _ (f : String → String) (start : List MemoryRow) where
  abbrev Outcome : Type 0
  Outcome = Result (List String) × Db

  answered-Safe :
      (id : String) (out : Outcome) → SafeDb f start out.1 → SafeDb f start (answered id out).1
  answered-Safe id (ok ids, db) safe = safe
  answered-Safe id (err e, db) safe = safe

  mark_row-Safe :
      (env : Env) (actor : String) (r : MemoryRow) (found : Option (String × String)) (db : Db)
      (next : Db → Outcome)
      → Normal f env
      → ((d : Db) → SafeDb f start d → SafeDb f start (next d).1)
      → SafeDb f start db
      → SafeDb f start (mark_row env actor r found db next).1
  unfolding mark_row marked memory_call
  mark_row-Safe env actor r none db next norm h safe = h db safe
  mark_row-Safe env actor r (some (reason, key)) db next norm h safe = at _ (
      memory_call-Safe f env (MemoryMethod.mark_stale r.memory_id reason r.aggregate_version actor)
        key start db norm safe)
    where
      at :
          (out : Result Fields × Db)
          → SafeDb f start out.1
          → SafeDb f start (marked r.memory_id next out).1
      at (err e, d) s = s
      at (ok x, d) s = answered-Safe r.memory_id (next d) (h d s)

  -- the rest of the loop, once the row has been looked at
  looked-Safe :
      (env : Env) (actor : String) (r : MemoryRow) (db : Db) (next : Db → Outcome)
      → Normal f env
      → ((d : Db) → SafeDb f start d → SafeDb f start (next d).1)
      → SafeDb f start db
      → (found : Result (Option (String × String) × State))
      → SafeDb f start (looked env actor r db next found).1
  unfolding looked
  looked-Safe env actor r db next norm h safe (err e) = safe
  looked-Safe env actor r db next norm h safe (ok (found, s)) =
      mark_row-Safe env actor r found db next norm h safe

  mark_rows-Safe :
      (envs : ℕ → Env) (finder : Finder) (actor : String) (rows : List MemoryRow) (db : Db)
      → ((n : ℕ) → Normal f (envs n))
      → SafeDb f start db
      → SafeDb f start (mark_rows envs finder actor rows db).1
  unfolding mark_rows
  mark_rows-Safe envs finder actor [] db norm safe = safe
  mark_rows-Safe envs finder actor (r ∷ rows) db norm safe =
      looked-Safe (envs 0) actor r db _ (norm 0)
        (λ d s. mark_rows-Safe (λ n. envs (suc n)) finder actor rows d (λ n. norm (suc n)) s) safe _

  with_time-Safe :
      (env : Env) (time : String) (db : Db) (out : Outcome)
      → SafeDb f start db
      → SafeDb f start out.1
      → SafeDb f start (with_time env time db out).1
  unfolding with_time
  with_time-Safe env time db out before after =
      at (time_of time env (record { db = db; calls = 0 }))
    where
      at : (r : Result (ℕ × State)) → SafeDb f start (timed db out r).1
      at (err e) = before
      at (ok t) = after

-- The databases that the four commands and the two sweeps reach from an empty one, in environments
-- that normalize texts by `f`. `rebuild_index`, imports and context packs are not among the steps.
pub data MemoryReaches (f : String → String) : Db → Type 0 where
  begin : MemoryReaches f empty_db
  call :
      (env : Env) (m : MemoryMethod) (key : String) (db : Db)
      → Normal f env
      → MemoryReaches f db
      → MemoryReaches f (invoke env (memory_call m) key db).1
  sweep :
      (envs : ℕ → Env) (now actor : String) (db : Db)
      → ((n : ℕ) → Normal f (envs n))
      → MemoryReaches f db
      → MemoryReaches f (sweep_stale envs now actor db).1
  source_change :
      (envs : ℕ → Env) (uri sha observed_at actor : String) (db : Db)
      → ((n : ℕ) → Normal f (envs n))
      → MemoryReaches f db
      → MemoryReaches f (mark_source_changed envs uri sha observed_at actor db).1

-- In every database that the four commands and the two sweeps reach, all with one normalization of
-- texts, every record names its row, and the full-text index has rows for exactly the accepted
-- records, each with the normalized statement, labels and sources of the record as it is.
pub reaches-Safe : (f : String → String) (db : Db) → MemoryReaches f db → SafeDb f db.memories db
unfolding sweep_stale mark_source_changed
reaches-Safe f _ begin = empty-Safe f
reaches-Safe f _ (call env m key db norm r) =
    restart (memory_call-Safe f env m key db.memories db norm (reaches-Safe f db r))
reaches-Safe f _ (sweep envs now actor db norm r) =
    let safe = reaches-Safe f db r in
    restart (
      with_time-Safe f db.memories (envs 0) now db _ safe (
        mark_rows-Safe f db.memories envs (sweep_finder now) actor (accepted_rows db.memories) db
          norm safe))
reaches-Safe f _ (source_change envs uri sha observed_at actor db norm r) =
    let safe = reaches-Safe f db r in
    restart (
      with_time-Safe f db.memories (envs 0) observed_at db _ safe (
        mark_rows-Safe f db.memories envs (change_finder uri sha) actor (accepted_rows db.memories)
          db norm safe))
