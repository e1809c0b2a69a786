-- ===== src/Store/Command.antt =====
-- `Store.command` of src/city2core/store.py: one transaction, recorded under its idempotency key.
pub mod Once
pub mod Repeat
pub mod Left
use city.Base.{
  ℕ, ◌==◌, String, ◌=?◌, Bool, true, false, ◌&&◌, Option, none, some, List, [], ◌∷◌, if◌then◌else◌,
}
use city.Model.Json.{Json, Fields, obj}
use city.Model.Canonical.{sha256_json}
use city.Store.Rows.{Db, Dedup}
use city.Store.Table.{find}
use city.Store.Tx.{
  Env, Pragmas, State, Tx, Result, Error, ok, err, ◌>>=◌, ◌>>◌, pure, guard, reads, insert_row,
  fault, utc_now, sha_json, check_canonical, integrity_error, value_error, idempotency_collision,
  fault_raised,
}

abbrev pub schema_version : ℕ
schema_version = 4

unfoldable pub verify_pragmas : Pragmas → Bool
verify_pragmas p =
    p.foreign_keys == 1
    && (p.journal_mode =? "wal")
    && p.synchronous == 2
    && p.user_version == schema_version

abbrev pub dedup_key : Dedup → String
dedup_key r = r.idempotency_key

-- What stands between BEGIN and COMMIT. The flag says that a recorded result was replayed.
fresh : String → String → (String → Tx Fields) → Tx (Fields × Bool)
fresh idempotency_key command_sha operation = do
  result ← operation idempotency_key
  check_canonical (obj result)
  fault "before_dedup_record"
  committed_at ← utc_now
  insert_row dedup_key (λ db. db.command_dedup) (λ t db. record db { command_dedup = t })
      (record {
        idempotency_key = idempotency_key;
        command_sha256 = command_sha;
        result = result;
        committed_at = committed_at;
      })
  fault "before_commit"
  pure (result, false)

replayed : String → Dedup → Tx (Fields × Bool)
replayed command_sha prior = do
  guard (prior.command_sha256 =? command_sha) idempotency_collision
  pure (prior.result, true)

transaction : String → String → (String → Tx Fields) → Tx (Fields × Bool)
unfolding find fresh replayed
transaction idempotency_key command_sha operation = do
  fault "after_begin"
  prior ← reads (λ db. find dedup_key idempotency_key db.command_dedup)
  elim prior [
    | some p ↦ replayed command_sha p
    | none ↦ fresh idempotency_key command_sha operation
  ]

-- COMMIT keeps the database of the transaction, and ROLLBACK the one before it. The fault after
-- the commit is raised for a fresh command only.
finish : Env → Db → Result ((Fields × Bool) × State) → Result (Fields × Bool) × Db
finish env db (err e) = (err e, db)
finish env db (ok ((result, true), s)) = (ok (result, true), s.db)
finish env db (ok ((result, false), s)) = (
  if env.fault_hook "after_commit" then err (fault_raised "after_commit") else ok (result, false),
  s.db,
)

begun : Env → String → (String → Tx Fields) → Db → Option String → Result (Fields × Bool) × Db
unfolding transaction finish
begun env idempotency_key operation db none = (err value_error, db)
begun env idempotency_key operation db (some command_sha) =
    finish env db
      (transaction idempotency_key command_sha operation env (record { db = db; calls = 0 }))

-- The outcome of a command, and the database after it.
unfoldable pub command :
    Env → String → Json → (String → Tx Fields) → Db → Result (Fields × Bool) × Db
unfolding verify_pragmas begun
command env idempotency_key command_json operation db =
    if verify_pragmas env.pragmas
    then begun env idempotency_key operation db (sha256_json env.digest command_json)
    else (err integrity_error, db)
