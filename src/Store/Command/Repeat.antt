-- ===== src/Store/Command/Repeat.antt =====
-- A client of src/city2core/store.py that repeats a command after an answer, or after a crash.
use city.Base.{String, ◌≡◌, ◌≢◌, subst, inl, inr, Bool, true, false, some}
use city.Model.Json.{Json, Fields}
use city.Model.Canonical.{sha256_json}
use city.Store.Rows.{Db}
use city.Store.Tx.{Env, Tx, ok}
use city.Store.Command.{command, verify_pragmas}
use city.Store.Command.Once.{Recorded, command-Ended, command_replays}

module _ (env : Env) (key : String) (command_json : Json) (operation : String → Tx Fields) (db : Db)
    (again : Env) (operation_again : String → Tx Fields) where
  abbrev after : Db
  after = (command env key command_json operation db).1

  abbrev Repeats : Fields → Type 0
  Repeats r = command again key command_json operation_again after ≡ (ok (r, true), after)

  repeated :
      (sha : String) (r : Fields)
      → verify_pragmas again.pragmas ≡ true
      → again.fault_hook "after_begin" ≡ false
      → again.digest ≡ env.digest
      → sha256_json env.digest command_json ≡ some sha
      → Recorded key sha r after
      → Repeats r
  repeated sha r good quiet same hashed rec =
      command_replays again key command_json operation_again after sha r good quiet (rw same hashed)
        rec

  -- After an answer, a repeat of the command under its key gives the same answer and changes
  -- nothing, whatever its operation does by now, where the pragmas are right, no fault is raised
  -- at the start and the hash is the same.
  pub command_once :
      (r : Fields) (flag : Bool)
      → verify_pragmas again.pragmas ≡ true
      → again.fault_hook "after_begin" ≡ false
      → again.digest ≡ env.digest
      → (command env key command_json operation db).0 ≡ ok (r, flag)
      → command again key command_json operation_again after ≡ (ok (r, true), after)
  command_once r flag good quiet same answered =
      elim (command-Ended env key command_json operation db) [
        | inl (_, (e, failed)) ↦ absurd (cc (failed, answered))
        | inr (sha, r', hashed, rec, inl (flag', out)) ↦
            let e : r' ≡ r = cc (out, answered) in
            subst Repeats e (repeated sha r' good quiet same hashed rec)
        | inr (sha, r', hashed, rec, inr out) ↦ absurd (cc (out, answered))
      ]

  -- A command that has changed the database, also one that ended in an exception, has a recorded
  -- answer: every repeat under its key returns it and changes nothing, where the pragmas are
  -- right, no fault is raised at the start and the hash is the same.
  pub command_recovers :
      verify_pragmas again.pragmas ≡ true
      → again.fault_hook "after_begin" ≡ false
      → again.digest ≡ env.digest
      → (command env key command_json operation db).1 ≢ db
      → (r : Fields) × (command again key command_json operation_again after
          ≡ (ok (r, true), after))
  command_recovers good quiet same changed =
      elim (command-Ended env key command_json operation db) [
        | inl (unchanged, _) ↦ absurd (changed unchanged)
        | inr (sha, r, hashed, rec, _) ↦ (r, repeated sha r good quiet same hashed rec)
      ]
