-- ===== src/Core/Call.antt =====
-- How a method of `Core` in src/city2core/core.py runs: its checks, then `Store.command`.
use city.Base.{ℕ, ◌+◌, String, Bool, true, false, none, some, List, [], ◌∷◌}
use city.Model.Json.{Json, Fields, obj, end, field, get, missing}
use city.Store.Rows.{Db}
use city.Store.Tx.{
  Env, State, Tx, Result, ok, err, core_error, invalid_record, missing_fields, ◌>>=◌, pure, guard,
  accepts, field_of,
}
use city.Store.Command.{command}

-- A method with its arguments: what it does before the transaction, which checks the arguments and
-- makes the dict that `command` hashes, and the closure that runs inside, which takes the
-- idempotency key of its transaction.
pub record Call : Type 0 where
  pub prepare : Tx Fields
  pub operation : String → Tx Fields

-- The clock and the random source after `k` readings.
abbrev pub later : ℕ → Env → Env
later k env = record env {
  clock = λ n. env.clock (k + n);
  uuid7 = λ n. env.uuid7 (k + n);
  token_urlsafe = λ n. env.token_urlsafe (k + n);
  uuid4 = λ n. env.uuid4 (k + n);
}

-- `self.store.command(…)[0]`
abbrev pub answer : Result (Fields × Bool) × Db → Result Fields × Db
answer (ok (r, _), db) = (ok r, db)
answer (err e, db) = (err e, db)

abbrev pub checked : Env → Call → String → Db → Result (Fields × State) → Result Fields × Db
checked env c key db (err e) = (err e, db)
checked env c key db (ok (command_dict, s)) =
    answer (command (later s.calls env) key (obj command_dict) c.operation db)

unfoldable pub invoke : Env → Call → String → Db → Result Fields × Db
unfolding command
invoke env c key db = checked env c key db (c.prepare env (record { db = db; calls = 0 }))

-- a dict that is written out
unfoldable pub dict : List (String × Json) → Fields
dict [] = end
dict ((k, v) ∷ l) = field k v (dict l)

unfoldable pub is_empty : List String → Bool
is_empty [] = true
is_empty _ = false

-- `_required`
unfoldable pub required : List String → Fields → Tx (Unit {0})
unfolding missing is_empty
required names d =
    guard (is_empty (missing names d)) (core_error (missing_fields (missing names d)))

-- `{name: d[name], …}`
unfoldable pub pick : List String → Fields → Tx Fields
pick [] d = pure end
pick (n ∷ names) d = do v ← field_of n d; rest ← pick names d; pure (field n v rest)

-- `d.get(k, default)`
unfoldable pub get_or : String → Json → Fields → Json
unfolding get
get_or k default d = elim (get k d) [ none ↦ default | some v ↦ v ]

-- `Core._validate`
unfoldable pub validate : String → Fields → Tx (Unit {0})
validate schema d = do valid ← accepts schema (obj d); guard valid (core_error invalid_record)
