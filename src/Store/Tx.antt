-- ===== src/Store/Tx.antt =====
-- What runs inside one transaction of src/city2core/store.py: an action reads its environment,
-- changes the database and may raise. After a raise the database does not matter, since `command`
-- rolls it back.
use Prim.Native.Char.{Char}
use city.Base.{ℕ, suc, String, ◌&◌, Bool, true, false, Option, none, some, List}
use city.Model.Json.{Items, obj, arr, Json, Fields, get, truthy, int, pos, str}
use city.Model.Canonical.{Digest, sha256_json, canonical_json, digest_profile}
use city.Model.Ids.{Kind, id_prefix, parse_time}
use city.Store.States.{TaskState, ObjectiveStatus, ActionState}
use city.Store.Tables.{MemoryState, FtsRow}
use city.Store.Rows.{Db}
use city.Store.Table.{insert}

-- The settings that `_verify_pragmas` reads from the connection.
pub record Pragmas : Type 0 where
  pub foreign_keys : ℕ
  pub journal_mode : String
  pub synchronous : ℕ
  pub user_version : ℕ

-- What one call takes from outside: library functions, the successive readings of the clock and
-- of the random source, the fault hook (`true` means that it raises at that boundary), the
-- connection's settings and the validator of src/city2core/schema.py.
pub record Env : Type 0 where
  pub digest : Digest
  pub fromisoformat : String → Option ℕ
  pub valid : String → Json → Bool
  pub clock : ℕ → String
  pub uuid7 : ℕ → String
  pub token_urlsafe : ℕ → String
  pub fault_hook : String → Bool
  pub pragmas : Pragmas
  pub writer_id : String
  -- `SECRET_KEY_PATTERN.search(key)` of core.py, by Python's `re`
  pub secret_key : String → Bool
  -- of memory.py: `SECRET_KEY.search(key)`, `SECRET_CONTENT.search(text)`, and whether `urlsplit(uri)`
  -- has a user name or a password
  pub secret_metadata_key : String → Bool
  pub secret_content : String → Bool
  pub has_user_info : String → Bool
  -- of model.py: `unicodedata.normalize("NFKC", text).casefold()`
  pub folded : String → String
  -- of memory.py: `WORD.findall(text)`, `character.isspace()`, the identifiers that a full-text query
  -- finds in the index (SQLite FTS5), and `int(parsed.timestamp() * 1_000_000)`, which rounds
  pub words : String → List String
  pub is_space : Char → Bool
  pub fts_match : List FtsRow → String → List String
  pub timestamp_micros : ℕ → ℕ
  -- `uuid.uuid4()`
  pub uuid4 : ℕ → String

-- Why a command was refused by `CoreError`.
pub data Reason : Type 0 where
  missing_fields unknown_fields : List String → Reason
  invalid_record no_change profile_unchanged : Reason
  unknown_objective unknown_task unknown_run unknown_action missing_revision : Reason
  objective_transition : ObjectiveStatus → String → Reason
  terminal_objective objective_not_open : Reason
  task_transition : TaskState → Reason
  invalid_decision finding_required disposition_missing no_prior_run : Reason
  unresolved_actions expiry_not_future attempt_ceiling lease_not_expired : Reason
  secret_key operation_key_taken compensation_mismatch : Reason
  action_transition : ActionState → Reason
  invalid_outcome confirmation_evidence : Reason
  -- of memory.py
  evidence_required derivation_required secret_content secret_metadata : Reason
  uri_user_info revalidation_before_validity revalidation_too_late : Reason
  invalid_memory_decision invalid_independence unknown_memory : Reason
  memory_transition : MemoryState → Reason
  self_approval company_acceptance feedback_source source_checks_missing : Reason
  evidence_changed superseded_not_accepted : Reason
  unknown_clearance no_run scope_exceeded negative_budget : Reason
  unknown_sections : List String → Reason
  unsupported_export : Reason

pub data Error : Type 0 where
  core_error : Reason → Error
  version_conflict event_conflict stale_fence lease_expired run_not_owner future_version : Error
  idempotency_collision integrity_error store_error : Error
  -- raised by Python or SQLite: `ValueError`, `KeyError`, a refused statement
  value_error sqlite_error : Error
  key_error : String → Error
  -- raised by the fault hook
  fault_raised : String → Error

pub data Result {ℓ} (A : Type ℓ) : Type ℓ where
  ok : A → Result A
  err : Error → Result A

-- `calls` counts the readings taken so far from the clock and the random source.
pub record State : Type 0 where
  pub db : Db
  pub calls : ℕ

abbrev pub Tx : Type 0 → Type 0
Tx A = Env → State → Result (A × State)

infixl 5 ◌>>=◌ ◌>>◌
unfoldable pub ◌>>=◌ : {A B : Type 0} → Tx A → (A → Tx B) → Tx B
◌>>=◌ m f env s = elim (m env s) [ ok (a, t) ↦ f a env t | err e ↦ err e ]

abbrev pub ◌>>◌ : {A B : Type 0} → Tx A → Tx B → Tx B
m >> k = m >>= λ _. k

unfoldable pub pure : {A : Type 0} → A → Tx A
pure a env s = ok (a, s)

unfoldable pub fail : {A : Type 0} → Error → Tx A
fail e env s = err e

unfoldable pub reads : {A : Type 0} → (Db → A) → Tx A
reads f env s = ok (f s.db, s)

-- `if not test: raise e`
unfoldable pub guard : Bool → Error → Tx (Unit {0})
guard true e env s = ok (tt, s)
guard false e env s = err e

unfoldable pub or_raise : {A : Type 0} → Error → Option A → Tx A
or_raise e none env s = err e
or_raise e (some a) env s = ok (a, s)

-- `conn.execute` of a statement that writes; `none` is a constraint that it violates.
unfoldable pub execute : (Db → Option Db) → Tx (Unit {0})
execute f env s = elim (f s.db) [
  | none ↦ err sqlite_error
  | some db ↦ ok (tt, record s { db = db })
]

-- An UPDATE, which violates no constraint.
unfoldable pub write : (Db → Db) → Tx (Unit {0})
write f env s = ok (tt, record s { db = f s.db })

-- An INSERT into the table that `table` reads and `put` writes.
unfoldable pub insert_row :
    {R : Type 0} → (R → String) → (Db → List R) → (List R → Db → Db) → R → Tx (Unit {0})
unfolding execute insert
insert_row key table put r =
    execute (λ db. elim (insert key r (table db)) [ none ↦ none | some t ↦ some (put t db) ])

unfoldable pub utc_now : Tx String
utc_now env s = ok (env.clock s.calls, record s { calls = suc s.calls })

unfoldable pub new_id : Kind → Tx String
unfolding id_prefix
new_id kind env s = ok (id_prefix kind & env.uuid7 s.calls, record s { calls = suc s.calls })

unfoldable pub token_urlsafe : Tx String
token_urlsafe env s = ok (env.token_urlsafe s.calls, record s { calls = suc s.calls })

unfoldable pub uuid4 : Tx String
uuid4 env s = ok (env.uuid4 s.calls, record s { calls = suc s.calls })

-- `Store.fault`
unfoldable pub fault : String → Tx (Unit {0})
fault boundary env s = elim (env.fault_hook boundary) [
  | true ↦ err (fault_raised boundary)
  | false ↦ ok (tt, s)
]

-- `validate_named`
unfoldable pub accepts : String → Json → Tx Bool
accepts schema v env s = ok (env.valid schema v, s)

unfoldable pub sha_json : Json → Tx String
unfolding or_raise
sha_json v env s = or_raise value_error (sha256_json env.digest v) env s

-- `canonical_json` for its `ValueError` only; the database holds the value.
unfoldable pub check_canonical : Json → Tx String
unfolding or_raise
check_canonical v env s = or_raise value_error (canonical_json env.digest v) env s

unfoldable pub sha_profile : Fields → List String → Tx String
unfolding or_raise
sha_profile d excluded env s = or_raise value_error (digest_profile env.digest d excluded) env s

unfoldable pub time_of : String → Tx ℕ
unfolding or_raise
time_of value env s = or_raise value_error (parse_time env.fromisoformat value) env s

unfoldable pub writer : Tx String
writer env s = ok (env.writer_id, s)

-- `d[k]`
unfoldable pub field_of : String → Fields → Tx Json
unfolding or_raise
field_of k d = or_raise (key_error k) (get k d)

-- a JSON value as a parameter of a TEXT column
unfoldable pub text_of : Json → Tx String
text_of (str t) = pure t
text_of _ = fail sqlite_error

-- a JSON value as a parameter of an INTEGER column that is not negative
unfoldable pub nat_of : Json → Tx ℕ
nat_of (int (pos n)) = pure n
nat_of _ = fail sqlite_error

-- `fields.get(k) or new_id(kind)`
abbrev given_id : Option Json → Kind → Tx Json
given_id none kind = new_id kind >>= λ t. pure (str t)
given_id (some v) kind = elim (truthy v) [
  | true ↦ pure v
  | false ↦ new_id kind >>= λ t. pure (str t)
]

unfoldable pub id_or_new : String → Fields → Kind → Tx Json
id_or_new k d kind = given_id (get k d) kind

-- a JSON value that the code indexes or iterates as an object
unfoldable pub dict_of : Json → Tx Fields
dict_of (obj d) = pure d
dict_of _ = fail value_error

-- a JSON value that the code iterates as an array
unfoldable pub list_of : Json → Tx Items
list_of (arr xs) = pure xs
list_of _ = fail value_error

-- a reading of the environment that is not counted: a library function or a constant
unfoldable pub asks : {A : Type 0} → (Env → A) → Tx A
asks f env s = ok (f env, s)
