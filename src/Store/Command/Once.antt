-- ===== src/Store/Command/Once.antt =====
-- How a command of `Store.command` in src/city2core/store.py ends, and what a recorded key makes of
-- it.
use city.Base.{
  String, ◌≡◌, refl, sym, ◌⊎◌, inl, inr, Bool, true, false, Option, none, some, arith, eq_iff,
  eq_refl, text_eq, if◌then◌else◌, Bool-cases, Option-cases,
}
use city.Model.Json.{Json, Fields}
use city.Model.Canonical.{sha256_json}
use city.Store.Rows.{Db, Dedup}
use city.Store.Table.{find, find-insert}
use city.Store.Tx.{
  Env, State, Tx, Result, Error, ok, err, ◌>>=◌, reads, guard, fault, pure, fault_raised,
}
use city.Store.Post.{Post, seq, view, returns, weaken}
use city.Store.Post.Steps.{
  reads_lem, guard_lem, fault_lem, check_canonical_lem, utc_now_lem, insert_then,
}
use city.Store.Command.{
  command, transaction, fresh, replayed, begun, finish, dedup_key, verify_pragmas,
}

-- The command with the digest `sha` is recorded under `key`, with the result `r`.
pub record Recorded (key sha : String) (r : Fields) (db : Db) : Type 0 where
  pub row : Dedup
  pub there : find dedup_key key db.command_dedup ≡ some row
  pub same_command : row.command_sha256 ≡ sha
  pub same_result : row.result ≡ r

anything : {A : Type 0} {env : Env} {db : Db} (m : Tx A) → Post env db m (λ _ _. Unit {0})
anything m = record { at = λ n a t h. tt }

abbrev dedup_row : String → String → Fields → String → Dedup
dedup_row key sha result now = record {
  idempotency_key = key;
  command_sha256 = sha;
  result = result;
  committed_at = now;
}

fresh-Recorded :
    (env : Env) (db : Db) (key sha : String) (operation : String → Tx Fields)
    → Post env db
        (fresh key sha operation)
        (λ out db'. Recorded key sha out.0 db' × (out.1 ≡ false))
unfolding fresh
fresh-Recorded env db key sha operation = seq (anything (operation key)) λ result d _.
    view (check_canonical_lem _) λ _ _. view (fault_lem _) λ _ _. view utc_now_lem λ now _.
      insert_then _ _ _ _ _ λ t there. view (fault_lem _) λ _ _. returns _ (
        record {
          row = dedup_row key sha result now;
          there = rw (find-insert dedup_key _ _ _ key there, eq_refl key) refl;
          same_command = refl;
          same_result = refl;
        },
        refl,
      )

replayed-Recorded :
    (env : Env) (db : Db) (key sha : String) (p : Dedup)
    → find dedup_key key db.command_dedup ≡ some p
    → Post env db (replayed sha p) (λ out db'. Recorded key sha out.0 db' × (db' ≡ db))
unfolding replayed
replayed-Recorded env db key sha p there = view (guard_lem _ _) λ _ same.
    returns _
      (record { row = p; there = there; same_command = text_eq _ _ same; same_result = refl }, refl)

-- What a transaction that returns has done: its result is recorded, and a replay has written
-- nothing.
abbrev Outcome : String → String → Db → Fields × Bool → Db → Type 0
Outcome key sha db out db' = Recorded key sha out.0 db' × (out.1 ≡ true → db' ≡ db)

transaction-Recorded :
    (env : Env) (db : Db) (key sha : String) (operation : String → Tx Fields)
    → Post env db (transaction key sha operation) (Outcome key sha db)
unfolding transaction
transaction-Recorded env db key sha operation =
    view (fault_lem _) λ _ _. view (reads_lem _) λ prior found. by_prior prior (sym found)
  where
    by_prior :
        (prior : Option Dedup)
        → find dedup_key key db.command_dedup ≡ prior
        → Post env db
            (elim prior [ some p ↦ replayed sha p | none ↦ fresh key sha operation ])
            (Outcome key sha db)
    by_prior none e =
        weaken (fresh-Recorded env db key sha operation)
          λ out db' q. (q.0, λ h. absurd (cc (h, q.1)))
    by_prior (some p) e = weaken (replayed-Recorded env db key sha p e) λ out db' q. (q.0, λ _. q.1)

-- How a command ends: nothing is left of it, or it is recorded with the result that it returns;
-- an exception then came after the commit.
abbrev pub Ended : Option String → String → Db → Result (Fields × Bool) × Db → Type 0
Ended hash key db (out, db') =
    ((db' ≡ db) × ((e : Error) × (out ≡ err e)))
    ⊎ ((sha : String) × (r : Fields) × (hash ≡ some sha)
        × Recorded key sha r db'
        × (((flag : Bool) × (out ≡ ok (r, flag))) ⊎ (out ≡ err (fault_raised "after_commit"))))

module _ (env : Env) (key : String) (command_json : Json) (operation : String → Tx Fields)
    (db : Db) where
  finish-Ended :
      (sha : String)
      → Ended
          (some sha)
          key
          db
          (finish env db (transaction key sha operation env (record { db = db; calls = 0 })))
  unfolding finish
  finish-Ended sha = go (transaction key sha operation env (record { db = db; calls = 0 })) refl
    where
      go :
          (r : Result ((Fields × Bool) × State))
          → transaction key sha operation env (record { db = db; calls = 0 }) ≡ r
          → Ended (some sha) key db (finish env db r)
      go (err e) h = inl (refl, (e, refl))
      go (ok ((r, true), s)) h = inr (
        sha,
        r,
        refl,
        ((transaction-Recorded env db key sha operation).at 0 (r, true) s h).0,
        inl (true, refl),
      )
      go (ok ((r, false), s)) h = inr (
        sha,
        r,
        refl,
        ((transaction-Recorded env db key sha operation).at 0 (r, false) s h).0,
        elim (env.fault_hook "after_commit")
            as (λ b.
              ((flag : Bool) × (◌≡◌ {A = Result (Fields × Bool)}
                  (if b then err (fault_raised "after_commit") else ok (r, false)) (ok (r, flag))))
              ⊎ (◌≡◌ {A = Result (Fields × Bool)}
                  (if b then err (fault_raised "after_commit") else ok (r, false))
                  (err (fault_raised "after_commit")))) [
                    | true ↦ inr refl
                    | false ↦ inl (false, refl)
                  ],
      )

  pub command-Ended :
      Ended (sha256_json env.digest command_json) key db (command env key command_json operation db)
  unfolding command begun
  command-Ended = elim (Bool-cases (verify_pragmas env.pragmas)) [
    | inl good ↦
        rw (good, command)
          (elim (Option-cases (sha256_json env.digest command_json)) [
            | inl e ↦ rw (e, begun) (inl (refl, (_, refl)))
            | inr (sha, e) ↦ rw (e, begun) (finish-Ended sha)
          ])
    | inr bad ↦ rw (bad, command) (inl (refl, (_, refl)))
  ]

module _ (env : Env) (key : String) (command_json : Json) (operation : String → Tx Fields)
    (db : Db) where
  -- Where the pragmas are right and no fault is raised at the start, a command whose key is
  -- recorded for its digest returns the recorded result and changes nothing.
  pub command_replays :
      (sha : String) (r : Fields)
      → verify_pragmas env.pragmas ≡ true
      → env.fault_hook "after_begin" ≡ false
      → sha256_json env.digest command_json ≡ some sha
      → Recorded key sha r db
      → command env key command_json operation db ≡ (ok (r, true), db)
  unfolding command begun transaction replayed finish fault reads guard pure ◌>>=◌
  command_replays sha r good quiet hashed rec = ground (
    arith,
    good,
    quiet,
    hashed,
    rec.there,
    rec.same_result,
    eq_iff rec.row.command_sha256 sha,
    rec.same_command,
  )
