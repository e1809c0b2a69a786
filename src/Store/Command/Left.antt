-- ===== src/Store/Command/Left.antt =====
-- What `Store.command` of src/city2core/store.py leaves in the tables other than `command_dedup`.
use city.Base.{
  String, ◌≡◌, refl, ◌⊎◌, inl, inr, Bool, true, false, Option, none, some, List, Bool-cases,
  Option-cases,
}
use city.Model.Json.{Json, Fields}
use city.Model.Canonical.{sha256_json}
use city.Store.Rows.{Db, Dedup}
use city.Store.Tx.{Env, State, Tx, Result, ok, err}
use city.Store.Post.{Post, seq, view, returns}
use city.Store.Post.Steps.{
  reads_lem, guard_lem, fault_lem, check_canonical_lem, utc_now_lem, insert_then,
}
use city.Store.Command.{command, transaction, fresh, replayed, begun, finish, verify_pragmas}

-- A database that the operation left, with another table of recorded commands.
abbrev Done : (Db → Type 0) → Db → Type 0
Done P db' = (d : Db) × (t : List Dedup) × P d × (db' ≡ record d { command_dedup = t })

abbrev pub Left : Db → (Db → Type 0) → Db → Type 0
Left db P db' = (db' ≡ db) ⊎ Done P db'

module _ (env : Env) (key : String) (operation : String → Tx Fields) (db : Db) (P : Db → Type 0)
    (post : Post env db (operation key) (λ _ db'. P db')) where
  fresh-Left : (sha : String) → Post env db (fresh key sha operation) (λ _ db'. Left db P db')
  unfolding fresh
  fresh-Left sha = seq post λ result d p. view (check_canonical_lem _) λ _ _.
      view (fault_lem _) λ _ _. view utc_now_lem λ now _.
        insert_then _ _ _ _ _ λ t there. view (fault_lem _) λ _ _. returns _ (inr (d, t, p, refl))

  replayed-Left : (sha : String) (p : Dedup) → Post env db (replayed sha p) (λ _ db'. Left db P db')
  unfolding replayed
  replayed-Left sha p = view (guard_lem _ _) λ _ _. returns _ (inl refl)

  transaction-Left :
      (sha : String) → Post env db (transaction key sha operation) (λ _ db'. Left db P db')
  unfolding transaction
  transaction-Left sha = view (fault_lem _) λ _ _. view (reads_lem _) λ prior _. by_prior prior
    where
      by_prior :
          (prior : Option Dedup)
          → Post env db
              (elim prior [ some p ↦ replayed sha p | none ↦ fresh key sha operation ])
              (λ _ db'. Left db P db')
      by_prior none = fresh-Left sha
      by_prior (some p) = replayed-Left sha p

  finish-Left :
      (sha : String)
      → Left db P
          (finish env db (transaction key sha operation env (record { db = db; calls = 0 }))).1
  unfolding finish
  finish-Left sha = go (transaction key sha operation env (record { db = db; calls = 0 })) refl
    where
      go :
          (r : Result ((Fields × Bool) × State))
          → transaction key sha operation env (record { db = db; calls = 0 }) ≡ r
          → Left db P (finish env db r).1
      go (err e) h = inl refl
      go (ok ((r, true), s)) h = (transaction-Left sha).at 0 (r, true) s h
      go (ok ((r, false), s)) h = (transaction-Left sha).at 0 (r, false) s h

  -- After a command the tables are as they were, or as the operation left them.
  pub command-Left : (command_json : Json) → Left db P (command env key command_json operation db).1
  unfolding command begun
  command-Left command_json = elim (Bool-cases (verify_pragmas env.pragmas)) [
    | inl good ↦
        rw (good, command)
          (elim (Option-cases (sha256_json env.digest command_json)) [
            | inl e ↦ rw (e, begun) (inl refl)
            | inr (sha, e) ↦ rw (e, begun) (finish-Left sha)
          ])
    | inr bad ↦ rw (bad, command) (inl refl)
  ]
