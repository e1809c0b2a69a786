-- ===== src/Memory/Machine.antt =====
-- The calls of src/city2core/memory.py that change the tables of memory, as one machine.
pub mod Sweeps
use city.Base.{ℕ, String, ◌≡◌, refl, sym, subst, ap, inl, inr, Bool, true, false, List}
use city.Model.Json.{Json, Items, Fields, obj}
use city.Store.Tables.{MemoryRow}
use city.Store.Rows.{Db, Dedup}
use city.Store.Tx.{Env, State, Result, ok, err}
use city.Store.Post.{Post, weaken}
use city.Store.Command.Left.{Left, command-Left}
use city.Core.Call.{Call, invoke, checked, answer, later}
use city.Core.Machine.{empty_db}
use city.Memory.Create
use city.Memory.Review
use city.Memory.Stale
use city.Memory.Text.{normalize_text}
use city.Memory.Rows.Writes.{Normal}
use city.Memory.Lifecycle.{Safe, SafeDb, restart}
use city.Memory.Lifecycle.Create.{create_candidate_in-Created}
use city.Memory.Lifecycle.Stale.{mark_stale_in-Safe, revalidate_in-Safe}
use city.Memory.Lifecycle.Reviews.{review_candidate_in-Safe}

-- A method that changes a memory, with its arguments.
pub data MemoryMethod : Type 0 where
  create_candidate : Fields → String → MemoryMethod
  review_candidate : String → String → ℕ → String → Items → Fields → MemoryMethod
  mark_stale : String → String → ℕ → String → MemoryMethod
  revalidate : String → Json → String → ℕ → String → MemoryMethod

unfoldable pub memory_call : MemoryMethod → Call
memory_call (MemoryMethod.create_candidate a b) = Create.create_candidate a b
memory_call (MemoryMethod.review_candidate a b c d e f) = Review.review_candidate a b c d e f
memory_call (MemoryMethod.mark_stale a b c d) = Stale.mark_stale a b c d
memory_call (MemoryMethod.revalidate a b c d e) = Stale.revalidate a b c d e

module _ (P : Db → Type 0)
    (others : (d : Db) (t : List Dedup) → P d → P (record d { command_dedup = t })) where
  -- What the operation of a call keeps, and the table of recorded commands does not matter to, the
  -- call keeps.
  pub invoke-keeps :
      (env : Env) (c : Call) (key : String) (db : Db)
      → ((k : ℕ) → Post (later k env) db (c.operation key) (λ _ d. P d))
      → P db
      → P (invoke env c key db).1
  unfolding invoke
  invoke-keeps env c key db post p = at (c.prepare env (record { db = db; calls = 0 }))
    where
      answered : (r : Result (Fields × Bool) × Db) → (answer r).1 ≡ r.1
      answered (ok (_, _), d) = refl
      answered (err _, d) = refl

      left : (db' : Db) → Left db P db' → P db'
      left db' (inl same) = subst P (sym same) p
      left db' (inr (d, t, q, same)) = subst P (sym same) (others d t q)

      at : (r : Result (Fields × State)) → P (checked env c key db r).1
      at (err e) = p
      at (ok (d, s)) =
          subst P (sym (answered _))
            (left _ (command-Left (later s.calls env) key c.operation db P (post s.calls) (obj d)))

later-Normal : (f : String → String) (env : Env) (k : ℕ) → Normal f env → Normal f (later k env)
unfolding normalize_text
later-Normal f env k norm = norm

module _ {env : Env} {db : Db} {f : String → String} {start : List MemoryRow} (norm : Normal f env)
    (safe : SafeDb f start db) where
  operation-Safe :
      (m : MemoryMethod) (key : String)
      → Post env db ((memory_call m).operation key) (λ _ d. SafeDb f start d)
  unfolding memory_call city.Memory.Create.create_candidate city.Memory.Review.review_candidate
      city.Memory.Stale.mark_stale city.Memory.Stale.revalidate
  operation-Safe (MemoryMethod.create_candidate a b) key =
      weaken (create_candidate_in-Created start a b key) λ _ d out. out.1 safe
  operation-Safe (MemoryMethod.review_candidate a b c d e f) key =
      review_candidate_in-Safe norm safe a b c d e f key
  operation-Safe (MemoryMethod.mark_stale a b c d) key = mark_stale_in-Safe safe a b c d key
  operation-Safe (MemoryMethod.revalidate a b c d e) key =
      revalidate_in-Safe safe a b c d e key norm

-- A call of one of the four commands on safe tables of memory, whether it succeeds or not, leaves
-- them safe: every record names its row, the full-text index has rows for exactly the accepted
-- records, each with the statement, the labels and the sources of the record as it is, normalized, no
-- row goes, none goes back in its version, and those that are rejected, superseded or quarantined
-- stay as they are. The environment normalizes as the index was normalized.
pub memory_call-Safe :
    (f : String → String) (env : Env) (m : MemoryMethod) (key : String) (start : List MemoryRow)
    (db : Db)
    → Normal f env
    → SafeDb f start db
    → SafeDb f start (invoke env (memory_call m) key db).1
memory_call-Safe f env m key start db norm safe =
    invoke-keeps (SafeDb f start) (λ d t s. s) env (memory_call m) key db
      (λ k. operation-Safe (later-Normal f env k norm) safe m key) safe

pub empty-Safe : (f : String → String) → SafeDb f empty_db.memories empty_db
unfolding city.Memory.Rows.Fresh.Every city.Memory.Lifecycle.is_indexed city.Store.Table.find
empty-Safe f = record {
  named = λ id r f. cc;
  indexed = λ id. refl;
  content = tt;
  kept = λ id r f. (r, f, inl refl);
}
