-- ===== src/Core/Rows/Reads.antt =====
-- The postconditions of the lookups of src/city2core/core.py.
use city.Base.{ℕ, String, ◌≡◌, sym, ◌∙◌, some, List, [], ◌∷◌, arith}
use city.Store.Rows.{Db}
use city.Store.Table.{find}
use city.Store.Tx.{Env}
use city.Store.Post.{Views, look, weaken_view}
use city.Store.Post.Steps.{
  Any, reads_lem, guard_lem, or_raise_lem, pure_lem, field_of_lem, accepts_lem, fault_lem,
}
use city.Store.Events.{expect_version, projection_updated}
use city.Core.Call.{validate, pick}
use city.Core.Rows.{
  objective_key, task_key, run_key, action_key, objective_row, task_row, run_row, action_row,
  task_revision, task,
}
use city.Model.Json.{Fields}

module _ {env : Env} {db : Db} where
  pub expect_version_lem :
      (n : ℕ) (actual : Db → ℕ) → Views env db (expect_version n actual) (λ _. actual db ≡ n)
  unfolding expect_version
  expect_version_lem n actual =
      look (reads_lem _) λ found e. weaken_view (guard_lem _ _) λ _ f. ground (arith, f, e)

  pub objective_row_lem :
      (id : String)
      → Views env db (objective_row id) (λ r. find objective_key id db.objectives ≡ some r)
  unfolding objective_row
  objective_row_lem id =
      look (reads_lem _) λ row e. weaken_view (or_raise_lem _ row) λ r f. sym e ∙ f

  pub task_row_lem :
      (id : String) → Views env db (task_row id) (λ r. find task_key id db.tasks ≡ some r)
  unfolding task_row
  task_row_lem id = look (reads_lem _) λ row e. weaken_view (or_raise_lem _ row) λ r f. sym e ∙ f

  pub run_row_lem :
      (id : String) → Views env db (run_row id) (λ r. find run_key id db.runs ≡ some r)
  unfolding run_row
  run_row_lem id = look (reads_lem _) λ row e. weaken_view (or_raise_lem _ row) λ r f. sym e ∙ f

  pub action_row_lem :
      (id : String) → Views env db (action_row id) (λ r. find action_key id db.actions ≡ some r)
  unfolding action_row
  action_row_lem id = look (reads_lem _) λ row e. weaken_view (or_raise_lem _ row) λ r f. sym e ∙ f

  pub task_revision_lem : (id : String) (n : ℕ) → Views env db (task_revision id n) Any
  unfolding task_revision
  task_revision_lem id n =
      look (reads_lem _)
        λ row _. look (or_raise_lem _ row) λ r _. weaken_view (pure_lem _) λ _ _. tt

  pub task_lem : (id : String) → Views env db (task id) Any
  unfolding task
  task_lem id =
      look (task_row_lem id)
        λ row _. look (task_revision_lem id _) λ revision _. weaken_view (pure_lem _) λ _ _. tt

  pub validate_lem : (schema : String) (d : Fields) → Views env db (validate schema d) Any
  unfolding validate
  validate_lem schema d = look (accepts_lem _ _) λ valid _. weaken_view (guard_lem _ _) λ _ _. tt

  pub pick_lem : (names : List String) (d : Fields) → Views env db (pick names d) Any
  unfolding pick
  pick_lem [] d = weaken_view (pure_lem _) λ _ _. tt
  pick_lem (n ∷ names) d =
      look (field_of_lem n d)
        λ v _. look (pick_lem names d) λ rest _. weaken_view (pure_lem _) λ _ _. tt

  pub projection_updated_lem : Views env db projection_updated Any
  unfolding projection_updated
  projection_updated_lem = weaken_view (fault_lem _) λ _ _. tt
