-- ===== src/Core/Machine/Follow.antt =====
-- What one call of src/city2core/core.py makes of a task that is there.
use city.Base.{
  String, ◌=?◌, ◌≡◌, refl, sym, ap, subst, ◌∙◌, ◌⊎◌, inl, inr, true, false, some, arith, Bool-cases,
  if◌then◌else◌, text_eq,
}
use city.Store.States.{TaskState}
use city.Store.Rows.{Db, TaskRow}
use city.Store.Table.{find}
use city.Store.Tx.{Env}
use city.Core.Call.{invoke}
use city.Core.Rows.{task_key}
use city.Core.Lifecycle.{TaskStep, is_terminal, may_move}
use city.Core.Effect.{
  Effect, task_moves, task_created, action_moves, action_created, objective_moves,
  objective_created, action_stops_task, Ledger, ledger, TaskMoves, TaskCreated,
}
use city.Core.Machine.{Method, call_of}
use city.Core.Machine.Projection.{some_eq}
use city.Core.Machine.Steps.{invoke-Stepped}

-- The row of a task stays, or one legal step replaces it.
abbrev pub Follows : String → TaskRow → Ledger → Type 0
Follows id row l =
    (row' : TaskRow) × (find task_key id l.tasks ≡ some row') × ((row' ≡ row) ⊎ TaskStep row row')

stays :
    (id : String) (row : TaskRow) (db : Db) (l : Ledger)
    → l.tasks ≡ db.tasks
    → find task_key id db.tasks ≡ some row
    → Follows id row l
stays id row db l same found = (row, ap (find task_key id) same ∙ found, inl refl)

module _ {env : Env} {db : Db} {l : Ledger} (id : String) (row : TaskRow) where
  moves-Follows : TaskMoves env db l → find task_key id db.tasks ≡ some row → Follows id row l
  moves-Follows m found = elim (Bool-cases (m.old.task_id =? id)) [
    | inl e ↦
        let named = text_eq m.old.task_id id e in
        let old = some_eq (sym m.found ∙ ap (λ k. find task_key k db.tasks) named ∙ found) in
        (
          m.new,
          m.tasks id ∙ ap (λ b. if b then some m.new else find task_key id db.tasks) e,
          inr (subst (λ r. TaskStep r m.new) old m.step),
        )
    | inr e ↦ (
      row,
      m.tasks id ∙ ap (λ b. if b then some m.new else find task_key id db.tasks) e ∙ found,
      inl refl,
    )
  ]

  created-Follows : TaskCreated env db l → find task_key id db.tasks ≡ some row → Follows id row l
  created-Follows m found = elim (Bool-cases (m.new.task_id =? id)) [
    | inl e ↦
        let named = text_eq m.new.task_id id e in
        absurd (cc (m.absent, ap (λ k. find task_key k db.tasks) named, found))
    | inr e ↦ (
      row,
      m.tasks id ∙ ap (λ b. if b then some m.new else find task_key id db.tasks) e ∙ found,
      inl refl,
    )
  ]

Effect-Follows :
    {env : Env} {db : Db} {l : Ledger} (id : String) (row : TaskRow)
    → Effect env db l
    → find task_key id db.tasks ≡ some row
    → Follows id row l
Effect-Follows id row (task_moves m) found = moves-Follows id row m found
Effect-Follows id row (task_created m) found = created-Follows id row m found
Effect-Follows {db = db} {l = l} id row (action_moves m) found = stays id row db l m.tasks found
Effect-Follows {db = db} {l = l} id row (action_created m) found = stays id row db l m.tasks found
Effect-Follows {db = db} {l = l} id row (objective_moves m) found = stays id row db l m.tasks found
Effect-Follows {db = db} {l = l} id row (objective_created m) found =
    stays id row db l m.tasks found
Effect-Follows id row (action_stops_task d m n _ _) found =
    moves-Follows id row n (ap (find task_key id) m.tasks ∙ found)

terminal_stuck : (s t : TaskState) → is_terminal s ≡ true → may_move s t ≡ false
unfolding is_terminal may_move
terminal_stuck s t h = ground arith

module _ (env : Env) (m : Method) (key : String) (db : Db) (id : String) (row : TaskRow) where
  -- A task that is there before a call is there after it, with the same row or with one that a
  -- legal step makes of it: the next version, an allowed change of state, columns of a lease that
  -- fit if they did, and an attempt counted only with a lease.
  pub task-Follows :
      find task_key id db.tasks ≡ some row
      → Follows id row (ledger (invoke env (call_of m) key db).1)
  task-Follows found = elim (invoke-Stepped env m key db) [
    | inl same ↦ subst (Follows id row) (sym same) (stays id row db (ledger db) refl found)
    | inr (k, effect) ↦ Effect-Follows id row effect found
  ]

  -- No call changes the row of a task in a terminal state.
  pub terminal_stays :
      find task_key id db.tasks ≡ some row
      → is_terminal row.state ≡ true
      → find task_key id (invoke env (call_of m) key db).1.tasks ≡ some row
  terminal_stays found terminal =
      let (row', there, how) = task-Follows found in
      elim how [
        | inl same ↦ there ∙ ap some same
        | inr step ↦
            let stuck = terminal_stuck row.state row'.state terminal in
            absurd (cc (stuck, step.edge))
      ]
