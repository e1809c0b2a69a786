-- ===== src/Core/Effect/Results.antt =====
-- `submit_result`, `revise_task` and `create_task` of src/city2core/core.py.
use city.Base.{
  ℕ, ◌+◌, String, ◌≡◌, refl, sym, ap, ◌∙◌, subst, Bool, true, false, inl, inr, some, List, arith,
  if◌then◌else◌, Bool-cases, ◌=?◌,
}
use city.Model.Json.{Fields, str}
use city.Store.States.{TaskState}
use city.Store.Rows.{Db, Event, TaskRow, Revision, Marker}
use city.Store.Table.{find, insert, update, find-insert, find-insert_new}
use city.Store.Tx.{Env}
use city.Store.Post.{Post, Views, seq, view, returns, ends, weaken, weaken_view}
use city.Store.Post.Steps.{
  reads_lem, guard_lem, or_raise_lem, utc_now_lem, id_or_new_lem, sha_json_lem, check_canonical_lem,
  field_of_lem, text_of_lem, nat_of_lem, fault_lem, execute_lem, insert_then, write_then,
}
use city.Store.Events.{NewEvent, logged}
use city.Store.Events.Append.{Appended, append_then, marker_of, same_log}
use city.Core.Rows.{task_key, with_tasks, insert_task_revision, revision_taken}
use city.Core.Rows.Reads.{
  expect_version_lem, objective_row_lem, task_row_lem, run_row_lem, task_revision_lem, pick_lem,
  validate_lem, task_lem, projection_updated_lem,
}
use city.Core.Lifecycle.{TaskStep, TaskMarks, may_move, lease_ok}
use city.Core.Transition.{marked}
use city.Core.Task.{create_task_in}
use city.Core.Revise.{is_changes_requested, is_cancelling, revised, revise_task_in}
use city.Core.Submit.{
  after_result, finished, quarantine, record_result, result_version, same_text, submit_result_in,
  is_running,
}
use city.Core.Effect.{Effect, task_moves, task_created, ledger, TaskCreated}
use city.Core.Effect.Moves.{found_version, own_row, update-TaskMoves}

-- A result that comes after the cancellation leaves the state and the columns of the lease alone.
quarantined-TaskStep :
    (row : TaskRow) (v : ℕ) (m : Marker) (now : String)
    → row.aggregate_version ≡ v
    → is_cancelling row.state ≡ true
    → TaskStep row (marked (v + 1) m now row)
unfolding is_cancelling may_move lease_ok
quarantined-TaskStep row v m now current test = record {
  task_id = refl;
  version = ground arith;
  edge = ground arith;
  lease = λ h. h;
  attempts = inl refl;
}

finished-TaskStep :
    (row : TaskRow) (v : ℕ) (m : Marker) (now : String) (n : ℕ) (completed : Bool)
    → row.aggregate_version ≡ v
    → is_running row.state ≡ true
    → TaskStep row (finished (after_result n completed row) (v + 1) m now row)
unfolding finished after_result is_running may_move lease_ok
finished-TaskStep row v m now n completed current test = record {
  task_id = refl;
  version = ground arith;
  edge = ground arith;
  lease = λ _. ground arith;
  attempts = inl refl;
}

finished-TaskMarks :
    (row : TaskRow) (next : TaskState) (v : ℕ) (e : Event) (now : String)
    → e.aggregate_version ≡ v
    → TaskMarks e (finished next v (marker_of e) now row)
unfolding finished
finished-TaskMarks row next v e now h = record {
  event_id = refl;
  event_sha256 = refl;
  high_water = refl;
  version = sym h;
}

finished-key :
    (next : TaskState) (v : ℕ) (m : Marker) (now : String) (r : TaskRow)
    → task_key (finished next v m now r) ≡ task_key r
unfolding finished
finished-key next v m now r = refl

revised-TaskStep :
    (row : TaskRow) (v : ℕ) (m : Marker) (now : String) (n : ℕ) (sha : String) (limit : ℕ)
    → row.aggregate_version ≡ v
    → is_changes_requested row.state ≡ true
    → TaskStep row (revised (v + 1) m now n sha limit row)
unfolding revised is_changes_requested may_move lease_ok
revised-TaskStep row v m now n sha limit current test = record {
  task_id = refl;
  version = ground arith;
  edge = ground arith;
  lease = λ h. ground arith;
  attempts = inl refl;
}

revised-TaskMarks :
    (row : TaskRow) (v : ℕ) (e : Event) (now : String) (n : ℕ) (sha : String) (limit : ℕ)
    → e.aggregate_version ≡ v
    → TaskMarks e (revised v (marker_of e) now n sha limit row)
unfolding revised
revised-TaskMarks row v e now n sha limit h = record {
  event_id = refl;
  event_sha256 = refl;
  high_water = refl;
  version = sym h;
}

revised-key :
    (v : ℕ) (m : Marker) (now : String) (n : ℕ) (sha : String) (limit : ℕ) (r : TaskRow)
    → task_key (revised v m now n sha limit r) ≡ task_key r
unfolding revised
revised-key v m now n sha limit r = refl

module _ {env : Env} {db : Db} where
  quarantine-Effect :
      (id : String) (row : TaskRow) (run_id : String) (result : Fields) (actor key : String)
      → find task_key id db.tasks ≡ some row
      → is_cancelling row.state ≡ true
      → Post env db (quarantine row run_id result actor key) (λ _ db'. Effect env db (ledger db'))
  unfolding quarantine
  quarantine-Effect id row run_id result actor key found test = view utc_now_lem λ now _.
      view (sha_json_lem _) λ sha _. write_then _ _ λ _. append_then _ _ _ λ event facts.
        write_then _ _ λ _. view projection_updated_lem λ _ _. view (task_lem _) λ shown _.
          returns _ (
            task_moves (
              update-TaskMoves row.task_id row _ event
                (marked (row.aggregate_version + 1) (marker_of event) now) (own_row id row db found)
                (same_log refl refl refl facts) refl refl refl (λ r. refl)
                (quarantined-TaskStep row row.aggregate_version (marker_of event) now refl test)
                (record {
                  event_id = refl;
                  event_sha256 = refl;
                  high_water = refl;
                  version = sym facts.aggregate_version;
                })))

  record_result-Effect :
      (id : String) (row : TaskRow) (v : ℕ) (run_id : String) (result : Fields) (actor key : String)
      → find task_key id db.tasks ≡ some row
      → row.aggregate_version ≡ v
      → is_running row.state ≡ true
      → Post env db
          (record_result row v run_id result actor key)
          (λ _ db'. Effect env db (ledger db'))
  unfolding record_result
  record_result-Effect id row v run_id result actor key found current test =
      view utc_now_lem λ now _. view (sha_json_lem _) λ sha _. view (reads_lem _) λ n _.
        view (field_of_lem _ _) λ status _. write_then _ _ λ _. append_then _ _ _ λ event facts.
          write_then _ _ λ _. view projection_updated_lem λ _ _. view (fault_lem _) λ _ _.
            view (task_lem _) λ shown _. returns _ (
              task_moves (
                update-TaskMoves row.task_id row _ event
                  (finished (after_result n _ row) (v + 1) (marker_of event) now)
                  (own_row id row db found) (same_log refl refl refl facts) refl refl
                  (omega (arith, current))
                  (finished-key (after_result n (same_text status (str "completed")) row) (v + 1)
                    (marker_of event) now)
                  (finished-TaskStep row v (marker_of event) now n _ current test)
                  (finished-TaskMarks row _ _ event now facts.aggregate_version)))

  pub result_version_lem :
      (row : TaskRow) (id : String) (v : ℕ)
      → find task_key id db.tasks ≡ some row
      → Views env db
          (result_version row id v)
          (λ _. is_cancelling row.state ≡ false → row.aggregate_version ≡ v)
  unfolding result_version
  result_version_lem row id v found = elim (Bool-cases (is_cancelling row.state)) [
    | inl c ↦ rw (result_version, c) (weaken_view (guard_lem _ _) λ _ _ no. absurd (cc no))
    | inr c ↦
        rw (result_version, c)
          (weaken_view (expect_version_lem _ _) λ _ e _. found_version id v db row e found)
  ]

  pub submit_result-Effect :
      (result : Fields) (actor key : String)
      → Post env db (submit_result_in result actor key) (λ _ db'. Effect env db (ledger db'))
  unfolding submit_result_in
  submit_result-Effect result actor key = view (field_of_lem _ _) λ j1 _.
      view (text_of_lem _) λ id _. view (field_of_lem _ _) λ j2 _. view (nat_of_lem _) λ v _.
        view (field_of_lem _ _) λ j3 _. view (text_of_lem _) λ run_id _.
          view (task_row_lem id) λ row found. view (result_version_lem row id v found) λ _ current.
            view (run_row_lem run_id) λ run _. view (guard_lem _ _) λ _ _.
              view (field_of_lem _ _) λ granted _. view (field_of_lem _ _) λ fence _.
                view (guard_lem _ _) λ _ _. view (guard_lem _ _) λ _ _.
                  view (guard_lem _ _) λ _ test. view (fault_lem _) λ _ _.
                    elim (Bool-cases (is_cancelling row.state)) [
                      | inl c ↦ rw c (quarantine-Effect id row run_id result actor key found c)
                      | inr c ↦ rw c (
                          record_result-Effect id row v run_id result actor key found (current c)
                            (ground (arith, test, c)))
                    ]

module _ {env : Env} {db : Db} where
  pub insert_task_revision_lem :
      (r : Revision) → Post env db (insert_task_revision r) (λ _ db'. ledger db' ≡ ledger db)
  unfolding insert_task_revision
  insert_task_revision_lem r = weaken (execute_lem _) λ _ db' e.
      elim (Bool-cases (revision_taken r db.task_revisions)) [
        | inl c ↦ absurd (cc (rw c at e))
        | inr c ↦ let g = rw c at e in ground arith
      ]

module _ {env : Env} {db : Db} where
  pub revise_task-Effect :
      (id : String) (updates : Fields) (v : ℕ) (review_id : String) (findings : List String)
      (actor key : String)
      → Post env db
          (revise_task_in id updates v review_id findings actor key)
          (λ _ db'. Effect env db (ledger db'))
  unfolding revise_task_in
  revise_task-Effect id updates v review_id findings actor key =
      view (expect_version_lem _ _) λ _ current. view (task_row_lem id) λ row found.
        view (guard_lem _ _) λ _ test. view (task_revision_lem _ _) λ previous _.
          view (reads_lem _) λ last _. view (or_raise_lem _ last) λ run _. view utc_now_lem λ now _.
            view (sha_json_lem _) λ sha _. view (guard_lem _ _) λ _ _.
              append_then _ _ _ λ event facts. view (check_canonical_lem _) λ _ _.
                seq (insert_task_revision_lem _) λ _ d same. view (field_of_lem _ _) λ limit _.
                  view (nat_of_lem _) λ attempts _. write_then _ _ λ _.
                    view projection_updated_lem λ _ _. ends (task_lem _) λ _ _.
                      let version = found_version id v db row current found in
                      let f =
                        revised (v + 1) (marker_of event) now (row.task_revision + 1) sha
                          attempts in
                      subst (λ l. Effect env db (record l { tasks = update task_key id f l.tasks }))
                        (sym same)
                        (task_moves (
                          update-TaskMoves id row _ event f found facts refl refl (ground arith)
                            (revised-key (v + 1) (marker_of event) now (row.task_revision + 1) sha
                              attempts)
                            (revised-TaskStep row v (marker_of event) now (row.task_revision + 1)
                              sha attempts version test)
                            (revised-TaskMarks row (v + 1) event now (row.task_revision + 1) sha
                              attempts facts.aggregate_version)))

-- An append and an INSERT.
module _ {env : Env} {db : Db} (input : NewEvent) (row : TaskRow) (event : Event) (d : Db)
    (t : List TaskRow) where
  insert-TaskCreated :
      Appended env input db event
      → input.aggregate_type ≡ "task"
      → input.aggregate_id ≡ row.task_id
      → input.aggregate_version ≡ 1
      → ledger d ≡ ledger (logged event db)
      → insert task_key row d.tasks ≡ some t
      → row.state ≡ TaskState.proposed
      → lease_ok row ≡ true
      → row.attempt_count ≡ 0
      → TaskMarks event row
      → TaskCreated env db (ledger (with_tasks t d))
  insert-TaskCreated facts kind same_id first same there state lease attempts marks =
      let old = ap (λ l. l.tasks) same in
      record {
        new = row;
        event = event;
        absent =
            ap (find task_key row.task_id) (sym old) ∙ find-insert_new task_key row d.tasks t there;
        state = state;
        lease = lease;
        attempts = attempts;
        logs = record {
          input = input;
          appended = facts;
          kind_is = kind;
          id_is = same_id;
          version_is = first;
          events = ap (λ l. l.events) same;
          writer_sequence = ap (λ l. l.writer_sequence) same;
          global_sequence = ap (λ l. l.global_sequence) same;
        };
        marks = marks;
        tasks = λ k.
            subst
              (λ l. find task_key k t ≡ (if row.task_id =? k then some row else find task_key k l))
              old (find-insert task_key row d.tasks t k there);
        objectives = ap (λ l. l.objectives) same;
        actions = ap (λ l. l.actions) same;
      }

module _ {env : Env} {db : Db} where
  pub create_task-Effect :
      (fields : Fields) (actor key : String)
      → Post env db (create_task_in fields actor key) (λ _ db'. Effect env db (ledger db'))
  unfolding create_task_in lease_ok
  create_task-Effect fields actor key = view (field_of_lem _ _) λ j _.
      view (text_of_lem _) λ objective_id _. view (objective_row_lem _) λ objective _.
        view (guard_lem _ _) λ _ _. view utc_now_lem λ now _. view (id_or_new_lem _ _ _) λ given _.
          view (pick_lem _ _) λ chosen _. view (sha_json_lem _) λ sha _.
            view (field_of_lem _ _) λ max _. view (validate_lem _ _) λ _ _.
              view (text_of_lem _) λ id _. view (nat_of_lem _) λ attempts _.
                view (expect_version_lem _ _) λ _ _. append_then _ _ _ λ event facts.
                  view (check_canonical_lem _) λ _ _. seq (insert_task_revision_lem _) λ _ d same.
                    insert_then _ _ _ _ _ λ t there. view projection_updated_lem λ _ _. returns _ (
                      task_created (
                        insert-TaskCreated _ _ event d t facts refl refl refl same there refl refl
                          refl
                          (record {
                            event_id = refl;
                            event_sha256 = refl;
                            high_water = refl;
                            version = sym facts.aggregate_version;
                          })))
