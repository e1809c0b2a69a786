-- ===== src/Core/Effect/Objectives.antt =====
-- `create_objective`, `set_objective_status` and `revise_objective` of src/city2core/core.py.
use city.Base.{
  ℕ, ◌+◌, String, ◌≡◌, ◌≢◌, refl, sym, ap, ◌∙◌, subst, true, false, not, inl, inr, some, List,
  arith, if◌then◌else◌, Bool-cases, ◌=?◌, eq_iff, eq_refl,
}
use city.Model.Json.{Fields}
use city.Store.States.{ObjectiveStatus}
use city.Store.Rows.{Db, Event, ObjectiveRow, Revision, Marker}
use city.Store.Table.{find, insert, update, find-key, find-update, find-insert, find-insert_new}
use city.Store.Tx.{Env}
use city.Store.Post.{Post, seq, view, returns, weaken}
use city.Store.Post.Steps.{
  guard_lem, or_raise_lem, utc_now_lem, id_or_new_lem, sha_profile_lem, check_canonical_lem,
  text_of_lem, execute_lem, insert_then, write_then,
}
use city.Store.Events.{NewEvent, logged, current_version}
use city.Store.Events.Append.{Appended, append_then, marker_of}
use city.Core.Rows.{
  objective_key, objective_version, with_objectives, insert_objective_revision, revision_taken,
}
use city.Core.Rows.Reads.{
  expect_version_lem, objective_row_lem, pick_lem, validate_lem, projection_updated_lem,
}
use city.Core.Lifecycle.{ObjectiveStep, ObjectiveMarks, status_may_move, is_final}
use city.Core.Objective.{
  allowed_statuses, create_objective_in, is_closed, objective_revised, revise_objective_in,
  set_objective_status_in, status_among, status_moved,
}
use city.Core.Effect.{
  Effect, objective_moves, objective_created, ledger, ObjectiveMoves, ObjectiveCreated,
}

-- An objective whose version is expected is found in that version.
found_objective_version :
    (id : String) (n : ℕ) (db : Db) (row : ObjectiveRow)
    → objective_version id db ≡ n
    → find objective_key id db.objectives ≡ some row
    → row.aggregate_version ≡ n
unfolding objective_version current_version
found_objective_version id n db row v f = ground (arith, v, f)

status_legal :
    (s to : ObjectiveStatus) (text : String)
    → status_among text (allowed_statuses s) ≡ some to
    → status_may_move s to ≡ true
unfolding status_among allowed_statuses status_may_move
status_legal s to text h = ground arith

open_lem : (s : ObjectiveStatus) → not (is_closed s) ≡ true → is_final s ≡ false
unfolding is_closed is_final
open_lem s h = ground arith

differs : (s t : String) → not (s =? t) ≡ true → s ≢ t
differs s t h e = let q = eq_refl t in absurd (cc (rw (e, q) at h))

status_moved-ObjectiveStep :
    (row : ObjectiveRow) (to : ObjectiveStatus) (v : ℕ) (m : Marker) (now : String) (d : Fields)
    → row.aggregate_version ≡ v
    → status_may_move row.status to ≡ true
    → ObjectiveStep row (status_moved to (v + 1) m now d row)
unfolding status_moved
status_moved-ObjectiveStep row to v m now d current edge = record {
  objective_id = refl;
  version = ap (λ n. n + 1) (sym current);
  change = inl (edge, refl, refl);
}

status_moved-ObjectiveMarks :
    (row : ObjectiveRow) (to : ObjectiveStatus) (v : ℕ) (e : Event) (now : String) (d : Fields)
    → e.aggregate_version ≡ v
    → ObjectiveMarks e (status_moved to v (marker_of e) now d row)
unfolding status_moved
status_moved-ObjectiveMarks row to v e now d h = record {
  event_id = refl;
  event_sha256 = refl;
  high_water = refl;
  version = sym h;
}

status_moved-key :
    (to : ObjectiveStatus) (v : ℕ) (m : Marker) (now : String) (d : Fields) (r : ObjectiveRow)
    → objective_key (status_moved to v m now d r) ≡ objective_key r
unfolding status_moved
status_moved-key to v m now d r = refl

objective_revised-ObjectiveStep :
    (row : ObjectiveRow) (v : ℕ) (sha : String) (m : Marker) (now : String) (d : Fields)
    → row.aggregate_version ≡ v
    → not (is_closed row.status) ≡ true
    → not (sha =? row.objective_sha256) ≡ true
    → ObjectiveStep row (objective_revised (v + 1) (row.objective_revision + 1) sha m now d row)
unfolding objective_revised
objective_revised-ObjectiveStep row v sha m now d current test new = record {
  objective_id = refl;
  version = ap (λ n. n + 1) (sym current);
  change = inr (open_lem row.status test, refl, refl, differs sha row.objective_sha256 new);
}

objective_revised-ObjectiveMarks :
    (row : ObjectiveRow) (v n : ℕ) (sha : String) (e : Event) (now : String) (d : Fields)
    → e.aggregate_version ≡ v
    → ObjectiveMarks e (objective_revised v n sha (marker_of e) now d row)
unfolding objective_revised
objective_revised-ObjectiveMarks row v n sha e now d h = record {
  event_id = refl;
  event_sha256 = refl;
  high_water = refl;
  version = sym h;
}

objective_revised-key :
    (v n : ℕ) (sha : String) (m : Marker) (now : String) (d : Fields) (r : ObjectiveRow)
    → objective_key (objective_revised v n sha m now d r) ≡ objective_key r
unfolding objective_revised
objective_revised-key v n sha m now d r = refl

-- An append and an UPDATE of an objective, with other tables written between them.
module _ {env : Env} {db : Db} (id : String) (row : ObjectiveRow) (input : NewEvent) (event : Event)
    (f : ObjectiveRow → ObjectiveRow) (d : Db) where
  update-ObjectiveMoves :
      find objective_key id db.objectives ≡ some row
      → Appended env input db event
      → input.aggregate_type ≡ "objective"
      → input.aggregate_id ≡ id
      → input.aggregate_version ≡ row.aggregate_version + 1
      → ledger d ≡ ledger (logged event db)
      → ((r : ObjectiveRow) → objective_key (f r) ≡ objective_key r)
      → ObjectiveStep row (f row)
      → ObjectiveMarks event (f row)
      → ObjectiveMoves env db (ledger (with_objectives (update objective_key id f d.objectives) d))
  update-ObjectiveMoves found facts kind same_id version same keeps step marks = record {
    old = row;
    new = f row;
    event = event;
    found = subst (λ k. find objective_key k db.objectives ≡ some row) (sym named) found;
    step = step;
    logs = record {
      input = input;
      appended = facts;
      kind_is = kind;
      id_is = same_id ∙ sym named;
      version_is = version;
      events = ap (λ l. l.events) same;
      writer_sequence = ap (λ l. l.writer_sequence) same;
      global_sequence = ap (λ l. l.global_sequence) same;
    };
    marks = marks;
    objectives = λ j.
        ap (λ l. find objective_key j (update objective_key id f l.objectives)) same
        ∙ subst
            (λ k.
              find objective_key j (update objective_key id f db.objectives)
              ≡ (if k =? j then some (f row) else find objective_key j db.objectives))
            (sym named)
            (find-update objective_key id j f db.objectives keeps
              ∙ ground (arith, eq_iff id j, found));
    tasks = ap (λ l. l.tasks) same;
    actions = ap (λ l. l.actions) same;
  }
    where
      named : row.objective_id ≡ id
      named = find-key objective_key id db.objectives row found

module _ {env : Env} {db : Db} (id : String) (row : ObjectiveRow) (to : ObjectiveStatus) (v : ℕ)
    (event : Event) (now : String) (fields : Fields) (input : NewEvent) where
  status_to :
      find objective_key id db.objectives ≡ some row
      → Appended env input db event
      → input.aggregate_type ≡ "objective"
      → input.aggregate_id ≡ id
      → input.aggregate_version ≡ v + 1
      → row.aggregate_version ≡ v
      → status_may_move row.status to ≡ true
      → ObjectiveMoves env db (
          ledger (
            with_objectives
              (update objective_key id
                (status_moved to (v + 1) (marker_of event) now fields)
                db.objectives)
              (logged event db)))
  status_to found facts kind same_id next version edge =
      update-ObjectiveMoves id row input event
        (status_moved to (v + 1) (marker_of event) now fields) (logged event db) found facts kind
        same_id (next ∙ ap (λ n. n + 1) (sym version)) refl
        (status_moved-key to (v + 1) (marker_of event) now fields)
        (status_moved-ObjectiveStep row to v (marker_of event) now fields version edge)
        (status_moved-ObjectiveMarks row to (v + 1) event now fields
          (facts.aggregate_version ∙ next))

module _ {env : Env} {db : Db} (id : String) (row : ObjectiveRow) (v : ℕ) (sha : String)
    (event : Event) (now : String) (fields : Fields) (input : NewEvent) (d : Db) where
  revised_to :
      find objective_key id db.objectives ≡ some row
      → Appended env input db event
      → input.aggregate_type ≡ "objective"
      → input.aggregate_id ≡ id
      → input.aggregate_version ≡ v + 1
      → row.aggregate_version ≡ v
      → ledger d ≡ ledger (logged event db)
      → not (is_closed row.status) ≡ true
      → not (sha =? row.objective_sha256) ≡ true
      → ObjectiveMoves env db (
          ledger (
            with_objectives
              (update objective_key id
                (objective_revised
                  (v + 1)
                  (row.objective_revision + 1)
                  sha
                  (marker_of event)
                  now
                  fields)
                d.objectives)
              d))
  revised_to found facts kind same_id next version same test changed =
      update-ObjectiveMoves id row input event
        (objective_revised (v + 1) (row.objective_revision + 1) sha (marker_of event) now fields) d
        found facts kind same_id (next ∙ ap (λ n. n + 1) (sym version)) same
        (objective_revised-key (v + 1) (row.objective_revision + 1) sha (marker_of event) now
          fields)
        (objective_revised-ObjectiveStep row v sha (marker_of event) now fields version test
          changed)
        (objective_revised-ObjectiveMarks row (v + 1) (row.objective_revision + 1) sha event now
          fields (facts.aggregate_version ∙ next))

-- An append and an INSERT of an objective.
module _ {env : Env} {db : Db} (input : NewEvent) (row : ObjectiveRow) (event : Event) (d : Db)
    (t : List ObjectiveRow) where
  insert-ObjectiveCreated :
      Appended env input db event
      → input.aggregate_type ≡ "objective"
      → input.aggregate_id ≡ row.objective_id
      → input.aggregate_version ≡ 1
      → ledger d ≡ ledger (logged event db)
      → insert objective_key row d.objectives ≡ some t
      → row.status ≡ ObjectiveStatus.proposed
      → ObjectiveMarks event row
      → ObjectiveCreated env db (ledger (with_objectives t d))
  insert-ObjectiveCreated facts kind same_id first same there state marks =
      let old = ap (λ l. l.objectives) same in
      record {
        new = row;
        event = event;
        absent =
            ap (find objective_key row.objective_id) (sym old)
            ∙ find-insert_new objective_key row d.objectives t there;
        state = state;
        logs = record {
          input = input;
          appended = facts;
          kind_is = kind;
          id_is = same_id;
          version_is = first;
          events = ap (λ l. l.events) same;
          writer_sequence = ap (λ l. l.writer_sequence) same;
          global_sequence = ap (λ l. l.global_sequence) same;
        };
        marks = marks;
        objectives = λ k.
            subst
              (λ l.
                find objective_key k t
                ≡ (if row.objective_id =? k then some row else find objective_key k l))
              old (find-insert objective_key row d.objectives t k there);
        tasks = ap (λ l. l.tasks) same;
        actions = ap (λ l. l.actions) same;
      }

module _ {env : Env} {db : Db} where
  insert_objective_revision_lem :
      (r : Revision) → Post env db (insert_objective_revision r) (λ _ db'. ledger db' ≡ ledger db)
  unfolding insert_objective_revision
  insert_objective_revision_lem r = weaken (execute_lem _) λ _ db' e.
      elim (Bool-cases (revision_taken r db.objective_revisions)) [
        | inl c ↦ absurd (cc (rw c at e))
        | inr c ↦ let g = rw c at e in ground arith
      ]

module _ {env : Env} {db : Db} where
  pub create_objective-Effect :
      (fields : Fields) (actor key : String)
      → Post env db (create_objective_in fields actor key) (λ _ db'. Effect env db (ledger db'))
  unfolding create_objective_in
  create_objective-Effect fields actor key = view utc_now_lem λ now _.
      view (id_or_new_lem _ _ _) λ given _. view (pick_lem _ _) λ chosen _.
        view (sha_profile_lem _ _) λ sha _. view (validate_lem _ _) λ _ _.
          view (text_of_lem _) λ id _. view (expect_version_lem _ _) λ _ _.
            append_then _ _ _ λ event facts. view (check_canonical_lem _) λ _ _.
              seq (insert_objective_revision_lem _) λ _ d same. insert_then _ _ _ _ _ λ t there.
                view projection_updated_lem λ _ _. returns _ (
                  objective_created (
                    insert-ObjectiveCreated _ _ event d t facts refl refl refl same there refl
                      (record {
                        event_id = refl;
                        event_sha256 = refl;
                        high_water = refl;
                        version = sym facts.aggregate_version;
                      })))

  pub set_objective_status-Effect :
      (id status : String) (v : ℕ) (actor key : String)
      → Post env db
          (set_objective_status_in id status v actor key)
          (λ _ db'. Effect env db (ledger db'))
  unfolding set_objective_status_in
  set_objective_status-Effect id status v actor key = view (expect_version_lem _ _) λ _ current.
      view (objective_row_lem id) λ row found.
        view (or_raise_lem _ (status_among status (allowed_statuses row.status))) λ to allowed.
          view (validate_lem _ _) λ _ _. append_then _ _ _ λ event facts.
            view (check_canonical_lem _) λ _ _. view utc_now_lem λ now _. write_then _ _ λ _.
              view projection_updated_lem λ _ _. returns _ (
                objective_moves (
                  status_to id row to v event now _ _ found facts refl refl refl
                    (found_objective_version id v db row current found)
                    (status_legal row.status to status allowed)))

  pub revise_objective-Effect :
      (id : String) (updates : Fields) (v : ℕ) (actor key : String)
      → Post env db
          (revise_objective_in id updates v actor key)
          (λ _ db'. Effect env db (ledger db'))
  unfolding revise_objective_in
  revise_objective-Effect id updates v actor key = view (expect_version_lem _ _) λ _ current.
      view (objective_row_lem id) λ row found. view (guard_lem _ _) λ _ test.
        view (sha_profile_lem _ _) λ sha _. view (validate_lem _ _) λ _ _.
          view (guard_lem _ _) λ _ changed. view utc_now_lem λ now _.
            append_then _ _ _ λ event facts. view (check_canonical_lem _) λ _ _.
              seq (insert_objective_revision_lem _) λ _ d same. write_then _ _ λ _.
                view projection_updated_lem λ _ _. returns _ (
                  objective_moves (
                    revised_to id row v sha event now _ _ d found facts refl refl refl
                      (found_objective_version id v db row current found) same test changed))
