-- ===== src/Tests/Expansions.antt =====
-- One record for src/city2core/expansion.py, which admits a step of write authority.
use city.Base.{String, ◌=?◌, ◌≡◌, refl, Bool, true, false, Option, none, some, ℕ, if◌then◌else◌}
use city.Model.Json.{Json, Fields, str, num, obj, arr, nil, cons, end, field}
use city.Store.Tx.{Env, Result, ok, err}
use city.Store.Post.{Views}
use city.Core.Machine.{empty_db}
use city.Expansion.{Clock, validate_expansion}
use city.Expansion.Admitted.{Gated, validate_expansion-Gated}
use city.Tests.Data.{test_env}

-- the times of the record, in their order
abbrev moment : String → Option ℕ
moment t =
    if t =? "1"
    then some 1
    else if t =? "2"
    then some 2
    else if t =? "3"
    then some 3
    else if t =? "4"
    then some 4
    else none

abbrev clock : Clock
clock = record { strptime = moment; decimal = λ t. none }

-- an environment in which every text has the same digest
abbrev digest_env : Env
digest_env = record test_env {
  digest = record { sha256_text = λ t. "digest"; dumps_text = λ t. t };
}

abbrev observed : Json
observed = arr (cons (obj (field "observed_at" (str "2Z") end)) nil)

abbrev measurement : Fields
measurement = field "window_start" (str "1Z") (
    field "window_end" (str "2Z") (
      field "evidence_refs" observed (
        field "baseline_value" (num 5) (
          field "admission_threshold" (num 3) (
            field "target_value" (num 9) (
              field "threshold_mode" (str "numeric")
                (field "direction" (str "increase") (field "sample_count" (num 4) end))))))))

abbrev candidate : Fields
candidate =
    field "kind" (str "write-authority")
      (field "current_authority" (str "A1") (field "target_authority" (str "A2") end))

abbrev boundary : Fields
boundary = field "authority_ceiling" (str "A2") (field "outward_actions" (str "denied") end)

abbrev criterion : Fields
criterion =
    field "criterion" (str "accuracy")
      (field "state" (str "pass") (field "evidence_refs" observed end))

abbrev approver : Fields
approver =
    field "status" (str "approved")
      (field "reviewed_at" (str "3Z") (field "actor" (str "human:ada") end))

abbrev one_step : Fields
one_step = field "decision" (str "admit") (
    field "decision_sha256" (str "digest") (
      field "created_at" (str "2Z") (
        field "review_at" (str "4Z") (
          field "measurement" (obj measurement) (
            field "candidate" (obj candidate) (
              field "incident_boundary" (obj boundary) (
                field "evaluation"
                  (obj (
                    field "status" (str "pass")
                      (field "criteria" (arr (cons (obj criterion) nil)) end)))
                  (field "accountable_approver" (obj approver) end))))))))

abbrev returned : {A : Type 0} → Result A → Bool
returned (ok a) = true
returned (err e) = false

-- The record is admitted.
one_step_admitted :
    returned (validate_expansion clock one_step digest_env (record { db = empty_db; calls = 0 }))
    ≡ true
unfolding validate_expansion city.Store.Tx.◌>>=◌ city.Store.Tx.sha_profile
    city.Model.Canonical.digest_profile city.Model.Canonical.canonical_json
    city.Memory.Fields.text_at city.Store.Tx.field_of city.Store.Tx.pure city.Store.Tx.guard
    city.Store.Tx.dict_of city.Memory.Fields.dicts_at city.Store.Tx.list_of
    city.Memory.Fields.collect city.Memory.Fields.each city.Memory.Fields.when
one_step_admitted = refl

validate_expansion-Gated_example :
    Views digest_env empty_db (validate_expansion clock one_step) (λ _. Gated digest_env one_step)
validate_expansion-Gated_example =
    validate_expansion-Gated {env = digest_env} {db = empty_db} clock one_step
