-- ===== src/Expansion/Admitted.antt =====
-- What an admission by src/city2core/expansion.py rests on.
use city.Base.{
  ℕ, ◌+◌, String, ◌=?◌, ◌≡◌, ◌∙◌, ap, Bool, true, false, Option, none, some, List, [], ◌∷◌, arith,
  text_eq,
}
use city.Model.Json.{Fields, str, obj, get}
use city.Model.Canonical.{digest_profile}
use city.Store.Rows.{Db}
use city.Store.Tx.{Env, Tx}
use city.Store.Post.{Views, look, weaken_view}
use city.Store.Post.Steps.{
  Any, guard_lem, or_raise_lem, field_of_lem, dict_of_lem, sha_profile_lem, pure_lem,
}
use city.Memory.Fields.{each, when, text_at}
use city.Memory.Fields.Reads.{DictsAt, text_at_lem, dicts_at_lem, collect_lem, each_lem}
use city.Memory.Rows.Fresh.{Every}
use city.Memory.Text.{starts_with}
use city.Expansion.{
  Clock, Timestamp, Values, authority, step_allowed, check_authority, check_approver,
  validate_expansion, time_at, timestamp, subsecond_of, check_window, check_review, criterion_times,
  check_approval_time, check_admission, criterion_passes, criterion_supported, check_mode,
  values_of,
}

-- A human has approved.
pub record Approved (approver : Fields) : Type 0 where
  pub actor : String
  pub actor_is : get "actor" approver ≡ some (str actor)
  pub human : starts_with "human:" actor ≡ true
  pub status : get "status" approver ≡ some (str "approved")

-- The target's authority is the current one for a role, and the next one for write authority.
pub record Stepped (candidate : Fields) : Type 0 where
  pub kind : String
  pub current : String
  pub target : String
  pub from : ℕ
  pub to : ℕ
  pub kind_is : get "kind" candidate ≡ some (str kind)
  pub current_is : get "current_authority" candidate ≡ some (str current)
  pub target_is : get "target_authority" candidate ≡ some (str target)
  pub from_is : authority current ≡ some from
  pub to_is : authority target ≡ some to
  pub role : (kind =? "role") ≡ true → to ≡ from
  pub write : (kind =? "write-authority") ≡ true → to ≡ from + 1

-- What an allowed step is, for the two kinds.
step_allowed_lem :
    (kind : String) (from to : ℕ)
    → step_allowed kind from to ≡ true
    → ((kind =? "role") ≡ true → to ≡ from) × ((kind =? "write-authority") ≡ true → to ≡ from + 1)
unfolding step_allowed
step_allowed_lem kind from to h = (λ is. ground arith, λ is. ground arith)

module _ {env : Env} {db : Db} where
  check_approver-Approved :
      (approver : Fields) → Views env db (check_approver approver) (λ _. Approved approver)
  unfolding check_approver
  check_approver-Approved approver = look (text_at_lem "status" approver) λ status s.
      look (guard_lem _ _) λ _ approved. look (or_raise_lem _ _) λ reviewed _.
        look (guard_lem _ _) λ _ _. look (text_at_lem "actor" approver) λ actor a.
          weaken_view (guard_lem _ _) λ _ human. record {
            actor = actor;
            actor_is = a;
            human = human;
            status = s ∙ ap (λ t. some (str t)) (text_eq status "approved" approved);
          }

  check_authority-Stepped :
      (candidate boundary : Fields)
      → Views env db (check_authority candidate boundary) (λ _. Stepped candidate)
  unfolding check_authority
  check_authority-Stepped candidate boundary =
      look (text_at_lem "current_authority" candidate) λ current c.
        look (or_raise_lem _ _) λ from f.
          look (text_at_lem "target_authority" candidate) λ target t.
            look (or_raise_lem _ _) λ to o. look (text_at_lem "kind" candidate) λ kind k.
              look (guard_lem (step_allowed kind from to) _) λ _ allowed.
                look (text_at_lem _ boundary) λ _ _. look (guard_lem _ _) λ _ _.
                  look (text_at_lem _ boundary) λ _ _. weaken_view (guard_lem _ _) λ _ _. record {
                    kind = kind;
                    current = current;
                    target = target;
                    from = from;
                    to = to;
                    kind_is = k;
                    current_is = c;
                    target_is = t;
                    from_is = f;
                    to_is = o;
                    role = (step_allowed_lem kind from to allowed).0;
                    write = (step_allowed_lem kind from to allowed).1;
                  }

  -- what runs only if a test succeeds
  when_view :
      {P : Type 0} (b : Bool) (m : Tx (Unit {0}))
      → Views env db m (λ _. P)
      → Views env db (when b m) (λ _. b ≡ true → P)
  unfolding when
  when_view true m h = weaken_view h λ _ p _. p
  when_view false m h = weaken_view (pure_lem tt) λ _ _ e. absurd (cc)

  criterion_passes-Passed :
      (c : Fields) → Views env db (criterion_passes c) (λ _. get "state" c ≡ some (str "pass"))
  unfolding criterion_passes
  criterion_passes-Passed c = look (text_at_lem "state" c) λ state s.
      weaken_view (guard_lem _ _)
        λ _ passes. s ∙ ap (λ t. some (str t)) (text_eq state "pass" passes)

  -- a loop that tests every element
  each_view :
      (P : Fields → Type 0) (f : Fields → Tx (Unit {0}))
      → ((x : Fields) → Views env db (f x) (λ _. P x))
      → (l : List Fields) → Views env db (each f l) (λ _. Every P l)
  unfolding each Every
  each_view P f h [] = weaken_view (pure_lem tt) λ _ _. tt
  each_view P f h (x ∷ l) =
      look (h x) λ _ first. weaken_view (each_view P f h l) λ _ rest. (first, rest)

-- What an admission needs beside the gates of every record: a human who has approved, and every
-- criterion passed.
pub record Admission (d : Fields) (criteria : List Fields) : Type 0 where
  pub approver : Fields
  pub approver_is : get "accountable_approver" d ≡ some (obj approver)
  pub approved : Approved approver
  pub passed : Every (λ c. get "state" c ≡ some (str "pass")) criteria

-- What every record needs that is not refused.
pub record Gated (env : Env) (d : Fields) : Type 0 where
  pub sha : String
  pub candidate : Fields
  pub evaluation : Fields
  pub criteria : List Fields
  pub decision : String
  pub digest : digest_profile env.digest d ("aggregate_version" ∷ "decision_sha256" ∷ []) ≡ some sha
  pub digest_is : get "decision_sha256" d ≡ some (str sha)
  pub candidate_is : get "candidate" d ≡ some (obj candidate)
  pub stepped : Stepped candidate
  pub evaluation_is : get "evaluation" d ≡ some (obj evaluation)
  pub criteria_are : DictsAt "criteria" evaluation criteria
  pub decision_is : get "decision" d ≡ some (str decision)
  pub admitted : (decision =? "admit") ≡ true → Admission d criteria

module _ {env : Env} {db : Db} (clock : Clock) where
  times_lem : (k : String) (d : Fields) → Views env db (time_at clock k d) Any
  unfolding time_at timestamp subsecond_of
  times_lem k d = look (text_at_lem k d) λ t _.
      look (or_raise_lem _ _)
        λ moment _. look (subsecond_lem _) λ subsecond _. weaken_view (pure_lem _) λ _ _. tt
    where
      subsecond_lem : (o : Option String) → Views env db (subsecond_of clock o) Any
      subsecond_lem none = weaken_view (pure_lem _) λ _ _. tt
      subsecond_lem (some f) = weaken_view (or_raise_lem _ _) λ _ _. tt

  window_lem : (d : Fields) → Views env db (check_window clock d) Any
  unfolding check_window
  window_lem d = look (times_lem _ d) λ _ _. look (times_lem _ d) λ _ _. look (guard_lem _ _) λ _ _.
      look (dicts_at_lem _ d) λ refs _.
        look (collect_lem (λ _ _. Unit {0}) _ (times_lem "observed_at") refs)
          λ _ _. look (guard_lem _ _) λ _ _. weaken_view (pure_lem _) λ _ _. tt

  review_lem : (d : Fields) → Views env db (check_review clock d) Any
  unfolding check_review
  review_lem d =
      look (times_lem _ d) λ _ _. look (times_lem _ d) λ _ _. weaken_view (guard_lem _ _) λ _ _. tt

  criterion_times_lem : (d : Fields) → Views env db (criterion_times clock d) Any
  unfolding criterion_times
  criterion_times_lem d = look (dicts_at_lem _ d) λ refs _.
      weaken_view (collect_lem (λ _ _. Unit {0}) _ (times_lem "observed_at") refs) λ _ _. tt

  approval_time_lem :
      (d measurement approver : Fields) (evidence : List Timestamp) (criteria : List Fields)
      → Views env db (check_approval_time clock d measurement approver evidence criteria) Any
  unfolding check_approval_time
  approval_time_lem d measurement approver evidence criteria = look (times_lem _ approver) λ _ _.
      look (collect_lem (λ _ _. Unit {0}) _ criterion_times_lem criteria) λ _ _.
        look (times_lem _ d) λ _ _. look (times_lem _ measurement) λ _ _.
          look (guard_lem _ _)
            λ _ _. look (times_lem _ d) λ _ _. weaken_view (guard_lem _ _) λ _ _. tt

  check_admission-Admission :
      (d measurement : Fields) (evidence : List Timestamp) (criteria : List Fields)
      (values : Values)
      → Views env db
          (check_admission clock d measurement evidence criteria values)
          (λ _. Admission d criteria)
  unfolding check_admission
  check_admission-Admission d measurement evidence criteria values =
      look (field_of_lem "accountable_approver" d) λ a a_is. look (dict_of_lem a) λ approver is.
        look (check_approver-Approved approver) λ _ approved.
          look (approval_time_lem d measurement approver evidence criteria) λ _ _.
            look (field_of_lem "evaluation" d) λ e _. look (dict_of_lem e) λ evaluation _.
              look (text_at_lem "status" evaluation) λ _ _. look (guard_lem _ _) λ _ _.
                look (each_view _ _ criterion_passes-Passed criteria) λ _ passed.
                  look (field_of_lem "sample_count" measurement) λ _ _.
                    look (dicts_at_lem _ measurement) λ _ _. look (guard_lem _ _) λ _ _.
                      look (text_at_lem _ measurement) λ _ _.
                        look (text_at_lem _ measurement) λ _ _. weaken_view (guard_lem _ _) λ _ _.
                          record {
                            approver = approver;
                            approver_is = a_is ∙ ap some is;
                            approved = approved;
                            passed = passed;
                          }

  supported_lem : (c : Fields) → Views env db (criterion_supported c) Any
  unfolding criterion_supported
  supported_lem c =
      look (text_at_lem _ c)
        λ _ _. look (dicts_at_lem _ c) λ _ _. weaken_view (guard_lem _ _) λ _ _. tt

  mode_lem : (d : Fields) → Views env db (check_mode d) Any
  unfolding check_mode values_of
  mode_lem d =
      look
        (look (field_of_lem _ d) λ _ _.
          look (field_of_lem _ d)
            λ _ _. look (field_of_lem _ d) λ _ _. weaken_view {R = Any} (pure_lem _) λ _ _. tt)
        λ values _. look (text_at_lem _ d) λ _ _.
          look (text_at_lem _ d)
            λ _ _. look (guard_lem _ _) λ _ _. weaken_view (pure_lem _) λ _ _. tt

  criterion_lem : (c : Fields) → Views env db (text_at "criterion" c) Any
  criterion_lem c = weaken_view (text_at_lem _ c) λ _ _. tt

  -- An expansion record is not refused only if its digest is that of its content, and the authority
  -- stays as it is for a role and goes up by exactly one class for write authority. It admits only
  -- with the approval of a human and with every criterion passed.
  pub validate_expansion-Gated :
      (d : Fields) → Views env db (validate_expansion clock d) (λ _. Gated env d)
  unfolding validate_expansion
  validate_expansion-Gated d = look (sha_profile_lem d _) λ expected digest.
      look (text_at_lem "decision_sha256" d) λ given g. look (guard_lem _ _) λ _ same.
        look (field_of_lem "measurement" d) λ m _. look (dict_of_lem m) λ measurement _.
          look (window_lem measurement) λ evidence _. look (review_lem d) λ _ _.
            look (field_of_lem "candidate" d) λ c c_is. look (dict_of_lem c) λ candidate is.
              look (field_of_lem "incident_boundary" d) λ b _. look (dict_of_lem b) λ boundary _.
                look (check_authority-Stepped candidate boundary) λ _ stepped.
                  look (field_of_lem "evaluation" d) λ e e_is.
                    look (dict_of_lem e) λ evaluation ev_is.
                      look (dicts_at_lem "criteria" evaluation) λ criteria criteria_are.
                        look (collect_lem (λ _ _. Unit {0}) _ criterion_lem criteria) λ _ _.
                          look (guard_lem _ _) λ _ _.
                            look (each_lem _ supported_lem criteria) λ _ _.
                              look (mode_lem measurement) λ values _.
                                look (text_at_lem "decision" d) λ decision decision_is.
                                  weaken_view
                                    (when_view _ _ (
                                      check_admission-Admission d measurement evidence criteria
                                        values))
                                    λ _ admission. record {
                                      sha = expected;
                                      candidate = candidate;
                                      evaluation = evaluation;
                                      criteria = criteria;
                                      decision = decision;
                                      digest = digest;
                                      digest_is =
                                          g ∙ ap (λ t. some (str t)) (text_eq given expected same);
                                      candidate_is = c_is ∙ ap some is;
                                      stepped = stepped;
                                      evaluation_is = e_is ∙ ap some ev_is;
                                      criteria_are = criteria_are;
                                      decision_is = decision_is;
                                      admitted = admission;
                                    }
