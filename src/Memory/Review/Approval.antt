-- ===== src/Memory/Review/Approval.antt =====
-- Who may accept a memory in src/city2core/memory.py, and on what evidence.
use city.Base.{ℕ, ◌+◌, String, ◌=?◌, ◌≡◌, refl, true, false, ◌&&◌, some, arith}
use city.Model.Json.{Items, Fields, str, obj, get}
use city.Store.Tables.{MemoryState, memory_state_text, MemoryRow}
use city.Store.Rows.{Db}
use city.Store.Table.{find}
use city.Store.Tx.{Env}
use city.Store.Post.{Post, Views, view, look, weaken_view, returns, held, skip, seq, weaken}
use city.Store.Post.Steps.{guard_lem, or_raise_lem}
use city.Core.Rows.Reads.{expect_version_lem}
use city.Memory.Fields.Reads.{text_at_lem}
use city.Memory.Text.{starts_with}
use city.Memory.Rows.{memory_key, memory_version}
use city.Memory.Rows.Reads.{memory_row_lem}
use city.Memory.Stale.{is_accepted, restated}
use city.Memory.Review.{decision_of, is_candidate, reviewer_allowed, decide, review_candidate_in}
use city.Memory.Review.Checks.{Checked, verify_source_checks-Checked}

-- The reviewer may decide so: an agent does not accept or reject what it wrote, and only
-- "human:chad" accepts a memory of the company.
pub record Allowed (record_dict : Fields) (wanted : MemoryState) (reviewer : String) : Type 0 where
  pub creator : String
  pub scope : String
  pub creator_is : get "created_by" record_dict ≡ some (str creator)
  pub scope_is : get "scope" record_dict ≡ some (str scope)
  pub other : (starts_with "agent:" creator && creator =? reviewer) ≡ false
  pub company :
      (scope =? "company") ≡ true → is_accepted wanted ≡ true → (reviewer =? "human:chad") ≡ true

-- What had to hold before a review, and what its result says.
pub record Reviewed (db : Db) (id decision : String) (v : ℕ) (reviewer : String) (checks : Items)
    (result : Fields) : Type 0 where
  pub wanted : MemoryState
  pub row : MemoryRow
  pub state : MemoryState
  pub decided : decision_of decision ≡ some wanted
  pub found : find memory_key id db.memories ≡ some row
  pub version : memory_version id db ≡ v
  pub candidate : is_candidate row.review_state ≡ true
  pub allowed : Allowed row.record_json wanted reviewer
  pub memory :
      get "memory" result ≡ some (obj (restated (v + 1) (memory_state_text state) row.record_json))
  pub accepted :
      is_accepted state ≡ true → (is_accepted wanted ≡ true) × Checked row.record_json checks

module _ {env : Env} {db : Db} where
  pub reviewer_allowed_lem :
      (record_dict : Fields) (wanted : MemoryState) (reviewer : String)
      → Views env db
          (reviewer_allowed record_dict wanted reviewer)
          (λ _. Allowed record_dict wanted reviewer)
  unfolding reviewer_allowed
  reviewer_allowed_lem record_dict wanted reviewer =
      look (text_at_lem "created_by" record_dict) λ creator c. look (guard_lem _ _) λ _ other.
        look (text_at_lem "scope" record_dict) λ scope s. weaken_view (guard_lem _ _) λ _ company.
          record {
            creator = creator;
            scope = scope;
            creator_is = c;
            scope_is = s;
            other = ground arith;
            company = λ a b. ground arith;
          }

  decide_lem :
      (id : String) (wanted : MemoryState) (record_dict : Fields) (checks : Items)
      → Post env db (decide id wanted record_dict checks) (λ state _.
        is_accepted state ≡ true → (is_accepted wanted ≡ true) × Checked record_dict checks)
  unfolding decide is_accepted
  decide_lem id MemoryState.accepted record_dict checks =
      view (verify_source_checks-Checked record_dict checks)
        λ _ checked. weaken (held checked) λ _ _ c _. (refl, c)
  decide_lem id MemoryState.candidate record_dict checks = returns _ (λ h. cc)
  decide_lem id MemoryState.rejected record_dict checks = returns _ (λ h. cc)
  decide_lem id MemoryState.stale record_dict checks = returns _ (λ h. cc)
  decide_lem id MemoryState.superseded record_dict checks = returns _ (λ h. cc)
  decide_lem id MemoryState.quarantined record_dict checks = returns _ (λ h. cc)

  -- A review that returns was of a candidate in the version that the caller names, by a reviewer
  -- that may decide so: not by the agent that wrote it, and by "human:chad" to accept a memory of
  -- the company. The memory that it returns is "accepted" only if that was the decision and the
  -- source checks prove every evidence reference current.
  pub review_candidate-Reviewed :
      (id decision : String) (v : ℕ) (reviewer : String) (checks : Items) (independence : Fields)
      (key : String)
      → Post env db
          (review_candidate_in id decision v reviewer checks independence key)
          (λ result _. Reviewed db id decision v reviewer checks result)
  unfolding review_candidate_in
  review_candidate-Reviewed id decision v reviewer checks independence key =
      view (or_raise_lem _ _) λ wanted decided. view (expect_version_lem _ _) λ _ version.
        view (memory_row_lem id) λ row found. view (guard_lem _ _) λ _ candidate.
          view (reviewer_allowed_lem _ wanted reviewer) λ _ allowed.
            seq (decide_lem id wanted row.record_json checks) λ state _ accepted. skip _ λ _ _.
              skip _ λ now _. skip _ λ _ _. skip _ λ checks_sha _. skip _ λ _ _. skip _ λ _ _.
                skip _ λ _ _. skip _ λ review_id _. skip _ λ _ _. skip _ λ _ _. skip _ λ _ _.
                  skip _ λ _ _. returns _ (record {
                    wanted = wanted;
                    row = row;
                    state = state;
                    decided = decided;
                    found = found;
                    version = version;
                    candidate = candidate;
                    allowed = allowed;
                    memory = refl;
                    accepted = accepted;
                  })
