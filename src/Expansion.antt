-- ===== src/Expansion.antt =====
-- `validate_expansion_admission` of src/city2core/expansion.py, which only reads: its
-- `ExpansionAdmissionError` is a `ValueError`. `datetime.strptime` and `Decimal` are parameters.
pub mod Admitted
use Prim.Native.Char.{code}
use city.Base.{
  ℕ, suc, ◌+◌, ◌*◌, ltb, leb, ◌==◌, String, ◌=?◌, ◌&◌, Bool, true, false, not, ◌&&◌, ◌||◌, Option,
  none, some, List, [], ◌∷◌, if◌then◌else◌,
}
use city.Model.Json.{ℤ, pos, Json, Items, Fields, int, str, obj, arr, nil, cons, get, truthy, elem}
use city.Store.Tx.{
  Tx, value_error, ◌>>=◌, ◌>>◌, pure, fail, guard, or_raise, field_of, dict_of, sha_profile,
}
use city.Core.Submit.{same_text}
use city.Memory.Fields.{text_at, dicts_at, collect, each, when, any_of, some_of}
use city.Memory.Text.{starts_with}
use city.Schema.Equal.{int_less, int_equal}
use city.Schema.Resolve.{partition}

-- A decimal that is not negative: `digits / 10 ^ places`.
pub record Decimal : Type 0 where
  pub digits : ℕ
  pub places : ℕ

-- The library calls below `_timestamp`: the seconds of `strptime(text, "%Y-%m-%dT%H:%M:%S")`, and
-- `Decimal(text)`; `none` is their exception.
pub record Clock : Type 0 where
  pub strptime : String → Option ℕ
  pub decimal : String → Option Decimal

unfoldable pub power_of_ten : ℕ → ℕ
power_of_ten ℕ.zero = 1
power_of_ten (suc n) = 10 * power_of_ten n

unfoldable pub decimal_less : Decimal → Decimal → Bool
unfolding power_of_ten
decimal_less a b = ltb (a.digits * power_of_ten b.places) (b.digits * power_of_ten a.places)

pub record Timestamp : Type 0 where
  pub moment : ℕ
  pub subsecond : Decimal

-- `a < b` on the pairs
unfoldable pub earlier : Timestamp → Timestamp → Bool
unfolding decimal_less
earlier a b =
    ltb a.moment b.moment || (a.moment == b.moment && decimal_less a.subsecond b.subsecond)

-- `value.removesuffix("Z")`
unfoldable pub without_z : String → String
without_z String.[] = ""
without_z (String.◌∷◌ c String.[]) = if code c == 90 then "" else String.◌∷◌ c ""
without_z (String.◌∷◌ c s) = String.◌∷◌ c (without_z s)

module _ (clock : Clock) where
  unfoldable pub subsecond_of : Option String → Tx Decimal
  subsecond_of none = pure (record { digits = 0; places = 0 })
  subsecond_of (some fraction) = or_raise value_error (clock.decimal ("0." & fraction))

  -- `_timestamp`
  unfoldable pub timestamp : String → Tx Timestamp
  unfolding without_z partition subsecond_of
  timestamp value = do
    moment ← or_raise value_error (clock.strptime (partition 46 (without_z value)).0)
    subsecond ← subsecond_of (partition 46 (without_z value)).1
    pure (record { moment = moment; subsecond = subsecond })

  -- `_timestamp(d[k])`
  unfoldable pub time_at : String → Fields → Tx Timestamp
  unfolding timestamp
  time_at k d = text_at k d >>= timestamp

  -- the measurement's window, with the times of its evidence
  unfoldable pub check_window : Fields → Tx (List Timestamp)
  unfolding time_at earlier any_of
  check_window measurement = do
    window_end ← time_at "window_end" measurement
    window_start ← time_at "window_start" measurement
    guard (not (earlier window_end window_start)) value_error
    refs ← dicts_at "evidence_refs" measurement
    times ← collect (time_at "observed_at") refs
    guard (not (any_of (λ t. earlier t window_start || earlier window_end t) times)) value_error
    pure times

  unfoldable pub check_review : Fields → Tx (Unit {0})
  unfolding time_at earlier
  check_review record_dict = do
    review_at ← time_at "review_at" record_dict
    created_at ← time_at "created_at" record_dict
    guard (earlier created_at review_at) value_error

  -- `max(first, *times)`
  unfoldable pub latest : Timestamp → List Timestamp → Timestamp
  unfolding earlier
  latest first [] = first
  latest first (t ∷ l) = latest (if earlier first t then t else first) l

  unfoldable pub criterion_times : Fields → Tx (List Timestamp)
  unfolding time_at
  criterion_times criterion = do
    refs ← dicts_at "evidence_refs" criterion
    collect (time_at "observed_at") refs

  -- `l + m`
  unfoldable pub joined : List Timestamp → List Timestamp → List Timestamp
  joined [] m = m
  joined (t ∷ l) m = t ∷ joined l m

  unfoldable pub all_joined : List (List Timestamp) → List Timestamp
  unfolding joined
  all_joined [] = []
  all_joined (l ∷ m) = joined l (all_joined m)

  -- the approval comes after all the evidence, and no later than the review
  unfoldable pub check_approval_time :
      Fields → Fields → Fields → List Timestamp → List Fields → Tx (Unit {0})
  unfolding time_at criterion_times all_joined joined latest earlier
  check_approval_time record_dict measurement approver evidence criteria = do
    approval ← time_at "reviewed_at" approver
    more ← collect criterion_times criteria
    created_at ← time_at "created_at" record_dict
    window_end ← time_at "window_end" measurement
    let floor = latest created_at (window_end ∷ joined evidence (all_joined more))
    guard (earlier floor approval) value_error
    review_at ← time_at "review_at" record_dict
    guard (not (earlier review_at approval)) value_error

-- `AUTHORITY_ORDER.index(value)`
unfoldable pub authority : String → Option ℕ
authority t =
    if t =? "A0"
    then some 0
    else if t =? "A1"
    then some 1
    else if t =? "A2"
    then some 2
    else if t =? "A3"
    then some 3
    else if t =? "A4"
    then some 4
    else none

-- how far the target may be from the current authority
unfoldable pub step_allowed : String → ℕ → ℕ → Bool
step_allowed kind current target =
    (not (kind =? "role") || target == current)
    && (not (kind =? "write-authority") || target == current + 1)

unfoldable pub required_outward : ℕ → String
required_outward target =
    if ltb target 3
    then "denied"
    else if target == 3
    then "human-at-action-time"
    else "hardened-operator"

unfoldable pub check_authority : Fields → Fields → Tx (Unit {0})
unfolding authority step_allowed required_outward
check_authority candidate boundary = do
  current ← or_raise value_error (authority (← text_at "current_authority" candidate))
  target_name ← text_at "target_authority" candidate
  target ← or_raise value_error (authority target_name)
  kind ← text_at "kind" candidate
  guard (step_allowed kind current target) value_error
  ceiling ← text_at "authority_ceiling" boundary
  guard (ceiling =? target_name) value_error
  outward ← text_at "outward_actions" boundary
  guard (outward =? required_outward target) value_error

-- `len(l) == len(set(l))`
unfoldable pub unique : List String → Bool
unfolding elem
unique [] = true
unique (s ∷ l) = if elem s l then false else unique l

-- a criterion that passes has evidence
unfoldable pub criterion_supported : Fields → Tx (Unit {0})
unfolding some_of
criterion_supported criterion = do
  state ← text_at "state" criterion
  refs ← dicts_at "evidence_refs" criterion
  guard (not (state =? "pass") || some_of refs) value_error

unfoldable pub criterion_passes : Fields → Tx (Unit {0})
criterion_passes criterion = do
  state ← text_at "state" criterion
  guard (state =? "pass") value_error

unfoldable pub is_int : Json → Bool
is_int (int n) = true
is_int _ = false

unfoldable pub is_str : Json → Bool
is_str (str t) = true
is_str _ = false

-- the three values that the thresholds compare
pub record Values : Type 0 where
  pub baseline : Json
  pub threshold : Json
  pub target : Json

unfoldable pub all_values : (Json → Bool) → Values → Bool
all_values test v = test v.baseline && test v.threshold && test v.target

unfoldable pub values_of : Fields → Tx Values
values_of measurement = do
  baseline ← field_of "baseline_value" measurement
  threshold ← field_of "admission_threshold" measurement
  target ← field_of "target_value" measurement
  pure (record { baseline = baseline; threshold = threshold; target = target })

unfoldable pub mode_fits : String → String → Values → Bool
unfolding all_values is_int is_str
mode_fits mode direction v =
    if mode =? "numeric"
    then all_values is_int v && ((direction =? "increase") || (direction =? "decrease"))
    else all_values is_str v && (direction =? "match")

unfoldable pub check_mode : Fields → Tx Values
unfolding values_of mode_fits
check_mode measurement = do
  values ← values_of measurement
  mode ← text_at "threshold_mode" measurement
  direction ← text_at "direction" measurement
  guard (mode_fits mode direction values) value_error
  pure values

-- `a < b`, and `a == b`, on two numbers or two texts
unfoldable pub value_less : Json → Json → Bool
unfolding int_less
value_less (int a) (int b) = int_less a b
value_less _ _ = false

-- `threshold_met and improvement_is_directional`
unfoldable pub improves : String → String → Values → Bool
unfolding same_text value_less
improves mode direction v =
    if mode =? "explicit"
    then same_text v.baseline v.threshold && not (same_text v.target v.baseline)
    else if direction =? "increase"
    then not (value_less v.baseline v.threshold) && value_less v.baseline v.target
    else not (value_less v.threshold v.baseline) && value_less v.target v.baseline

unfoldable pub is_positive : Json → Bool
unfolding int_less
is_positive (int n) = int_less (pos 0) n
is_positive _ = false

-- the human who answers for the admission
unfoldable pub check_approver : Fields → Tx (Unit {0})
unfolding get truthy starts_with
check_approver approver = do
  status ← text_at "status" approver
  guard (status =? "approved") value_error
  reviewed ← or_raise value_error (get "reviewed_at" approver)
  guard (truthy reviewed) value_error
  actor ← text_at "actor" approver
  guard (starts_with "human:" actor) value_error

-- the gates of an admission
unfoldable pub check_admission :
    Clock → Fields → Fields → List Timestamp → List Fields → Values → Tx (Unit {0})
unfolding check_approver check_approval_time criterion_passes is_positive some_of improves
check_admission clock record_dict measurement evidence criteria values = do
  approver ← dict_of (← field_of "accountable_approver" record_dict)
  check_approver approver
  check_approval_time clock record_dict measurement approver evidence criteria
  evaluation ← dict_of (← field_of "evaluation" record_dict)
  status ← text_at "status" evaluation
  guard (status =? "pass") value_error
  each criterion_passes criteria
  samples ← field_of "sample_count" measurement
  refs ← dicts_at "evidence_refs" measurement
  guard (is_positive samples && some_of refs) value_error
  mode ← text_at "threshold_mode" measurement
  direction ← text_at "direction" measurement
  guard (improves mode direction values) value_error

unfoldable pub validate_expansion : Clock → Fields → Tx (Unit {0})
unfolding check_window check_review check_authority unique criterion_supported check_mode
    check_admission
validate_expansion clock record_dict = do
  expected ← sha_profile record_dict ("aggregate_version" ∷ "decision_sha256" ∷ [])
  given ← text_at "decision_sha256" record_dict
  guard (given =? expected) value_error
  measurement ← dict_of (← field_of "measurement" record_dict)
  evidence ← check_window clock measurement
  check_review clock record_dict
  candidate ← dict_of (← field_of "candidate" record_dict)
  boundary ← dict_of (← field_of "incident_boundary" record_dict)
  check_authority candidate boundary
  evaluation ← dict_of (← field_of "evaluation" record_dict)
  criteria ← dicts_at "criteria" evaluation
  names ← collect (text_at "criterion") criteria
  guard (unique names) value_error
  each criterion_supported criteria
  values ← check_mode measurement
  decision ← text_at "decision" record_dict
  when (decision =? "admit")
      (check_admission clock record_dict measurement evidence criteria values)
