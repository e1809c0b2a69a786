-- ===== src/Model/Ids.antt =====
-- `ZERO_SHA256`, `ID_PREFIXES`, `new_id` and `parse_time` of src/city2core/model.py.
use Prim.Native.String.{len, slice}
use city.Base.{ℕ, ◌-◌, leb, String, ◌=?◌, ◌&◌, ◌&&◌, Option, none, if◌then◌else◌}

abbrev pub zero_sha256 : String
zero_sha256 = "0000000000000000000000000000000000000000000000000000000000000000"

pub data Kind : Type 0 where
  action archive context event memory objective review run task : Kind

unfoldable pub id_prefix : Kind → String
id_prefix action = "act_"
id_prefix archive = "arc_"
id_prefix context = "ctx_"
id_prefix event = "evt_"
id_prefix memory = "mem_"
id_prefix objective = "obj_"
id_prefix review = "rev_"
id_prefix run = "run_"
id_prefix task = "tsk_"

-- `datetime.fromisoformat`, in microseconds, is a parameter: `none` is its `ValueError`.
unfoldable pub parse_time : (String → Option ℕ) → String → Option ℕ
parse_time fromisoformat value =
    if leb 1 (len value) && (slice value (len value - 1) (len value) =? "Z")
    then fromisoformat (slice value 0 (len value - 1) & "+00:00")
    else none
