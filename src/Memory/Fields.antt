-- ===== src/Memory/Fields.antt =====
-- What src/city2core/memory.py reads of the dicts of a memory record. A read that Python refuses
-- with `TypeError` is a `value_error` here.
pub mod Reads
use city.Base.{String, Bool, true, false, ◌||◌, List, [], ◌∷◌, if◌then◌else◌, ◌=?◌}
use city.Model.Json.{Json, Items, Fields, str, obj, nil, cons, get, has}
use city.Store.Tx.{Tx, value_error, ◌>>=◌, ◌>>◌, pure, fail, field_of, list_of}

unfoldable pub string_of : Json → Tx String
string_of (str t) = pure t
string_of _ = fail value_error

-- `d[k]`, a text
unfoldable pub text_at : String → Fields → Tx String
unfolding string_of
text_at k d = field_of k d >>= string_of

unfoldable pub dicts_of : Items → Tx (List Fields)
dicts_of nil = pure []
dicts_of (cons (obj d) xs) = do rest ← dicts_of xs; pure (d ∷ rest)
dicts_of (cons _ xs) = fail value_error

unfoldable pub texts_of : Items → Tx (List String)
texts_of nil = pure []
texts_of (cons (str t) xs) = do rest ← texts_of xs; pure (t ∷ rest)
texts_of (cons _ xs) = fail value_error

-- `d[k]`, a list of dicts
unfoldable pub dicts_at : String → Fields → Tx (List Fields)
unfolding dicts_of
dicts_at k d = do xs ← list_of (← field_of k d); dicts_of xs

-- `d[k]`, a list of texts
unfoldable pub texts_at : String → Fields → Tx (List String)
unfolding texts_of
texts_at k d = do xs ← list_of (← field_of k d); texts_of xs

-- `for source in record["evidence_refs"]`
abbrev pub sources : Fields → Tx (List Fields)
sources record_dict = dicts_at "evidence_refs" record_dict

-- a loop whose body may raise
unfoldable pub each : {A : Type 0} → (A → Tx (Unit {0})) → List A → Tx (Unit {0})
each f [] = pure tt
each f (x ∷ l) = f x >> each f l

-- `[f(x) for x in l]`
unfoldable pub collect : {A B : Type 0} → (A → Tx B) → List A → Tx (List B)
collect f [] = pure []
collect f (x ∷ l) = do y ← f x; rest ← collect f l; pure (y ∷ rest)

unfoldable pub when : Bool → Tx (Unit {0}) → Tx (Unit {0})
when true m = m
when false m = pure tt

-- `bool(l)`
unfoldable pub some_of : {A : Type 0} → List A → Bool
some_of [] = false
some_of (x ∷ l) = true

-- `any(test(x) for x in l)`
unfoldable pub any_of : {A : Type 0} → (A → Bool) → List A → Bool
any_of test [] = false
any_of test (x ∷ l) = test x || any_of test l

-- whether two sets of texts meet
unfoldable pub meets : List String → List String → Bool
unfolding any_of
meets names l = any_of (λ t. any_of (λ n. n =? t) names) l

-- `{a, b} <= d.keys()`
unfoldable pub has_both : String → String → Fields → Bool
unfolding has
has_both a b d = if has a d then has b d else false
