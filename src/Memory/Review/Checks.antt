-- ===== src/Memory/Review/Checks.antt =====
-- What the source checks of a review in src/city2core/memory.py prove.
use mathlib.Core.List.{Perm}
use mathlib.Core.List.Perm
use city.Base.{String, ◌≡◌, refl, sym, subst, Bool, true, ◌&&◌, some, List, [], ◌∷◌, arith}
use city.Model.Json.{Items, Fields, str, get}
use city.Store.Rows.{Db}
use city.Store.Tx.{Env}
use city.Store.Post.{Views, look, weaken_view}
use city.Store.Post.Steps.{pure_lem, guard_lem}
use city.Memory.Fields.Reads.{
  Each, AreDicts, DictsAt, text_at_lem, dicts_of_lem, dicts_at_lem, collect_lem,
}
use city.Memory.Sort.{sort, texts_le, same_rows}
use city.Memory.Sort.Laws.{sort-perm, same_rows_eq}
use city.Memory.Review.{
  source_triple, status_current, all_rows, proves_current, verify_source_checks,
}

-- The triple is what the dict of a source, or of a check, holds.
pub record IsTriple (d : Fields) (triple : List String) : Type 0 where
  pub uri : String
  pub sha : String
  pub status : String
  pub is : triple ≡ uri ∷ sha ∷ status ∷ []
  pub has_uri : get "uri" d ≡ some (str uri)
  pub has_sha : get "content_sha256" d ≡ some (str sha)
  pub has_status : get "validity_status" d ≡ some (str status)

-- The checks are those of every evidence reference, each once, and all are current.
pub record Checked (record_dict : Fields) (checks : Items) : Type 0 where
  pub refs : List Fields
  pub given : List Fields
  pub expected : List (List String)
  pub actual : List (List String)
  pub refs_are : DictsAt "evidence_refs" record_dict refs
  pub given_are : AreDicts checks given
  pub expected_are : Each IsTriple refs expected
  pub actual_are : Each IsTriple given actual
  pub same : Perm actual expected
  pub current : all_rows status_current actual ≡ true

all_rows-place :
    (test : List String → Bool) (le : List String → List String → Bool) (x : List String)
    (l : List (List String))
    → all_rows test (city.Memory.Sort.place le x l) ≡ (test x && all_rows test l)
unfolding all_rows city.Memory.Sort.place
all_rows-place test le x [] = ground arith
all_rows-place test le x (y ∷ l) = let h = all_rows-place test le x l in ground arith

all_rows-sort :
    (test : List String → Bool) (le : List String → List String → Bool) (l : List (List String))
    → all_rows test (sort le l) ≡ all_rows test l
unfolding all_rows sort
all_rows-sort test le [] = refl
all_rows-sort test le (x ∷ l) =
    let h = all_rows-sort test le l in let k = all_rows-place test le x (sort le l) in ground arith

-- Rows that sort to the same rows are the same ones up to their order.
same_rows-perm :
    (a b : List (List String)) → same_rows (sort texts_le a) (sort texts_le b) ≡ true → Perm a b
same_rows-perm a b h =
    Perm.trans (Perm.symm (sort-perm texts_le a))
      (subst (λ l. Perm l b) (sym (same_rows_eq _ _ h)) (sort-perm texts_le b))

proves_current_lem :
    (expected actual : List (List String))
    → proves_current expected actual ≡ true
    → Perm actual expected × (all_rows status_current actual ≡ true)
unfolding proves_current
proves_current_lem expected actual h =
    let k = all_rows-sort status_current texts_le actual in
    (same_rows-perm actual expected (ground arith), ground arith)

module _ {env : Env} {db : Db} where
  source_triple_lem : (d : Fields) → Views env db (source_triple d) (IsTriple d)
  unfolding source_triple
  source_triple_lem d = look (text_at_lem "uri" d) λ uri u.
      look (text_at_lem "content_sha256" d) λ sha s.
        look (text_at_lem "validity_status" d) λ status v. weaken_view (pure_lem _) λ t e. record {
          uri = uri;
          sha = sha;
          status = status;
          is = e;
          has_uri = u;
          has_sha = s;
          has_status = v;
        }

  -- `_verify_source_checks` returns only if the checks, each with its URI, its digest and its
  -- status, are a rearrangement of the evidence references of the record, and all are "current".
  pub verify_source_checks-Checked :
      (record_dict : Fields) (checks : Items)
      → Views env db (verify_source_checks record_dict checks) (λ _. Checked record_dict checks)
  unfolding verify_source_checks
  verify_source_checks-Checked record_dict checks =
      look (dicts_at_lem "evidence_refs" record_dict) λ refs refs_are.
        look (collect_lem IsTriple source_triple source_triple_lem refs) λ expected e.
          look (dicts_of_lem checks) λ given given_are.
            look (collect_lem IsTriple source_triple source_triple_lem given) λ actual a.
              weaken_view (guard_lem _ _) λ _ h.
                let both = proves_current_lem expected actual h in
                record {
                  refs = refs;
                  given = given;
                  expected = expected;
                  actual = actual;
                  refs_are = refs_are;
                  given_are = given_are;
                  expected_are = e;
                  actual_are = a;
                  same = both.0;
                  current = both.1;
                }
