-- ===== src/Store/Post/Steps.antt =====
-- The postconditions of the statements of src/city2core/store.py that transactions are built from.
use city.Base.{
  String, ◌≡◌, refl, Bool, true, false, Option, none, some, inl, inr, arith, Option-cases, List,
}
use city.Model.Json.{Json, Fields, get, int, str, pos, obj, arr}
use city.Model.Canonical.{sha256_json, digest_profile}
use city.Model.Ids.{Kind, parse_time}
use city.Store.Rows.{Db}
use city.Store.Tx.{
  Env, Tx, Error, value_error, key_error, ◌>>=◌, pure, fail, reads, guard, or_raise, execute, write,
  insert_row, utc_now, new_id, token_urlsafe, fault, accepts, sha_json, check_canonical,
  sha_profile, time_of, writer, field_of, text_of, nat_of, uuid4, asks, dict_of, list_of, id_or_new,
}
use city.Store.Table.{insert}
use city.Store.Post.{Post, Views, seq}

-- Nothing is known of the result.
abbrev pub Any : {A : Type 0} → A → Type 0
Any a = Unit {0}

module _ {env : Env} {db : Db} where
  pub reads_lem : {A : Type 0} (f : Db → A) → Views env db (reads f) (λ a. a ≡ f db)
  unfolding reads
  reads_lem f = record { at = λ n a t h. (cc, cc) }

  pub pure_lem : {A : Type 0} (x : A) → Views env db (pure x) (λ a. a ≡ x)
  unfolding pure
  pure_lem x = record { at = λ n a t h. (cc, cc) }

  pub guard_lem : (b : Bool) (e : Error) → Views env db (guard b e) (λ _. b ≡ true)
  unfolding guard
  guard_lem true e = record { at = λ n a t h. (cc, refl) }
  guard_lem false e = record { at = λ n a t h. absurd (cc h) }

  pub or_raise_lem :
      {A : Type 0} (e : Error) (o : Option A) → Views env db (or_raise e o) (λ a. o ≡ some a)
  unfolding or_raise
  or_raise_lem e none = record { at = λ n a t h. absurd (cc h) }
  or_raise_lem e (some x) = record { at = λ n a t h. (cc, cc) }

  pub execute_lem : (f : Db → Option Db) → Post env db (execute f) (λ _ db'. f db ≡ some db')
  unfolding execute
  execute_lem f = record {
    at = λ n a t h. elim (Option-cases (f db)) [
      | inl e ↦ absurd (cc (rw (e, execute) at h))
      | inr (x, e) ↦ let g = rw (e, execute) at h in ground arith
    ];
  }

  pub utc_now_lem : Views env db utc_now Any
  unfolding utc_now
  utc_now_lem = record { at = λ n a t h. (cc, tt) }

  pub new_id_lem : (kind : Kind) → Views env db (new_id kind) Any
  unfolding new_id
  new_id_lem kind = record { at = λ n a t h. (cc, tt) }

  pub token_urlsafe_lem : Views env db token_urlsafe Any
  unfolding token_urlsafe
  token_urlsafe_lem = record { at = λ n a t h. (cc, tt) }

  pub fault_lem : (b : String) → Views env db (fault b) (λ _. env.fault_hook b ≡ false)
  unfolding fault
  fault_lem b = record { at = λ n a t h. ground arith }

  pub accepts_lem : (schema : String) (v : Json) → Views env db (accepts schema v) Any
  unfolding accepts
  accepts_lem schema v = record { at = λ n a t h. (cc, tt) }

  -- a digest is that of the value
  pub sha_json_lem : (v : Json) → Views env db (sha_json v) (λ t. sha256_json env.digest v ≡ some t)
  unfolding sha_json
  sha_json_lem v = record {
    at = λ n a t h. (or_raise_lem value_error (sha256_json env.digest v)).at n a t h;
  }

  pub check_canonical_lem : (v : Json) → Views env db (check_canonical v) Any
  unfolding check_canonical
  check_canonical_lem v = record { at = λ n a t h. ground arith }

  pub sha_profile_lem :
      (d : Fields) (names : _)
      → Views env db (sha_profile d names) (λ t. digest_profile env.digest d names ≡ some t)
  unfolding sha_profile
  sha_profile_lem d names = record {
    at = λ n a t h. (or_raise_lem value_error (digest_profile env.digest d names)).at n a t h;
  }

  pub time_of_lem :
      (v : String) → Views env db (time_of v) (λ t. parse_time env.fromisoformat v ≡ some t)
  unfolding time_of
  time_of_lem v = record {
    at = λ n a t h. (or_raise_lem value_error (parse_time env.fromisoformat v)).at n a t h;
  }

  pub writer_lem : Views env db writer (λ w. w ≡ env.writer_id)
  unfolding writer
  writer_lem = record { at = λ n a t h. (cc, cc) }

  pub field_of_lem : (k : String) (d : Fields) → Views env db (field_of k d) (λ v. get k d ≡ some v)
  unfolding field_of
  field_of_lem k d = record { at = λ n a t h. (or_raise_lem (key_error k) (get k d)).at n a t h }

  pub text_of_lem : (v : Json) → Views env db (text_of v) (λ t. v ≡ str t)
  unfolding text_of pure fail
  text_of_lem (str t) = record { at = λ n a u h. (cc, cc) }
  text_of_lem _ = record { at = λ n a t h. absurd (cc h) }

  pub nat_of_lem : (v : Json) → Views env db (nat_of v) (λ n. v ≡ int (pos n))
  unfolding nat_of pure fail
  nat_of_lem (int (pos m)) = record { at = λ n a u h. (cc, cc) }
  nat_of_lem _ = record { at = λ n a t h. absurd (cc h) }

  pub id_or_new_lem :
      (k : String) (d : Fields) (kind : Kind) → Views env db (id_or_new k d kind) Any
  unfolding id_or_new ◌>>=◌ pure new_id
  id_or_new_lem k d kind = record { at = λ n a t h. ground arith }

  -- the rest of a block after a statement that writes, on the database that it leaves
  pub write_then :
      {B : Type 0} {Q : B → Db → Type 0} (g : Db → Db) (f : Unit {0} → Tx B)
      → (Unit {0} → Post env (g db) (f tt) Q)
      → Post env db (write g >>= f) Q
  unfolding write ◌>>=◌
  write_then g f p = record { at = λ n a t h. (p tt).at n a t h }

  pub insert_row_lem :
      {R : Type 0} (key : R → String) (table : Db → List R) (put : List R → Db → Db) (r : R)
      → Post env db
          (insert_row key table put r)
          (λ _ db'. (t : List R) × (insert key r (table db) ≡ some t) × (db' ≡ put t db))
  unfolding insert_row
  insert_row_lem key table put r = record {
    at = λ n a t h.
        let e =
          (execute_lem
              (λ d. elim (insert key r (table d)) [ none ↦ none | some u ↦ some (put u d) ])).at
            n a t h in
        ground arith;
  }

  pub insert_then :
      {R B : Type 0} {Q : B → Db → Type 0} (key : R → String) (table : Db → List R)
      (put : List R → Db → Db) (r : R) (f : Unit {0} → Tx B)
      → ((t : List R) → insert key r (table db) ≡ some t → Post env (put t db) (f tt) Q)
      → Post env db (insert_row key table put r >>= f) Q
  insert_then key table put r f k =
      seq (insert_row_lem key table put r) λ _ db' (t, there, same). rw same (k t there)

  pub write_lem : (g : Db → Db) → Post env db (write g) (λ _ db'. db' ≡ g db)
  unfolding write
  write_lem g = record { at = λ n a t h. cc }

  pub uuid4_lem : Views env db uuid4 Any
  unfolding uuid4
  uuid4_lem = record { at = λ n a t h. (cc, tt) }

  pub asks_lem : {A : Type 0} (f : Env → A) → Views env db (asks f) (λ a. a ≡ f env)
  unfolding asks
  asks_lem f = record { at = λ n a t h. (cc, cc) }

  pub dict_of_lem : (v : Json) → Views env db (dict_of v) (λ d. v ≡ obj d)
  unfolding dict_of pure fail
  dict_of_lem (obj d) = record { at = λ n a u h. (cc, cc) }
  dict_of_lem _ = record { at = λ n a t h. absurd (cc h) }

  pub list_of_lem : (v : Json) → Views env db (list_of v) (λ xs. v ≡ arr xs)
  unfolding list_of pure fail
  list_of_lem (arr xs) = record { at = λ n a u h. (cc, cc) }
  list_of_lem _ = record { at = λ n a t h. absurd (cc h) }

  pub fail_lem : {A : Type 0} {P : A → Type 0} (e : Error) → Views env db (fail e) P
  unfolding fail
  fail_lem e = record { at = λ n a t h. absurd (cc h) }
