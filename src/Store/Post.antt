-- ===== src/Store/Post.antt =====
-- Postconditions of transactions: what holds of the result and the database when one returns.
-- A rule for each way to build a transaction lets a proof follow the code statement by statement.
pub mod Steps
use city.Base.{
  ℕ, suc, String, ◌≡◌, refl, sym, ap, subst, Bool, true, false, Option, none, some, ◌⊎◌, inl, inr,
  arith,
}
use city.Model.Json.{Json, Fields}
use city.Model.Ids.{Kind}
use city.Store.Rows.{Db}
use city.Store.Tx.{
  Env, State, Result, Tx, Error, ok, err, ◌>>=◌, ◌>>◌, pure, fail, reads, guard, or_raise, execute,
  utc_now, new_id, token_urlsafe, fault, accepts, sha_json, check_canonical, sha_profile, time_of,
  writer, field_of, text_of, nat_of, id_or_new,
}

-- Every result of `m` from the database `db` satisfies `Q`.
pub record Post {A : Type 0} (env : Env) (db : Db) (m : Tx A) (Q : A → Db → Type 0) : Type 0 where
  pub at :
      (n : ℕ) (a : A) (t : State) → m env (record { db = db; calls = n }) ≡ ok (a, t) → Q a t.db

-- `m` leaves the database alone, and its results satisfy `P`.
pub record Views {A : Type 0} (env : Env) (db : Db) (m : Tx A) (P : A → Type 0) : Type 0 where
  pub at :
      (n : ℕ) (a : A) (t : State)
      → m env (record { db = db; calls = n }) ≡ ok (a, t)
      → (t.db ≡ db) × P a

module _ {A B : Type 0} where
  abbrev Parts : (Env → State → Result (A × State)) → (A → Tx B) → Env → State → B → State → Type 0
  Parts m f env s b u = (a : A) × (t : State) × (m env s ≡ ok (a, t)) × (f a env t ≡ ok (b, u))

  pub bind_ok :
      (m : Tx A) (f : A → Tx B) (env : Env) (s : State) (b : B) (u : State)
      → (m >>= f) env s ≡ ok (b, u)
      → (a : A) × (t : State) × (m env s ≡ ok (a, t)) × (f a env t ≡ ok (b, u))
  unfolding ◌>>=◌
  bind_ok m f env s b u h = go (m env s) refl
    where
      go : (r : Result (A × State)) → m env s ≡ r → Parts m f env s b u
      go (ok (a, t)) e = (a, t, e, rw (e, ◌>>=◌) at h)
      go (err x) e = absurd (cc (rw (e, ◌>>=◌) at h))

module _ {A B : Type 0} {env : Env} {db : Db} {Q : B → Db → Type 0} where
  -- One statement, then the rest of the block.
  pub seq :
      {P : A → Db → Type 0} {m : Tx A} {f : A → Tx B}
      → Post env db m P
      → ((a : A) (db' : Db) → P a db' → Post env db' (f a) Q)
      → Post env db (m >>= f) Q
  seq {m = m} {f = f} p k = record {
    at = λ n b u h.
        let parts = bind_ok m f env (record { db = db; calls = n }) b u h in
        let (a, t, e, g) = parts in (k a t.db (p.at n a t e)).at t.calls b u g;
  }

  -- A statement that only reads.
  pub view :
      {P : A → Type 0} {m : Tx A} {f : A → Tx B}
      → Views env db m P
      → ((a : A) → P a → Post env db (f a) Q)
      → Post env db (m >>= f) Q
  view {P = P} {m = m} {f = f} p k =
      seq {P = λ a db'. (db' ≡ db) × P a} (record { at = p.at })
        (λ a db' q. subst (λ d. Post env d (f a) Q) (sym q.0) (k a q.1))

-- A block that only reads.
module _ {A B : Type 0} {env : Env} {db : Db} {R : B → Type 0} where
  pub look :
      {P : A → Type 0} {m : Tx A} {f : A → Tx B}
      → Views env db m P
      → ((a : A) → P a → Views env db (f a) R)
      → Views env db (m >>= f) R
  look {P = P} {m = m} {f = f} p k = record {
    at =
        (view {Q = λ b db'. (db' ≡ db) × R b} {P = P} {m = m} {f = f} p
          (λ a q. record { at = (k a q).at })).at;
  }

module _ {A : Type 0} {env : Env} {db : Db} where
  pub returns : {Q : A → Db → Type 0} (a : A) → Q a db → Post env db (pure a) Q
  unfolding pure
  returns {Q = Q} a q = record {
    at = λ n b t h. subst (λ x. Q x t.db) (result h) (subst (λ d. Q a d) (database h) q);
  }
    where
      Returned : ℕ → A → State → Type 0
      Returned n b t =
          ◌≡◌ {A = Result (A × State)} (ok (a, record { db = db; calls = n })) (ok (b, t))

      result : {n : ℕ} {b : A} {t : State} → Returned n b t → a ≡ b
      result h = cc

      database : {n : ℕ} {b : A} {t : State} → Returned n b t → db ≡ t.db
      database h = cc

  pub fails : {Q : A → Db → Type 0} (e : Error) → Post env db (fail e) Q
  unfolding fail
  fails e = record { at = λ n a t h. absurd (cc h) }

  -- Weaker postconditions.
  pub weaken :
      {P Q : A → Db → Type 0} {m : Tx A}
      → Post env db m P
      → ((a : A) (db' : Db) → P a db' → Q a db')
      → Post env db m Q
  weaken p k = record { at = λ n a t h. k a t.db (p.at n a t h) }

  pub weaken_view :
      {P R : A → Type 0} {m : Tx A} → Views env db m P → ((a : A) → P a → R a) → Views env db m R
  weaken_view p k = record { at = λ n a t h. let q = p.at n a t h in (q.0, k a q.1) }

  -- The last statement of a block, where it only reads.
  pub ends :
      {P : A → Type 0} {Q : A → Db → Type 0} {m : Tx A}
      → Views env db m P
      → ((a : A) → P a → Q a db)
      → Post env db m Q
  ends {Q = Q} p k = record {
    at = λ n a t h. let q = p.at n a t h in subst (λ d. Q a d) (sym q.0) (k a q.1);
  }

-- What held before a block holds after it.
pub held : {A : Type 0} {env : Env} {db : Db} {m : Tx A} {P : Type 0} → P → Post env db m (λ _ _. P)
held p = record { at = λ n a t h. p }

-- A statement of which nothing is used.
pub skip :
    {A B : Type 0} {env : Env} {db : Db} {f : A → Tx B} {Q : B → Db → Type 0} (m : Tx A)
    → ((a : A) (db' : Db) → Post env db' (f a) Q)
    → Post env db (m >>= f) Q
skip m k = seq {P = λ _ _. Unit {0}} (held tt) λ a db' _. k a db'
