-- ===== src/Store/Table.antt =====
-- A table with a primary key as a list of rows, and what the SQL statements do with it. `key` is
-- the column of the primary key.
use city.Base.{
  ℕ, ◌+◌, String, ◌=?◌, ◌≡◌, inl, inr, Bool, Option, none, some, List, [], ◌∷◌, arith,
  if◌then◌else◌, eq_iff, text_eq, Bool-cases,
}
use mathlib.Core.Option

module _ {R : Type 0} (key : R → String) where
  -- SELECT * … WHERE key = k
  unfoldable pub find : String → List R → Option R
  find k [] = none
  find k (r ∷ t) = if key r =? k then some r else find k t

  -- INSERT: `none` is the violated PRIMARY KEY
  unfoldable pub insert : R → List R → Option (List R)
  unfolding find
  insert r t = elim (find (key r) t) [ none ↦ some (r ∷ t) | some _ ↦ none ]

  -- UPDATE … WHERE key = k
  unfoldable pub update : String → (R → R) → List R → List R
  update k f [] = []
  update k f (r ∷ t) = (if key r =? k then f r else r) ∷ update k f t

  pub find-key : (k : String) (t : List R) (r : R) → find k t ≡ some r → key r ≡ k
  unfolding find
  find-key k [] r h = cc
  find-key k (x ∷ t) r h = elim (Bool-cases (key x =? k)) [
    | inl e ↦ ground (arith, text_eq (key x) k e)
    | inr e ↦ find-key k t r (rw e at h)
  ]

  -- An update that keeps the key changes the rows of that key alone.
  pub find-update :
      (k j : String) (f : R → R) (t : List R)
      → ((r : R) → key (f r) ≡ key r)
      → find j (update k f t) ≡ (if k =? j then Option.map f (find j t) else find j t)
  unfolding find update
  find-update k j f [] h = ground arith
  find-update k j f (x ∷ t) h = ground (
    arith,
    h x,
    eq_iff (key x) k,
    eq_iff (key x) j,
    eq_iff (key (f x)) j,
    eq_iff k j,
    find-update k j f t h,
  )

  pub find-insert :
      (r : R) (t : List R) (u : List R) (j : String)
      → insert r t ≡ some u
      → find j u ≡ (if key r =? j then some r else find j t)
  unfolding find insert
  find-insert r t u j h = ground arith

  -- The row of a key that is inserted was not there.
  pub find-insert_new : (r : R) (t u : List R) → insert r t ≡ some u → find (key r) t ≡ none
  unfolding insert
  find-insert_new r t u h = ground arith

-- SELECT COUNT(*) … WHERE test
unfoldable pub count_where {ℓ} : {R : Type ℓ} → (R → Bool) → List R → ℕ
count_where test [] = 0
count_where test (r ∷ t) = let n = count_where test t in if test r then n + 1 else n
