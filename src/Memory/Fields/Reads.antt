-- ===== src/Memory/Fields/Reads.antt =====
-- The postconditions of the reads of src/city2core/memory.py.
use city.Base.{
  if◌then◌else◌, String, ◌≡◌, refl, Bool, true, false, some, List, [], ◌∷◌, subst, sym, ap, ◌∙◌,
}
use city.Model.Json.{Json, Items, Fields, str, obj, arr, nil, cons, get, items}
use city.Store.Rows.{Db}
use city.Store.Tx.{Env, Tx}
use city.Store.Post.{Views, look, weaken_view}
use city.Store.Post.Steps.{Any, pure_lem, fail_lem, field_of_lem, list_of_lem}
use city.Memory.Fields.{
  string_of, text_at, dicts_of, dicts_at, texts_of, texts_at, each, collect, when,
}

-- `P x y` for the elements of two lists at the same positions
unfoldable pub Each : {A B : Type 0} → (A → B → Type 0) → List A → List B → Type 0
Each P [] [] = Unit {0}
Each P (x ∷ l) (y ∷ m) = P x y × Each P l m
Each P _ _ = ⊥

-- the dicts of a JSON list
unfoldable pub AreDicts : Items → List Fields → Type 0
AreDicts nil [] = Unit {0}
AreDicts (cons x xs) (d ∷ l) = (x ≡ obj d) × AreDicts xs l
AreDicts _ _ = ⊥

-- `d[k]` is the list of these dicts
pub record DictsAt (k : String) (d : Fields) (l : List Fields) : Type 0 where
  pub items : Items
  pub found : get k d ≡ some (arr items)
  pub are : AreDicts items l

module _ {env : Env} {db : Db} where
  pub string_of_lem : (v : Json) → Views env db (string_of v) (λ t. v ≡ str t)
  unfolding string_of
  string_of_lem (str t) = weaken_view (pure_lem t) λ a e. ap str (sym e)
  string_of_lem _ = fail_lem _

  pub text_at_lem :
      (k : String) (d : Fields) → Views env db (text_at k d) (λ t. get k d ≡ some (str t))
  unfolding text_at
  text_at_lem k d =
      look (field_of_lem k d) λ v found. weaken_view (string_of_lem v) λ t e. found ∙ ap some e

  pub dicts_of_lem : (xs : Items) → Views env db (dicts_of xs) (λ l. AreDicts xs l)
  unfolding dicts_of AreDicts
  dicts_of_lem nil = weaken_view (pure_lem []) λ l e. subst (AreDicts nil) (sym e) tt
  dicts_of_lem (cons (obj d) xs) = look (dicts_of_lem xs) λ rest are.
      weaken_view (pure_lem (d ∷ rest))
        λ l e. subst (AreDicts (cons (obj d) xs)) (sym e) (refl, are)
  dicts_of_lem (cons _ xs) = fail_lem _

  pub dicts_at_lem : (k : String) (d : Fields) → Views env db (dicts_at k d) (DictsAt k d)
  unfolding dicts_at
  dicts_at_lem k d = look (field_of_lem k d) λ v found. look (list_of_lem v) λ xs e.
      weaken_view (dicts_of_lem xs)
        λ l are. record { items = xs; found = found ∙ ap some e; are = are }

module _ {env : Env} {db : Db} {A B : Type 0} where
  pub collect_lem :
      (P : A → B → Type 0) (f : A → Tx B)
      → ((x : A) → Views env db (f x) (P x))
      → (l : List A) → Views env db (collect f l) (Each P l)
  unfolding collect Each
  collect_lem P f h [] = weaken_view (pure_lem []) λ l e. subst (Each P []) (sym e) tt
  collect_lem P f h (x ∷ l) = look (h x) λ y first. look (collect_lem P f h l) λ rest others.
      weaken_view (pure_lem (y ∷ rest)) λ m e. subst (Each P (x ∷ l)) (sym e) (first, others)

module _ {env : Env} {db : Db} where
  -- A loop that only reads.
  pub each_lem :
      {A : Type 0} (f : A → Tx (Unit {0}))
      → ((x : A) → Views env db (f x) Any)
      → (l : List A) → Views env db (each f l) Any
  unfolding each
  each_lem f h [] = weaken_view (pure_lem tt) λ _ _. tt
  each_lem f h (x ∷ l) = look (h x) λ _ _. each_lem f h l

  pub when_lem : (b : Bool) (m : Tx (Unit {0})) → Views env db m Any → Views env db (when b m) Any
  unfolding when
  when_lem true m h = h
  when_lem false m h = weaken_view (pure_lem tt) λ _ _. tt

  -- an `if` that only reads
  pub if_view :
      {A : Type 0} {P : A → Type 0} (b : Bool) (m n : Tx A)
      → Views env db m P
      → Views env db n P
      → Views env db (if b then m else n) P
  if_view true m n h g = h
  if_view false m n h g = g

  pub texts_of_lem : (xs : Items) → Views env db (texts_of xs) (λ l. xs ≡ items l)
  unfolding texts_of items
  texts_of_lem nil = weaken_view (pure_lem []) λ l e. ap items (sym e)
  texts_of_lem (cons (str t) xs) =
      look (texts_of_lem xs) λ rest are.
        weaken_view (pure_lem (t ∷ rest)) λ l e. ap (cons (str t)) are ∙ ap items (sym e)
  texts_of_lem (cons _ xs) = fail_lem _

  pub texts_at_lem :
      (k : String) (d : Fields) → Views env db (texts_at k d) (λ l. get k d ≡ some (arr (items l)))
  unfolding texts_at
  texts_at_lem k d = look (field_of_lem k d) λ v found.
      look (list_of_lem v)
        λ xs e. weaken_view (texts_of_lem xs) λ l are. found ∙ ap some (e ∙ ap arr are)
