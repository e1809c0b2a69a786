-- ===== src/Schema/Validate/Ends.antt =====
-- How deep the recursion of `validate_instance` in src/city2core/schema.py goes.
use city.Base.{
  and_parts, and_both, ℕ, zero, suc, String, ◌=?◌, ◌≡◌, refl, subst, Bool, true, false, ◌&&◌,
  Option, none, some, if-cases, if◌then◌else◌, text_eq,
}
use city.Model.Json.{
  ℤ, Json, Items, Fields, null, boolean, int, str, arr, obj, nil, cons, end, field, get, truthy,
}
use city.Schema.Resolve.{SchemaStore, Resolved, resolve}
use city.Schema.Validate

-- the recursion was not too deep
unfoldable pub ends : Validate.Verdict → Bool
ends Validate.too_deep = false
ends _ = true

-- The schemas for which a fuel of `n` is enough: their dicts nest less than `n` deep, and what a
-- "$ref" in them leads to fits less fuel, in its own document. `g` says which fit the fuel before.
module _ (store : SchemaStore) (g : String → Json → Json → Bool) (name : String) (root : Json) where
  -- the document of a reference is no empty value, and its node fits
  unfoldable pub target_fits : Option Resolved → Bool
  unfolding truthy
  target_fits none = true
  target_fits (some r) = truthy r.root && g r.name r.root r.node

  unfoldable pub ref_fits : String → Json → Bool
  unfolding target_fits resolve
  ref_fits k (str ref) = if k =? "$ref" then target_fits (resolve store ref name root) else true
  ref_fits k _ = true

  unfoldable pub fields_fit : Fields → Bool
  unfolding ref_fits
  fields_fit end = true
  fields_fit (field k v d) = (ref_fits k v && g name root v) && fields_fit d

  unfoldable mutual
    unfolding fields_fit

    pub shallow_fits : Json → Bool
    shallow_fits (obj d) = fields_fit d
    shallow_fits (arr l) = shallow_items l
    shallow_fits _ = true

    pub shallow_items : Items → Bool
    shallow_items nil = true
    shallow_items (cons v l) = shallow_fits v && shallow_items l

unfoldable pub fits : SchemaStore → ℕ → String → Json → Json → Bool
unfolding shallow_fits
fits store zero name root v = false
fits store (suc n) name root v = shallow_fits store (fits store n) name root v

unfoldable pub fits_items : SchemaStore → ℕ → String → Json → Items → Bool
unfolding fits
fits_items store n name root nil = true
fits_items store n name root (cons v l) = fits store n name root v && fits_items store n name root l

module _ (store : SchemaStore) (g h : String → Json → Json → Bool)
    (more : (name : String) (root v : Json) → g name root v ≡ true → h name root v ≡ true)
    (name : String) (root : Json) where
  target_more :
      (o : Option Resolved)
      → target_fits store g name root o ≡ true
      → target_fits store h name root o ≡ true
  unfolding target_fits
  target_more none e = refl
  target_more (some r) e =
      let (a, b) = and_parts (truthy r.root) (g r.name r.root r.node) e in
      and_both _ _ a (more r.name r.root r.node b)

  ref_more :
      (k : String) (v : Json)
      → ref_fits store g name root k v ≡ true
      → ref_fits store h name root k v ≡ true
  unfolding ref_fits
  ref_more k (str ref) e = at (k =? "$ref") e
    where
      at :
          (b : Bool)
          → (if b then target_fits store g name root (resolve store ref name root) else true) ≡ true
          → (if b then target_fits store h name root (resolve store ref name root) else true) ≡ true
      at true f = target_more (resolve store ref name root) f
      at false f = refl
  ref_more k null e = refl
  ref_more k (boolean _) e = refl
  ref_more k (int _) e = refl
  ref_more k (arr _) e = refl
  ref_more k (obj _) e = refl

  fields_more :
      (d : Fields) → fields_fit store g name root d ≡ true → fields_fit store h name root d ≡ true
  unfolding fields_fit
  fields_more end e = refl
  fields_more (field k v d) e =
      let (a, b) =
        and_parts (ref_fits store g name root k v && g name root v) (fields_fit store g name root d)
          e in
      let (c, f) = and_parts (ref_fits store g name root k v) (g name root v) a in
      and_both _ _ (and_both _ _ (ref_more k v c) (more name root v f)) (fields_more d b)

  mutual
    unfolding shallow_fits shallow_items

    shallow_more :
        (v : Json)
        → shallow_fits store g name root v ≡ true
        → shallow_fits store h name root v ≡ true
    shallow_more (obj d) e = fields_more d e
    shallow_more (arr l) e = shallow_items_more l e
    shallow_more null e = refl
    shallow_more (boolean _) e = refl
    shallow_more (int _) e = refl
    shallow_more (str _) e = refl

    shallow_items_more :
        (l : Items)
        → shallow_items store g name root l ≡ true
        → shallow_items store h name root l ≡ true
    shallow_items_more nil e = refl
    shallow_items_more (cons v l) e =
        let (a, b) =
          and_parts (shallow_fits store g name root v) (shallow_items store g name root l) e in
        and_both _ _ (shallow_more v a) (shallow_items_more l b)

pub fits_more :
    (store : SchemaStore) (n : ℕ) (name : String) (root v : Json)
    → fits store n name root v ≡ true
    → fits store (suc n) name root v ≡ true
unfolding fits
fits_more store zero name root v h = cc
fits_more store (suc n) name root v h =
    shallow_more store (fits store n) (fits store (suc n)) (fits_more store n) name root v h

-- What is found in a schema that fits, fits, and so does what it refers to.
pub fits-get :
    (store : SchemaStore) (g : String → Json → Json → Bool) (name : String) (root : Json)
    (k : String) (d : Fields) (v : Json)
    → fields_fit store g name root d ≡ true
    → get k d ≡ some v
    → (ref_fits store g name root k v ≡ true) × (g name root v ≡ true)
unfolding fields_fit get
fits-get store g name root k end v h f = absurd (cc f)
fits-get store g name root k (field j w d) v h f =
    let (a, b) =
      and_parts (ref_fits store g name root j w && g name root w) (fields_fit store g name root d)
        h in
    at (j =? k) refl f (and_parts (ref_fits store g name root j w) (g name root w) a)
      (fits-get store g name root k d v b)
  where
    Both : String → Json → Type 0
    Both i x = (ref_fits store g name root i x ≡ true) × (g name root x ≡ true)

    at :
        (t : Bool)
        → (j =? k) ≡ t
        → ◌≡◌ {A = Option Json} (if t then some w else get k d) (some v)
        → Both j w
        → (get k d ≡ some v → Both k v)
        → Both k v
    at true e f here rest =
        let same : w ≡ v = cc f in
        subst (λ z. Both k z) same (subst (λ i. Both i w) (text_eq j k e) here)
    at false e f here rest = rest f

pub ends-then :
    (v w : Validate.Verdict) → ends v ≡ true → ends w ≡ true → ends (Validate.◌then◌ v w) ≡ true
unfolding Validate.◌then◌ ends
ends-then Validate.valid w h g = g
ends-then Validate.invalid w h g = refl
ends-then Validate.malformed w h g = refl
ends-then Validate.too_deep w h g = cc

pub ends-verdict : (b : Bool) → ends (Validate.verdict b) ≡ true
unfolding Validate.verdict ends
ends-verdict true = refl
ends-verdict false = refl

ends-any_type : (v : Json) (l : Items) → ends (Validate.any_type v l) ≡ true
unfolding Validate.any_type ends
ends-any_type v nil = refl
ends-any_type v (cons (str t) l) =
    if-cases (λ x. ends x ≡ true) (city.Schema.Equal.is_type v t) _ _ (λ _. refl)
      (λ _. ends-any_type v l)
ends-any_type v (cons null l) = refl
ends-any_type v (cons (boolean _) l) = refl
ends-any_type v (cons (int _) l) = refl
ends-any_type v (cons (arr _) l) = refl
ends-any_type v (cons (obj _) l) = refl

ends-all_there : (d : Fields) (l : Items) → ends (Validate.all_there d l) ≡ true
unfolding Validate.all_there ends
ends-all_there d nil = refl
ends-all_there d (cons (str k) l) =
    if-cases (λ x. ends x ≡ true) (city.Model.Json.has k d) _ _ (λ _. ends-all_there d l)
      (λ _. refl)
ends-all_there d (cons null l) = refl
ends-all_there d (cons (boolean _) l) = refl
ends-all_there d (cons (int _) l) = refl
ends-all_there d (cons (arr _) l) = refl
ends-all_there d (cons (obj _) l) = refl

pub ends-check_bound :
    (fine : ℤ → ℤ → Bool) (n : ℤ) (b : Option Json) → ends (Validate.check_bound fine n b) ≡ true
unfolding Validate.check_bound ends
ends-check_bound fine n none = refl
ends-check_bound fine n (some (int m)) = ends-verdict (fine n m)
ends-check_bound fine n (some null) = refl
ends-check_bound fine n (some (boolean _)) = refl
ends-check_bound fine n (some (str _)) = refl
ends-check_bound fine n (some (arr _)) = refl
ends-check_bound fine n (some (obj _)) = refl

pub ends-check_type : (v : Json) (t : Option Json) → ends (Validate.check_type v t) ≡ true
unfolding Validate.check_type ends
ends-check_type v none = refl
ends-check_type v (some null) = refl
ends-check_type v (some (str t)) = ends-any_type v (cons (str t) nil)
ends-check_type v (some (arr l)) = ends-any_type v l
ends-check_type v (some (boolean _)) = refl
ends-check_type v (some (int _)) = refl
ends-check_type v (some (obj _)) = refl

pub ends-check_const : (v : Json) (c : Option Json) → ends (Validate.check_const v c) ≡ true
unfolding Validate.check_const ends
ends-check_const v none = refl
ends-check_const v (some c) = ends-verdict _

pub ends-check_enum : (v : Json) (c : Option Json) → ends (Validate.check_enum v c) ≡ true
unfolding Validate.check_enum ends
ends-check_enum v none = refl
ends-check_enum v (some (arr l)) = ends-verdict _
ends-check_enum v (some null) = refl
ends-check_enum v (some (boolean _)) = refl
ends-check_enum v (some (int _)) = refl
ends-check_enum v (some (str _)) = refl
ends-check_enum v (some (obj _)) = refl

pub ends-check_required : (d : Fields) (r : Option Json) → ends (Validate.check_required d r) ≡ true
unfolding Validate.check_required ends
ends-check_required d none = refl
ends-check_required d (some (arr l)) = ends-all_there d l
ends-check_required d (some null) = refl
ends-check_required d (some (boolean _)) = refl
ends-check_required d (some (int _)) = refl
ends-check_required d (some (str _)) = refl
ends-check_required d (some (obj _)) = refl

pub ends-check_unique : (l : Items) (u : Option Json) → ends (Validate.check_unique l u) ≡ true
unfolding Validate.check_unique ends
ends-check_unique l none = refl
ends-check_unique l (some u) =
    if-cases (λ x. ends x ≡ true) (truthy u) _ _ (λ _. ends-verdict _) (λ _. refl)

pub ends-check_pattern :
    (store : SchemaStore) (t : String) (p : Option Json)
    → ends (Validate.check_pattern store t p) ≡ true
unfolding Validate.check_pattern ends
ends-check_pattern store t none = refl
ends-check_pattern store t (some (str p)) = ends-verdict _
ends-check_pattern store t (some null) = refl
ends-check_pattern store t (some (boolean _)) = refl
ends-check_pattern store t (some (int _)) = refl
ends-check_pattern store t (some (arr _)) = refl
ends-check_pattern store t (some (obj _)) = refl
