-- ===== src/Memory/Sort/Laws.antt =====
-- The sort of src/city2core/memory.py and its orders.
use Prim.Native.String.compare.{nil-nil, nil-cons, cons-cons}
use mathlib.Core.List.{Perm}
use mathlib.Core.List.Perm
use city.Base.{String, Bool, true, false, List, [], ◌∷◌, ◌&&◌, ◌≡◌, refl, arith, if-cases, text_eq}
use city.Memory.Sort.{text_le, same_texts, same_rows, place, sort}

-- `text_le` is total.
pub text_le_total : (a b : String) → text_le a b ≡ false → text_le b a ≡ true
unfolding text_le
text_le_total String.[] String.[] h = let e = nil-nil in cc
text_le_total String.[] (String.◌∷◌ d t) h = let e = nil-cons d t in absurd (cc)
text_le_total (String.◌∷◌ c s) String.[] h = let e = nil-cons c s in cc
text_le_total (String.◌∷◌ c s) (String.◌∷◌ d t) h =
    ground (arith, cons-cons c d s t, cons-cons d c t s, text_le_total s t)

module _ {A : Type 0} (le : A → A → Bool) where
  place-perm : (x : A) (l : List A) → Perm (place le x l) (x ∷ l)
  unfolding place
  place-perm x [] = Perm.rfl
  place-perm x (y ∷ l) =
      if-cases (λ m. Perm m (x ∷ y ∷ l)) (le x y) _ _ (λ _. Perm.rfl)
        (λ _. Perm.trans (Perm.cons y (place-perm x l)) (Perm.swap x y l))

  -- A sort rearranges its input.
  pub sort-perm : (l : List A) → Perm (sort le l) l
  unfolding sort
  sort-perm [] = Perm.rfl
  sort-perm (x ∷ l) = Perm.trans (place-perm x (sort le l)) (Perm.cons x (sort-perm l))

  -- `x` is not above the head of a list
  unfoldable pub below : A → List A → Bool
  below x [] = true
  below x (y ∷ l) = le x y

  -- no element is above its successor
  unfoldable pub ascending : List A → Bool
  unfolding below
  ascending [] = true
  ascending (x ∷ l) = below x l && ascending l

  module _ (total : (a b : A) → le a b ≡ false → le b a ≡ true) where
    below-place :
        (y x : A) (l : List A) → le y x ≡ true → below y l ≡ true → below y (place le x l) ≡ true
    unfolding below place
    below-place y x [] h g = h
    below-place y x (z ∷ l) h g = if-cases (λ m. below y m ≡ true) (le x z) _ _ (λ _. h) (λ _. g)

    ascending-place : (x : A) (l : List A) → ascending l ≡ true → ascending (place le x l) ≡ true
    unfolding ascending place
    ascending-place x [] h = refl
    ascending-place x (y ∷ l) h =
        if-cases (λ m. ascending m ≡ true) (le x y) _ _ (λ e. ground arith)
          (λ e.
            let back = total x y e in
            let first = below-place y x l back (ground arith) in
            let rest = ascending-place x l (ground arith) in ground arith)

    pub ascending-sort : (l : List A) → ascending (sort le l) ≡ true
    unfolding sort ascending
    ascending-sort [] = refl
    ascending-sort (x ∷ l) = ascending-place x (sort le l) (ascending-sort l)

pub same_texts_eq : (a b : List String) → same_texts a b ≡ true → a ≡ b
unfolding same_texts
same_texts_eq [] [] h = refl
same_texts_eq [] (t ∷ b) h = cc
same_texts_eq (s ∷ a) [] h = cc
same_texts_eq (s ∷ a) (t ∷ b) h =
    let first = text_eq s t (ground arith) in let rest = same_texts_eq a b (ground arith) in cc

pub same_rows_eq : (a b : List (List String)) → same_rows a b ≡ true → a ≡ b
unfolding same_rows
same_rows_eq [] [] h = refl
same_rows_eq [] (t ∷ b) h = cc
same_rows_eq (s ∷ a) [] h = cc
same_rows_eq (s ∷ a) (t ∷ b) h =
    let first = same_texts_eq s t (ground arith) in let rest = same_rows_eq a b (ground arith) in cc
