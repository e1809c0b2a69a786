-- ===== src/Memory/Sort.antt =====
-- The orders that src/city2core/memory.py sorts by. `sorted` is a stable sort; here an insertion
-- sort, which is stable too.
pub mod Laws
use Prim.Native.Nat.{Ordering}
use Prim.Native.String.{compare}
use city.Base.{String, Bool, true, false, List, [], ◌∷◌, if◌then◌else◌, ◌=?◌, ◌&&◌}

-- `a <= b` on texts, by code points
unfoldable pub text_le : String → String → Bool
text_le a b = elim (compare a b) [ Ordering.gt ↦ false | _ ↦ true ]

-- `a <= b` on tuples of texts
unfoldable pub texts_le : List String → List String → Bool
unfolding text_le
texts_le [] b = true
texts_le (s ∷ a) [] = false
texts_le (s ∷ a) (t ∷ b) = let rest = texts_le a b in if s =? t then rest else text_le s t

-- `a == b` on tuples of texts
unfoldable pub same_texts : List String → List String → Bool
same_texts [] [] = true
same_texts (s ∷ a) (t ∷ b) = s =? t && same_texts a b
same_texts _ _ = false

-- `a == b` on lists of such tuples
unfoldable pub same_rows : List (List String) → List (List String) → Bool
unfolding same_texts
same_rows [] [] = true
same_rows (s ∷ a) (t ∷ b) = same_texts s t && same_rows a b
same_rows _ _ = false

module _ {A : Type 0} (le : A → A → Bool) where
  unfoldable pub place : A → List A → List A
  place x [] = x ∷ []
  place x (y ∷ l) = let later = y ∷ place x l in if le x y then x ∷ y ∷ l else later

  unfoldable pub sort : List A → List A
  unfolding place
  sort [] = []
  sort (x ∷ l) = place x (sort l)
