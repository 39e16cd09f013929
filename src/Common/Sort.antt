-- ===== src/Common/Sort.antt =====
-- Byte order of texts, and sorting: `slices.Sorted`, `slices.SortedFunc` and `slices.Compact`. UTF-8
-- orders texts as their code points do.
use Prim.Native.Nat.{compare, Ordering}
use tolo_observation.Common.{Bool, true, false, List, [], ◌∷◌, if◌then◌else◌}
use tolo_observation.Common.Text.{Text, text_eq}

unfoldable pub text_compare : Text → Text → Ordering
text_compare [] [] = Ordering.eq
text_compare [] (b ∷ t) = Ordering.lt
text_compare (a ∷ s) [] = Ordering.gt
text_compare (a ∷ s) (b ∷ t) = elim (compare a b) [
  | Ordering.lt ↦ Ordering.lt
  | Ordering.gt ↦ Ordering.gt
  | Ordering.eq ↦ text_compare s t
]

abbrev pub not_above : Ordering → Bool
not_above Ordering.gt = false
not_above Ordering.lt = true
not_above Ordering.eq = true

module _ {A : Type 0} (cmp : A → A → Ordering) where
  unfoldable pub insert_sorted : A → List A → List A
  insert_sorted a [] = a ∷ []
  insert_sorted a (b ∷ l) = if not_above (cmp a b) then a ∷ b ∷ l else b ∷ insert_sorted a l

  unfoldable pub sort : List A → List A
  sort [] = []
  sort (a ∷ l) = insert_sorted a (sort l)

-- Drops an element that equals the one before it.
unfoldable pub compact_after : Text → List Text → List Text
compact_after a [] = []
compact_after a (b ∷ l) = let rest = compact_after b l in if text_eq a b then rest else b ∷ rest

unfoldable pub compact : List Text → List Text
compact [] = []
compact (a ∷ l) = a ∷ compact_after a l
