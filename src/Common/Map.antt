-- ===== src/Common/Map.antt =====
-- A Go map as an association list: a key stands once, a write replaces or appends.
use tolo_observation.Common.{
  Bool, Option, none, some, List, [], ◌∷◌, if◌then◌else◌, ◌≡◌, true, ◌↔◌, arith, refl,
}

module _ {K V : Type 0} (eq : K → K → Bool) where
  abbrev pub lookup : K → List (K × V) → Option V
  lookup k [] = none
  lookup k ((j, v) ∷ m) = if eq j k then some v else lookup k m

  abbrev pub insert : K → V → List (K × V) → List (K × V)
  insert k v [] = (k, v) ∷ []
  insert k v ((j, w) ∷ m) = if eq j k then (k, v) ∷ m else (j, w) ∷ insert k v m

  pub lookup-insert :
      (law : (a b : K) → (eq a b ≡ true) ↔ (a ≡ b)) (k j : K) (v : V) (m : List (K × V))
      → lookup j (insert k v m) ≡ (if eq k j then some v else lookup j m)
  lookup-insert law k j v [] = refl
  lookup-insert law k j v ((i, w) ∷ m) =
      ground (arith, law k j, law i k, law i j, lookup-insert law k j v m)
