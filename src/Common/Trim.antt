-- ===== src/Common/Trim.antt =====
-- `strings.TrimSpace` leaves a text that it has trimmed alone.
use tolo_observation.Common.{◌≡◌, refl, ◌∙◌, ap, inl, inr, Bool-cases, [], ◌∷◌, arith}
use tolo_observation.Common.Text.{Text, is_space, trim_left, trim_right, trim_space}

trim_right_idem : (s : Text) → trim_right (trim_right s) ≡ trim_right s
unfolding trim_right
trim_right_idem [] = refl
trim_right_idem (c ∷ s) = ground (arith, trim_right_idem s)

trim_left-trim_right : (s : Text) → trim_left (trim_right (trim_left s)) ≡ trim_right (trim_left s)
unfolding trim_right trim_left
trim_left-trim_right [] = refl
trim_left-trim_right (c ∷ s) = elim (Bool-cases (is_space c)) [
  | inl space ↦ rw (space, trim_left) (trim_left-trim_right s)
  | inr letter ↦ ground arith
]

-- Trimming twice is trimming once.
pub trim_space_idem : (s : Text) → trim_space (trim_space s) ≡ trim_space s
unfolding trim_space
trim_space_idem s = ap trim_right (trim_left-trim_right s) ∙ trim_right_idem (trim_left s)
