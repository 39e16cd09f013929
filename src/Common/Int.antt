-- ===== src/Common/Int.antt =====
-- Signed integers over the native numbers, and the two ways in which Go brings one into int64.
use tolo_observation.Common.{
  ℕ, suc, ◌+◌, ◌-◌, ◌%◌, ◌^◌, ◌≤◌, ◌<◌, ◌≡◌, ◌↔◌, Bool, true, false, not, ◌&&◌, arith, ltb, leb,
  if◌then◌else◌,
}

-- `negsuc n` is -(n + 1).
pub data ℤ : Type 0 where
  pos : ℕ → ℤ
  negsuc : ℕ → ℤ

abbrev pub pos_part : ℤ → ℕ
pos_part (pos n) = n
pos_part (negsuc n) = 0

abbrev pub neg_part : ℤ → ℕ
neg_part (pos n) = 0
neg_part (negsuc n) = suc n

abbrev pub sub_ℕ : ℕ → ℕ → ℤ
sub_ℕ a b = if leb b a then pos (a - b) else negsuc (b - a - 1)

infixl 65 ◌+ℤ◌ ◌-ℤ◌
infix 50 ◌≤ℤ◌ ◌<ℤ◌
unfoldable pub ◌+ℤ◌ : ℤ → ℤ → ℤ
a +ℤ b = sub_ℕ (pos_part a + pos_part b) (neg_part a + neg_part b)

unfoldable pub ◌-ℤ◌ : ℤ → ℤ → ℤ
a -ℤ b = sub_ℕ (pos_part a + neg_part b) (neg_part a + pos_part b)

abbrev pub ◌≤ℤ◌ : ℤ → ℤ → Type 0
a ≤ℤ b = pos_part a + neg_part b ≤ pos_part b + neg_part a

abbrev pub ◌<ℤ◌ : ℤ → ℤ → Type 0
a <ℤ b = pos_part a + neg_part b < pos_part b + neg_part a

abbrev pub ltb_ℤ : ℤ → ℤ → Bool
ltb_ℤ a b = ltb (pos_part a + neg_part b) (pos_part b + neg_part a)

abbrev pub leb_ℤ : ℤ → ℤ → Bool
leb_ℤ a b = leb (pos_part a + neg_part b) (pos_part b + neg_part a)

-- With these the operations can stay shut.
pub +ℤ_parts :
    (a b : ℤ)
    → pos_part (a +ℤ b) + neg_part a + neg_part b ≡ neg_part (a +ℤ b) + pos_part a + pos_part b
unfolding ◌+ℤ◌
+ℤ_parts a b = ground arith

pub -ℤ_parts :
    (a b : ℤ)
    → pos_part (a -ℤ b) + neg_part a + pos_part b ≡ neg_part (a -ℤ b) + pos_part a + neg_part b
unfolding ◌-ℤ◌
-ℤ_parts a b = ground arith

pub eq_of_parts : (a b : ℤ) → pos_part a + neg_part b ≡ pos_part b + neg_part a → a ≡ b
eq_of_parts a b h = ground arith

pub ruleset int_laws = (arith, +ℤ_parts, -ℤ_parts, eq_of_parts)

-- int64 arithmetic wraps around: the representative of `x` modulo 2^64 in [-2^63, 2^63).
unfoldable pub wrap_i64 : ℤ → ℤ
wrap_i64 (pos n) = sub_ℕ ((n + 2 ^ 63) % 2 ^ 64) (2 ^ 63)
wrap_i64 (negsuc n) = sub_ℕ ((2 ^ 64 + 2 ^ 63 - 1 - n % 2 ^ 64) % 2 ^ 64) (2 ^ 63)

-- int32 arithmetic likewise.
unfoldable pub wrap_i32 : ℤ → ℤ
wrap_i32 (pos n) = sub_ℕ ((n + 2 ^ 31) % 2 ^ 32) (2 ^ 31)
wrap_i32 (negsuc n) = sub_ℕ ((2 ^ 32 + 2 ^ 31 - 1 - n % 2 ^ 32) % 2 ^ 32) (2 ^ 31)

abbrev pub max_i64 : ℤ
max_i64 = pos (2 ^ 63 - 1)

abbrev pub min_i64 : ℤ
min_i64 = negsuc (2 ^ 63 - 1)

-- A saturating operation stops at the ends of the range.
unfoldable pub sat_i64 : ℤ → ℤ
sat_i64 x = if ltb_ℤ max_i64 x then max_i64 else if ltb_ℤ x min_i64 then min_i64 else x

abbrev pub IsInt64 : ℤ → Type 0
IsInt64 x = (min_i64 ≤ℤ x) × (x ≤ℤ max_i64)

pub wrap_i64-eq : (x : ℤ) → IsInt64 x → wrap_i64 x ≡ x
unfolding wrap_i64
wrap_i64-eq (pos n) h = ground arith
wrap_i64-eq (negsuc n) h = ground arith

pub wrap_i64-IsInt64 : (x : ℤ) → IsInt64 (wrap_i64 x)
unfolding wrap_i64
wrap_i64-IsInt64 (pos n) = ground arith
wrap_i64-IsInt64 (negsuc n) = ground arith

pub sat_i64-le_iff :
    (x d : ℤ) → min_i64 ≤ℤ d → d <ℤ max_i64 → (leb_ℤ (sat_i64 x) d ≡ true) ↔ (x ≤ℤ d)
unfolding sat_i64
sat_i64-le_iff x d lo hi = ground arith

pub ltb_ℤ→lt : (a b : ℤ) → ltb_ℤ a b ≡ true → a <ℤ b
ltb_ℤ→lt a b h = ground arith

pub not-ltb_ℤ→le : (a b : ℤ) → not (ltb_ℤ a b) ≡ true → b ≤ℤ a
not-ltb_ℤ→le a b h = ground arith

abbrev pub eq_ℤ : ℤ → ℤ → Bool
eq_ℤ a b = leb_ℤ a b && leb_ℤ b a

abbrev pub max_ℤ : ℤ → ℤ → ℤ
max_ℤ a b = if ltb_ℤ a b then b else a
