-- ===== src/PublicId/Laws.antt =====
-- What a public ID is, and that generated IDs are public IDs.
use tolo_observation.Common.{
  ℕ, zero, suc, ◌/◌, ◌%◌, ◌<◌, ◌*◌, ◌≡◌, ◌↔◌, refl, Bool, true, false, ◌||◌, ◌&&◌, List, [], ◌∷◌,
  arith, is_some, leb, length, All, ◌⊎◌, inl, inr, &&-eq-true,
}
use tolo_observation.Common.Text.{Text, byte_len, text_eq_iff, rune_len}
use tolo_observation.Common.Result.{ok, err, Action, wrap_err, wrap_result_ok, bind_ok, pure}
use tolo_observation.Errors.{sentinel, invalid_public_id}
use tolo_observation.PublicId.{
  hex_digit, hex_value, encode_to_string, is_decodable, to_lower, parse_public_id, new_public_id,
}

-- A lower-case hexadecimal digit.
abbrev pub is_lower_hex : ℕ → Bool
is_lower_hex c = (leb b'0' c && leb c b'9') || (leb b'a' c && leb c b'f')

-- Sixteen lower-case hexadecimal digits.
abbrev pub IsPublicId : Text → Type 0
IsPublicId t = (length t ≡ 16) × All (λ c. is_lower_hex c ≡ true) t

byte_len-ascii : (t : Text) → All (λ c. is_lower_hex c ≡ true) t → byte_len t ≡ length t
unfolding byte_len
byte_len-ascii [] h = refl
byte_len-ascii (c ∷ t) h = ground (arith, byte_len-ascii t h.1)

to_lower-lower : (t : Text) → All (λ c. is_lower_hex c ≡ true) t → to_lower t ≡ t
unfolding to_lower
to_lower-lower [] h = refl
to_lower-lower (c ∷ t) h = ground (arith, to_lower-lower t h.1)

is_even : ℕ → Bool
is_even zero = true
is_even (suc zero) = false
is_even (suc (suc n)) = is_even n

decodable-lower :
    (t : Text)
    → All (λ c. is_lower_hex c ≡ true) t
    → is_even (length t) ≡ true
    → is_decodable t ≡ true
unfolding is_decodable is_even
decodable-lower [] h e = refl
decodable-lower (c ∷ []) h e = cc
decodable-lower (c ∷ d ∷ t) h e = ground (arith, decodable-lower t h.1.1)

lower_of_decodable :
    (t : Text) → is_decodable t ≡ true → to_lower t ≡ t → All (λ c. is_lower_hex c ≡ true) t
unfolding is_decodable to_lower
lower_of_decodable [] h e = tt
lower_of_decodable (c ∷ []) h e = cc
lower_of_decodable (c ∷ d ∷ t) h e = ground (arith, lower_of_decodable t)

rune_len-hex : (c : ℕ) → is_some (hex_value c) ≡ true → rune_len c ≡ 1
rune_len-hex c h = ground arith

byte_len-decodable : (t : Text) → is_decodable t ≡ true → byte_len t ≡ length t
unfolding is_decodable byte_len
byte_len-decodable [] h = refl
byte_len-decodable (c ∷ []) h = cc
byte_len-decodable (c ∷ d ∷ t) h =
    let (two, rest) = &&-eq-true _ (is_decodable t) h in
    let (first, second) = &&-eq-true (is_some (hex_value c)) _ two in
    omega (arith, rune_len-hex c first, rune_len-hex d second, byte_len-decodable t rest)

-- Parsing succeeds exactly on the texts of sixteen lower-case hexadecimal digits, and then returns
-- its argument unchanged.
pub parse_public_id_ok : (v t : Text) → (parse_public_id v ≡ ok t) ↔ ((t ≡ v) × IsPublicId v)
unfolding parse_public_id is_even
parse_public_id_ok v t = (accepted, returned)
  where
    accepted : parse_public_id v ≡ ok t → (t ≡ v) × IsPublicId v
    accepted h =
        ground (arith, text_eq_iff v (to_lower v), byte_len-decodable v, lower_of_decodable v)

    returned : (t ≡ v) × IsPublicId v → parse_public_id v ≡ ok t
    returned h = ground (
      arith,
      text_eq_iff v (to_lower v),
      byte_len-ascii v h.1.1,
      to_lower-lower v h.1.1,
      decodable-lower v h.1.1 (rw h.1.0),
    )

outcome :
    (v : Text) → (parse_public_id v ≡ ok v) ⊎ (parse_public_id v ≡ err (sentinel invalid_public_id))
unfolding parse_public_id
outcome v = ground arith

-- The two outcomes of parsing.
pub parse_public_id-cases :
    (v : Text)
    → ((parse_public_id v ≡ ok v) × IsPublicId v)
      ⊎ (parse_public_id v ≡ err (sentinel invalid_public_id)) × (¬ IsPublicId v)
parse_public_id-cases v = elim (outcome v) [
  | inl e ↦ inl (e, ((parse_public_id_ok v v).0 e).1)
  | inr e ↦ inr (e, λ valid. cc (e, (parse_public_id_ok v v).1 (refl, valid)))
]

hex_digit-lower : (n : ℕ) → n < 16 → is_lower_hex (hex_digit n) ≡ true
hex_digit-lower n h = ground arith

encode-lower :
    (bs : List ℕ) → All (λ b. b < 256) bs → All (λ c. is_lower_hex c ≡ true) (encode_to_string bs)
unfolding encode_to_string
encode-lower [] h = tt
encode-lower (b ∷ bs) h = (
  hex_digit-lower (b / 16) (omega arith),
  (hex_digit-lower (b % 16) (omega arith), encode-lower bs h.1),
)

length-encode : (bs : List ℕ) → length (encode_to_string bs) ≡ 2 * length bs
unfolding encode_to_string
length-encode [] = refl
length-encode (b ∷ bs) = omega (arith, length-encode bs)

encode_to_string-IsPublicId :
    (bs : List ℕ) (id : Text)
    → length bs ≡ 8
    → All (λ b. b < 256) bs
    → encode_to_string bs ≡ id
    → IsPublicId id
encode_to_string-IsPublicId bs id eight small e =
    rw (← e) (omega (arith, length-encode bs), encode-lower bs small)

-- crypto/rand fills the buffer with eight bytes or reports an error.
abbrev pub FillsBuffer : {S : Type 0} → Action S (List ℕ) → Type 0
FillsBuffer {S} read =
    (s : S) (bs : List ℕ) → (read s).0 ≡ ok bs → (length bs ≡ 8) × All (λ b. b < 256) bs

-- If the random source fills its buffer of eight bytes, every public ID that is generated parses,
-- and parsing returns it unchanged.
pub new_public_id-parses :
    {S : Type 0} (read : Action S (List ℕ))
    → FillsBuffer read
    → (s : S) (id : Text) → (new_public_id read s).0 ≡ ok id
    → parse_public_id id ≡ ok id
unfolding new_public_id
new_public_id-parses read fills s id h =
    let (bs, got, made) =
      bind_ok (wrap_err "generate public ID" read) (λ buffer. pure (encode_to_string buffer)) s id
        h in
    let (eight, small) = fills s bs (wrap_result_ok "generate public ID" _ bs got) in
    (parse_public_id_ok id id).1 (refl, encode_to_string-IsPublicId bs id eight small (cc made))
