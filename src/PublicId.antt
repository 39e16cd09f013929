-- ===== src/PublicId.antt =====
-- Public IDs: internal/domain/edge_device.go, newPublicID and parsePublicID. The bytes come from
-- crypto/rand, which is an action over the state.
pub mod Laws
use tolo_observation.Common.{
  ℕ, ◌+◌, ◌-◌, ◌*◌, ◌/◌, ◌%◌, Bool, true, false, not, ◌||◌, ◌&&◌, Option, none, some, List, [], ◌∷◌,
  map, leb, ltb, ◌==◌, if◌then◌else◌, is_some,
}
use tolo_observation.Common.Text.{Text, text_eq, byte_len, is_upper}
use tolo_observation.Common.Result.{Result, ok, err, Action, ◌>>=◌, pure, wrap_err}
use tolo_observation.Errors.{sentinel, invalid_public_id}

abbrev pub public_id_byte_length : ℕ
public_id_byte_length = 8

abbrev pub public_id_length : ℕ
public_id_length = public_id_byte_length * 2

-- One digit of encoding/hex.
abbrev pub hex_digit : ℕ → ℕ
hex_digit n = if ltb n 10 then n + 48 else n + 87

unfoldable pub encode_to_string : List ℕ → Text
encode_to_string [] = []
encode_to_string (b ∷ bs) = hex_digit (b / 16) ∷ hex_digit (b % 16) ∷ encode_to_string bs

abbrev pub hex_value : ℕ → Option ℕ
hex_value c =
    if leb b'0' c && leb c b'9'
    then some (c - b'0')
    else if leb b'a' c && leb c b'f'
    then some (c - b'a' + 10)
    else if leb b'A' c && leb c b'F'
    then some (c - b'A' + 10)
    else none

-- Whether `hex.DecodeString` succeeds: an even number of digits of either case.
unfoldable pub is_decodable : Text → Bool
is_decodable [] = true
is_decodable (_ ∷ []) = false
is_decodable (a ∷ b ∷ s) = is_some (hex_value a) && is_some (hex_value b) && is_decodable s

-- `strings.ToLower`, on the letters of ASCII.
unfoldable pub to_lower : Text → Text
to_lower [] = []
to_lower (c ∷ s) = (if is_upper c then c + 32 else c) ∷ to_lower s

unfoldable pub parse_public_id : Text → Result Text
parse_public_id value =
    if not (byte_len value == public_id_length) || not (text_eq value (to_lower value))
    then err (sentinel invalid_public_id)
    else if not (is_decodable value)
    then err (sentinel invalid_public_id)
    else ok value

unfoldable pub new_public_id : {S : Type 0} → Action S (List ℕ) → Action S Text
new_public_id read = do buffer ← wrap_err "generate public ID" read; pure (encode_to_string buffer)
