-- ===== src/Http/Syntax.antt =====
-- The validators of servente-http/src/syntax.rs, with `is_visible_character` of
-- servente-http/src/abnf.rs.
use servente.Common.{
  ℕ, Bool, true, false, not, ◌&&◌, ◌||◌, [], ◌∷◌, Bytes, codes, leb, ◌==◌, if◌then◌else◌,
}
use servente.Common.Result.{Result, ok, err, ◌>>◌}
use servente.Http.Error.{
  HttpParseError, field_value_contains_invalid_characters, token_empty, token_contains_delimiter,
  token_contains_non_visible_ascii, token_contains_whitespace,
}

-- VCHAR of RFC 5234.
unfoldable pub is_visible_character : ℕ → Bool
is_visible_character byte = leb 0x21 byte && leb byte 0x7e

unfoldable pub validate_obs_text : ℕ → Bool
validate_obs_text byte = leb 0x80 byte && leb byte 0xff

unfoldable pub is_field_value_character : ℕ → Bool
unfolding is_visible_character validate_obs_text
is_field_value_character byte = is_visible_character byte || validate_obs_text byte

unfoldable pub is_request_target_character : ℕ → Bool
is_request_target_character byte = not (leb byte 0x1f || leb 0x80 byte && leb byte 0xff)

-- One of the characters of a text.
unfoldable pub one_of : Bytes → ℕ → Bool
one_of [] character = false
one_of (c ∷ cs) character = c == character || one_of cs character

unfoldable pub validate_token_character : ℕ → Result HttpParseError (Unit {0})
unfolding one_of
validate_token_character character =
    if one_of (b' ' ∷ 0x09 ∷ []) character
    then err token_contains_whitespace
    else if one_of (codes "!#$%&'*+-.^_`|~") character
    then ok tt
    else if leb b'0' character && leb character b'9'
    then ok tt
    else if leb b'A' character && leb character b'Z'
    then ok tt
    else if leb b'a' character && leb character b'z'
    then ok tt
    else if one_of (codes "\"(),/:;<=>?@[\\]{}") character
    then err token_contains_delimiter
    else err token_contains_non_visible_ascii

unfoldable pub is_token_character : ℕ → Bool
unfolding validate_token_character
is_token_character byte = elim (validate_token_character byte) [ ok u ↦ true | err e ↦ false ]

-- The `for` loop of `validate_token`.
unfoldable pub validate_characters : Bytes → Result HttpParseError (Unit {0})
unfolding validate_token_character
validate_characters [] = ok tt
validate_characters (character ∷ value) = do
  validate_token_character character
  validate_characters value

unfoldable pub validate_token : Bytes → Result HttpParseError (Unit {0})
unfolding validate_characters
validate_token [] = err token_empty
validate_token (character ∷ value) = validate_characters (character ∷ value)

-- The closure that `validate_field_content` tests every byte with, and `all`.
unfoldable pub is_content_byte : ℕ → Bool
unfolding is_field_value_character
is_content_byte byte = is_field_value_character byte || byte == b' ' || byte == 0x09

unfoldable pub all_content_bytes : Bytes → Bool
unfolding is_content_byte
all_content_bytes [] = true
all_content_bytes (byte ∷ value) = is_content_byte byte && all_content_bytes value

unfoldable pub validate_field_content : Bytes → Result HttpParseError (Unit {0})
unfolding all_content_bytes
validate_field_content value =
    if all_content_bytes value then ok tt else err field_value_contains_invalid_characters
