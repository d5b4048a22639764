-- ===== src/Http2/Validate.antt =====
-- The checks of header fields, at the end of servente-http2/src/hpack.rs.
pub mod Laws
use servente.Common.{
  ℕ, Bool, true, false, not, ◌&&◌, ◌||◌, Option, none, some, List, [], ◌∷◌, Bytes, codes, ltb, leb,
  ◌==◌, bytes_eq, if◌then◌else◌,
}
use servente.Common.Result.{Result, ok, err, ◌>>=◌, ◌>>◌, fail_if}
use servente.Http.HeaderName.{
  HeaderName, connection, keep_alive, proxy_connection, transfer_encoding, upgrade, te,
  header_name_eq,
}
use servente.Http.HeaderValue.{HeaderValue, as_str_no_convert}
use servente.Http.RequestTarget.{starts_with}
use servente.Http2.Errors.{
  DecompressionError, connection_specific_header_field, te_header_not_trailers, field_name_empty,
  field_name_start_with_colon_non_pseudo_field, field_name_invalid_non_visible_ascii,
  field_name_invalid_ascii_space, field_name_invalid_uppercase, field_name_extended_ascii_unicode,
  field_value_starts_with_whitespace, field_value_ends_with_whitespace, field_value_contains_nul,
  field_value_contains_line_feed, field_value_contains_carriage_return, empty_path,
}

unfoldable pub is_connection_specific : HeaderName → Bool
unfolding header_name_eq
is_connection_specific name =
    header_name_eq name connection
    || header_name_eq name keep_alive
    || header_name_eq name proxy_connection
    || header_name_eq name transfer_encoding
    || header_name_eq name upgrade

-- `value.as_str_no_convert() == Some("trailers")`
unfoldable pub is_trailers : HeaderValue → Bool
unfolding as_str_no_convert
is_trailers value = elim (as_str_no_convert value) [
  | some s ↦ bytes_eq s (codes "trailers")
  | none ↦ false
]

unfoldable pub validate_header : HeaderName → HeaderValue → Result DecompressionError (Unit {0})
unfolding is_connection_specific is_trailers
validate_header name value =
    if is_connection_specific name
    then err connection_specific_header_field
    else if header_name_eq name te && not (is_trailers value)
    then err te_header_not_trailers
    else ok tt

-- The arms of the `match` on a byte, where they return.
unfoldable pub name_byte : ℕ → Option DecompressionError
name_byte c =
    if leb c 0x19
    then some field_name_invalid_non_visible_ascii
    else if c == 0x20
    then some field_name_invalid_ascii_space
    else if leb 0x41 c && leb c 0x5a
    then some field_name_invalid_uppercase
    else if leb 0x7f c && leb c 0xff
    then some field_name_extended_ascii_unicode
    else none

unfoldable pub value_byte : ℕ → Option DecompressionError
value_byte c =
    if c == 0x00
    then some field_value_contains_nul
    else if c == 0x0a
    then some field_value_contains_line_feed
    else if c == 0x0d
    then some field_value_contains_carriage_return
    else none

-- A `for` loop over the bytes that returns the first error.
unfoldable pub first_error :
    (ℕ → Option DecompressionError) → Bytes → Result DecompressionError (Unit {0})
first_error arm [] = ok tt
first_error arm (c ∷ cs) = elim (arm c) [ some e ↦ err e | none ↦ first_error arm cs ]

-- `is_empty`
unfoldable pub is_empty : Bytes → Bool
is_empty [] = true
is_empty (b ∷ bs) = false

-- `str::ends_with` of a character of one byte.
unfoldable pub ends_with : Bytes → ℕ → Bool
ends_with [] c = false
ends_with (b ∷ []) c = b == c
ends_with (b ∷ b' ∷ bs) c = ends_with (b' ∷ bs) c

unfoldable pub validate_header_name : Bytes → Result DecompressionError (Unit {0})
unfolding is_empty starts_with name_byte first_error
validate_header_name name = do
  fail_if (is_empty name) field_name_empty
  fail_if (starts_with name (codes ":") && not (bytes_eq name (codes ":protocol")))
      field_name_start_with_colon_non_pseudo_field
  first_error name_byte name

unfoldable pub validate_header_value : Bytes → Result DecompressionError (Unit {0})
unfolding starts_with ends_with value_byte first_error
validate_header_value value = do
  fail_if (starts_with value (codes " ") || starts_with value (9 ∷ []))
      field_value_starts_with_whitespace
  fail_if (ends_with value b' ' || ends_with value 9) field_value_ends_with_whitespace
  first_error value_byte value

unfoldable pub validate_path : Bytes → Result DecompressionError (Unit {0})
unfolding is_empty
validate_path value = fail_if (is_empty value) empty_path
