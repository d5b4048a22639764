-- ===== src/Http/HeaderMap/Setters.antt =====
-- The methods for single fields of servente-http/src/header_map.rs, and the entity tag of a point in time.
use servente.Common.{
  ℕ, zero, suc, ◌+◌, ◌-◌, ◌/◌, ◌%◌, ltb, Option, none, some, [], ◌∷◌, ◌++◌, Bytes, codes,
  if◌then◌else◌,
}
use servente.Http.HeaderMap.{HeaderMap, append_or_override, contains, get}
use servente.Http.HeaderName
use servente.Http.HeaderName.{etag, last_modified}
use servente.Http.HeaderValue
use servente.Http.HeaderValue.{MediaType, ContentRangeHeaderValue, as_str_no_convert}
use servente.Http.SecFetchDest
use servente.Http.SecFetchDest.{SecFetchDest}

-- `{:X}` of the standard library, for more rounds than `n` has digits.
unfoldable pub hex_digits : ℕ → ℕ → Bytes
hex_digits zero n = []
hex_digits (suc fuel) n =
    let front = hex_digits fuel (n / 16) in
    let d = n % 16 in
    let digit = if ltb d 10 then d + b'0' else d - 10 + b'A' in
    if ltb n 16 then digit ∷ [] else front ++ digit ∷ []

unfoldable pub format_system_time_as_weak_etag : ℕ → Bytes
unfolding hex_digits
format_system_time_as_weak_etag date_time = codes "W/" ++ hex_digits (date_time + 1) date_time

unfoldable pub sec_fetch_dest : HeaderMap → Option SecFetchDest
unfolding get as_str_no_convert SecFetchDest.parse
sec_fetch_dest m = elim (get m HeaderName.sec_fetch_dest) [
  | none ↦ none
  | some value ↦ elim (as_str_no_convert value) [
    | none ↦ none
    | some text ↦ SecFetchDest.parse text
  ]
]

unfoldable pub set_content_length : HeaderMap → ℕ → HeaderMap
unfolding append_or_override
set_content_length m length =
    append_or_override m HeaderName.content_length (HeaderValue.size length)

unfoldable pub set_content_range : HeaderMap → ContentRangeHeaderValue → HeaderMap
unfolding append_or_override
set_content_range m content_range =
    append_or_override m HeaderName.content_range (HeaderValue.content_range content_range)

unfoldable pub set_content_type : HeaderMap → MediaType → HeaderMap
unfolding append_or_override
set_content_type m media_type =
    append_or_override m HeaderName.content_type (HeaderValue.media_type media_type)

unfoldable pub set_last_modified : HeaderMap → ℕ → HeaderMap
unfolding append_or_override contains format_system_time_as_weak_etag
set_last_modified m date_time =
    let dated = append_or_override m last_modified (HeaderValue.date_time date_time) in
    let tagged =
      append_or_override dated etag
        (HeaderValue.string (format_system_time_as_weak_etag date_time)) in
    if contains dated etag then dated else tagged
