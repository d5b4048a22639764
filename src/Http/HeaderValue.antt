-- ===== src/Http/HeaderValue.antt =====
-- Header values, servente-http/src/header_value/mod.rs, with the values they are made of:
-- `ContentCoding` and `MediaType` of servente-resources and `ContentRangeHeaderValue` of
-- servente-http/src/range.rs. The text of a point in time is the httpdate crate's, a parameter.
use servente.Common.{ℕ, Option, none, some, ◌++◌, Bytes, codes, length}
use servente.Common.Decimal.{decimal, parse_usize}
use servente.Http.SecFetchDest
use servente.Http.SecFetchDest.{SecFetchDest}

pub data ContentCoding : Type 0 where
  brotli gzip : ContentCoding

unfoldable pub http_identifier : ContentCoding → Bytes
http_identifier brotli = codes "br"
http_identifier gzip = codes "gzip"

pub data MediaType : Type 0 where
  common custom : Bytes → MediaType

unfoldable pub media_type_str : MediaType → Bytes
media_type_str (common s) = s
media_type_str (custom s) = s

pub data ContentRangeHeaderValue : Type 0 where
  range : ℕ → ℕ → Option ℕ → ContentRangeHeaderValue
  unsatisfied : ℕ → ContentRangeHeaderValue

-- A `SystemTime` is a number of seconds since the epoch.
pub data HeaderValue : Type 0 where
  shared_string static_string string : Bytes → HeaderValue
  content_coding : ContentCoding → HeaderValue
  content_range : ContentRangeHeaderValue → HeaderValue
  date_time : ℕ → HeaderValue
  media_type : MediaType → HeaderValue
  sec_fetch_dest : SecFetchDest → HeaderValue
  size : ℕ → HeaderValue

unfoldable pub as_str_no_convert : HeaderValue → Option Bytes
unfolding http_identifier media_type_str SecFetchDest.as_str
as_str_no_convert (static_string s) = some s
as_str_no_convert (shared_string s) = some s
as_str_no_convert (string s) = some s
as_str_no_convert (content_coding coding) = some (http_identifier coding)
as_str_no_convert (media_type m) = some (media_type_str m)
as_str_no_convert (sec_fetch_dest d) = some (SecFetchDest.as_str d)
as_str_no_convert _ = none

unfoldable pub content_range_str : ContentRangeHeaderValue → Bytes
unfolding decimal
content_range_str (range start end (some complete_length)) =
    codes "bytes "
    ++ decimal start
    ++ codes "-"
    ++ decimal end
    ++ codes "/"
    ++ decimal complete_length
content_range_str (range start end none) =
    codes "bytes " ++ decimal start ++ codes "-" ++ decimal end ++ codes "/*"
content_range_str (unsatisfied complete_length) = codes "bytes */" ++ decimal complete_length

unfoldable pub parse_number : HeaderValue → Option ℕ
unfolding parse_usize
parse_number (static_string s) = parse_usize s
parse_number (string s) = parse_usize s
parse_number (size n) = some n
parse_number _ = none

-- `TryInto<SystemTime>`, with the crate httpdate's `parse_http_date`.
unfoldable pub parse_date_time : (Bytes → Option ℕ) → HeaderValue → Option ℕ
parse_date_time parse_http_date (static_string s) = parse_http_date s
parse_date_time parse_http_date (string s) = parse_http_date s
parse_date_time parse_http_date (date_time t) = some t
parse_date_time parse_http_date _ = none

module _ (http_date : ℕ → Bytes) where
  unfoldable pub append_to_message : HeaderValue → Bytes → Bytes
  unfolding http_identifier media_type_str SecFetchDest.as_str content_range_str
  append_to_message (shared_string s) response_text = response_text ++ s
  append_to_message (static_string s) response_text = response_text ++ s
  append_to_message (string s) response_text = response_text ++ s
  append_to_message (content_coding coding) response_text = response_text ++ http_identifier coding
  append_to_message (content_range r) response_text = response_text ++ content_range_str r
  append_to_message (date_time t) response_text = response_text ++ http_date t
  append_to_message (media_type m) response_text = response_text ++ media_type_str m
  append_to_message (sec_fetch_dest d) response_text = response_text ++ SecFetchDest.as_str d
  append_to_message (size n) response_text = response_text ++ decimal n

  unfoldable pub to_string : HeaderValue → Bytes
  unfolding append_to_message
  to_string v = append_to_message v (codes "")

  unfoldable pub as_str_may_convert : HeaderValue → Bytes
  unfolding as_str_no_convert to_string
  as_str_may_convert v = elim (as_str_no_convert v) [ some s ↦ s | none ↦ to_string v ]

  unfoldable pub string_length : HeaderValue → ℕ
  unfolding http_identifier media_type_str SecFetchDest.as_str append_to_message
  string_length (shared_string s) = length s
  string_length (static_string s) = length s
  string_length (string s) = length s
  string_length (content_coding coding) = length (http_identifier coding)
  string_length (media_type m) = length (media_type_str m)
  string_length (sec_fetch_dest d) = length (SecFetchDest.as_str d)
  string_length v = length (append_to_message v (codes ""))
