-- ===== src/Http/HeaderMap.antt =====
-- `HeaderMap` of servente-http/src/header_map.rs. The hash map is the list of its entries, in the
-- order in which it gives them out.
pub mod Laws
pub mod Setters
use servente.Common.{
  ℕ, Bool, true, false, Option, none, some, List, [], ◌∷◌, ◌++◌, Bytes, codes, if◌then◌else◌,
  length,
}
use servente.Common.Result.{Result, ok, err}
use servente.Http.HeaderName.{HeaderName, header_name_eq, set_cookie, content_length}
use servente.Http.HeaderValue.{HeaderValue, as_str_may_convert}

pub data HeaderMapInsertionError : Type 0 where
  multiple_content_length : HeaderMapInsertionError

pub record HeaderMap : Type 0 where
  pub headers : List (HeaderName × HeaderValue)
  pub set_cookie_values : List HeaderValue

abbrev pub empty : HeaderMap
empty = record { headers = []; set_cookie_values = [] }

-- The loop of `get`.
unfoldable pub find_header : HeaderName → List (HeaderName × HeaderValue) → Option HeaderValue
unfolding header_name_eq
find_header name [] = none
find_header name ((n, v) ∷ headers) =
    if header_name_eq n name then some v else find_header name headers

-- The value of a key anew: at its place if it is there, behind the others if not.
unfoldable pub put_header :
    HeaderName → HeaderValue → List (HeaderName × HeaderValue) → List (HeaderName × HeaderValue)
unfolding header_name_eq
put_header name value [] = (name, value) ∷ []
put_header name value ((n, v) ∷ headers) =
    if header_name_eq n name then (n, value) ∷ headers else (n, v) ∷ put_header name value headers

unfoldable pub get : HeaderMap → HeaderName → Option HeaderValue
unfolding find_header
get m name = find_header name m.headers

unfoldable pub contains : HeaderMap → HeaderName → Bool
unfolding find_header
contains m name = elim (find_header name m.headers) [ some v ↦ true | none ↦ false ]

unfoldable pub is_empty : HeaderMap → Bool
is_empty m = elim m.headers [ [] ↦ true | _ ↦ false ]

unfoldable pub append_or_override : HeaderMap → HeaderName → HeaderValue → HeaderMap
unfolding put_header
append_or_override m name value = record m { headers = put_header name value m.headers }

unfoldable pub remove_header :
    HeaderName → List (HeaderName × HeaderValue) → List (HeaderName × HeaderValue)
unfolding header_name_eq
remove_header name [] = []
remove_header name ((n, v) ∷ headers) =
    let kept = remove_header name headers in if header_name_eq n name then kept else (n, v) ∷ kept

unfoldable pub remove : HeaderMap → HeaderName → HeaderMap
unfolding remove_header
remove m name = record m { headers = remove_header name m.headers }

module _ (http_date : ℕ → Bytes) where
  -- An occupied entry: the values are joined by a comma, but for Content-Length.
  unfoldable pub append_occupied :
      HeaderMap → HeaderName → HeaderValue → HeaderValue → Result HeaderMapInsertionError HeaderMap
  unfolding header_name_eq put_header as_str_may_convert
  append_occupied m name old_value value =
      if header_name_eq name content_length
      then err multiple_content_length
      else ok (record m {
        headers =
            put_header name
              (HeaderValue.string (
                as_str_may_convert http_date old_value
                ++ codes ", "
                ++ as_str_may_convert http_date value))
              m.headers;
      })

  unfoldable pub append :
      HeaderMap → HeaderName → HeaderValue → Result HeaderMapInsertionError HeaderMap
  unfolding header_name_eq find_header put_header append_occupied
  append m name value =
      if header_name_eq name set_cookie
      then ok (record m { set_cookie_values = m.set_cookie_values ++ value ∷ [] })
      else elim (find_header name m.headers) [
        | some old_value ↦ append_occupied m name old_value value
        | none ↦ ok (record m { headers = put_header name value m.headers })
      ]
