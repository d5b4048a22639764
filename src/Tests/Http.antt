-- ===== src/Tests/Http.antt =====
-- The theorems on the vocabulary of servente-http, at concrete inputs.
use servente.Common.{ℕ, ◌≡◌, ◌≢◌, ◌↔◌, refl, none, some, [], ◌∷◌, Bytes, codes, if◌then◌else◌}
use servente.Common.Ascii.{eq_ignore_ascii_case}
use servente.Common.Result.{err}
use servente.Http.HeaderMap.{HeaderMap, empty, get, append, multiple_content_length}
use servente.Http.HeaderMap.Laws.{get-append, append-eq-err_iff, joined}
use servente.Http.HeaderName.{header_name_eq, from_string, to_string_h1, accept, content_length}
use servente.Http.HeaderName.Case.{from_string-eq_ignore_ascii_case}
use servente.Http.HeaderName.RoundTrip.{from_string-to_string_h1}
use servente.Http.HeaderValue.{HeaderValue}

from_string-to_string_h1_example : from_string (to_string_h1 content_length) ≡ content_length
from_string-to_string_h1_example = from_string-to_string_h1 content_length tt

from_string-eq_ignore_ascii_case_example :
    from_string (codes "X-Name") ≡ from_string (codes "x-nAME")
unfolding eq_ignore_ascii_case
from_string-eq_ignore_ascii_case_example =
    from_string-eq_ignore_ascii_case (codes "X-Name") (codes "x-nAME") refl

-- A map with one field, and a text for a point in time.
abbrev one_field : HeaderMap
one_field = record empty { headers = (accept, HeaderValue.string (codes "a")) ∷ [] }

abbrev date_text : ℕ → Bytes
date_text seconds = codes "Thu, 01 Jan 1970 00:00:00 GMT"

abbrev two_values : HeaderMap
two_values = record empty { headers = (accept, HeaderValue.string (codes "a, b")) ∷ [] }

abbrev b_value : HeaderValue
b_value = HeaderValue.string (codes "b")

get-append_example :
    (get two_values accept ≡ (
      if header_name_eq accept accept
      then some (joined date_text (get one_field accept) b_value)
      else get one_field accept))
    × (two_values.set_cookie_values ≡ one_field.set_cookie_values)
unfolding append
get-append_example = get-append date_text one_field accept accept b_value (λ e. cc) refl

append-eq-err_iff_example :
    (append date_text one_field accept b_value ≡ err multiple_content_length)
    ↔ ((accept ≡ content_length) × (get one_field accept ≢ none))
append-eq-err_iff_example = append-eq-err_iff date_text one_field accept b_value
