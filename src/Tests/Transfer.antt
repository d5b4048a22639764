-- ===== src/Tests/Transfer.antt =====
-- The theorems on ranges and on the sending of HTTP/1 responses, at concrete inputs.
use servente.Common.{ℕ, ◌≡◌, refl, arith, Option, none, some, List, [], ◌∷◌, ◌++◌, Bytes, codes}
use servente.Common.Result.{ok}
use servente.Http.HeaderMap
use servente.Http.HeaderMap.Setters.{set_content_length}
use servente.Http.HeaderName.{content_length}
use servente.Http.HeaderValue
use servente.Http.HeaderValue.{ContentCoding, gzip}
use servente.Http.Range.{Range, start_point_to_end, points, suffix, parse}
use servente.Http.Range.RoundTrip.{IsWritten, ranges_text, parse-ranges_text}
use servente.Http.Request.{BodyKind, cached_bytes, http11}
use servente.Http.Response.{Response}
use servente.Http.StatusCode
use servente.Http.Versions.{get_version}
use servente.Http1.Transfer.{response_head, send_response}
use servente.Http1.Transfer.Length.{body_text, planned, send_response-body_text}

abbrev three_ranges : List Range
three_ranges = points 0 499 ∷ suffix 20 ∷ start_point_to_end 1000 ∷ []

parse-ranges_text_example : parse (codes "bytes=" ++ ranges_text three_ranges) ≡ some three_ranges
unfolding IsWritten
parse-ranges_text_example =
    parse-ranges_text three_ranges ((omega arith, omega arith), (omega arith, (omega arith, tt)))

abbrev reads : ℕ → ℕ → ℕ → List (Option Bytes)
reads handle start size = []

abbrev file_end : ℕ → ℕ
file_end handle = 0

abbrev date : ℕ → Bytes
date time = []

abbrev encode : ContentCoding → Bytes → Bytes
encode coding octets = octets

-- Four octets, and one as Gzip.
abbrev cached : BodyKind
cached = cached_bytes (codes "text") none (some (7 ∷ [])) (some gzip)

abbrev response : Response
response = record {
  version = http11;
  status = StatusCode.ok;
  headers = HeaderMap.empty;
  body = some cached;
}

send_response-body_text_example :
    (send_response reads file_end date encode response none [] ≡ (
      ok tt,
      ([] ++ response_head reads file_end date encode (planned response (7 ∷ []))) ++ 7 ∷ [],
    ))
    × (HeaderMap.get (set_content_length HeaderMap.empty 1) content_length
        ≡ some (HeaderValue.size 1))
unfolding body_text get_version
send_response-body_text_example =
    send_response-body_text reads file_end date encode response cached (7 ∷ []) [] none refl refl
