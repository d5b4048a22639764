-- ===== src/Http1/Read/Whole.antt =====
-- `read_request_excluding_body` of servente-http1/src/read.rs on a request line and header fields.
use servente.Common.{
  ℕ, ◌<◌, ◌≡◌, refl, ◌∙◌, Bool, true, false, none, some, List, ◌∷◌, ◌++◌, Bytes, length, All,
}
use servente.Common.Exec.{>>=-ok, return}
use servente.Common.Result.{ok}
use servente.Http.HeaderMap
use servente.Http.HeaderMap.{HeaderMap}
use servente.Http.Method
use servente.Http.Request.{HttpVersion, http09, http10, http11, http2, http3, to_http_version}
use servente.Http.RequestTarget
use servente.Http.RequestTarget.{RequestTarget}
use servente.Http1.Stream.{Stream}
use servente.Http1.Read.{method_byte, target_byte, headers_of, read_request_excluding_body}
use servente.Http1.Read.Line.{IsPlain, is_read, read_request_line-append}
use servente.Http1.Read.Headers.{AreFields, field_lines, append_all, read_headers-field_lines}

-- The versions with header fields behind the request line.
unfoldable pub has_fields : HttpVersion → Bool
has_fields http10 = true
has_fields http11 = true
has_fields http09 = false
has_fields http2 = false
has_fields http3 = false

-- The bytes of a request without a body.
unfoldable pub request_text : Bytes → Bytes → HttpVersion → List (Bytes × Bytes) → Bytes → Bytes
request_text method target version fields more =
    method
    ++ b' '
      ∷ (target
          ++ b' '
            ∷ (to_http_version version ++ 0x0d ∷ 0x0a ∷ (field_lines fields ++ 0x0d ∷ 0x0a ∷ more)))

-- A method and a request target with what they are read as.
pub record IsHead (method target_text : Bytes) (target : RequestTarget) : Type 0 where
  pub method_bytes : All (IsPlain method_byte b' ') method
  pub is_method_short : length method < 16
  pub target_bytes : All (IsPlain target_byte b' ') target_text
  pub is_target_short : length target_text < 1024
  pub is_parsed : RequestTarget.parse target_text ≡ some target

has_fields-is_read : (version : HttpVersion) → has_fields version ≡ true → is_read version ≡ true
unfolding has_fields is_read
has_fields-is_read http10 h = refl
has_fields-is_read http11 h = refl
has_fields-is_read http09 h = cc
has_fields-is_read http2 h = refl
has_fields-is_read http3 h = cc

module _ (http_date : ℕ → Bytes) where
  headers_behind :
      (version : HttpVersion) (fields : List (Bytes × Bytes)) (headers : HeaderMap) (more : Bytes)
      (pieces : Stream)
      → has_fields version ≡ true
      → AreFields fields
      → append_all http_date fields HeaderMap.empty ≡ ok headers
      → headers_of http_date version ((field_lines fields ++ 0x0d ∷ 0x0a ∷ more) ∷ pieces)
        ≡ (ok headers, more ∷ pieces)
  unfolding headers_of has_fields
  headers_behind http10 fields headers more pieces h ok_fields appended =
      read_headers-field_lines http_date fields headers more pieces ok_fields appended
  headers_behind http11 fields headers more pieces h ok_fields appended =
      read_headers-field_lines http_date fields headers more pieces ok_fields appended
  headers_behind http09 fields headers more pieces h ok_fields appended = cc
  headers_behind http2 fields headers more pieces h ok_fields appended = cc
  headers_behind http3 fields headers more pieces h ok_fields appended = cc

  -- A request text of a head and of fields is read in one piece as a request with this head and the map of
  -- these fields appended in their order, and what is behind it is left.
  pub read_request_excluding_body-request_text :
      (method target_text : Bytes) (target : RequestTarget) (version : HttpVersion)
      (fields : List (Bytes × Bytes)) (headers : HeaderMap) (more : Bytes) (pieces : Stream)
      → IsHead method target_text target
      → has_fields version ≡ true
      → AreFields fields
      → append_all http_date fields HeaderMap.empty ≡ ok headers
      → read_request_excluding_body http_date
          (request_text method target_text version fields more ∷ pieces)
        ≡ (
          ok (record {
            method = Method.from_string method;
            target = target;
            version = version;
            headers = headers;
            body = none;
          }),
          more ∷ pieces,
        )
  unfolding read_request_excluding_body request_text return
  read_request_excluding_body-request_text method target_text target version fields headers more
        pieces head known ok_fields appended =
      >>=-ok _ _ (
        read_request_line-append method target_text target version
          (field_lines fields ++ 0x0d ∷ 0x0a ∷ more) pieces head.method_bytes head.is_method_short
          head.target_bytes head.is_target_short head.is_parsed (has_fields-is_read version known))
      ∙ >>=-ok _ _ (headers_behind version fields headers more pieces known ok_fields appended)
