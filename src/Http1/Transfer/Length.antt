-- ===== src/Http1/Transfer/Length.antt =====
-- The Content-Length of a response, in `send_response` of servente-http1/src/lib.rs.
use servente.Common.{ℕ, ◌≡◌, refl, ap, ◌∙◌, Option, none, some, List, ◌++◌, Bytes, length}
use servente.Common.Exec.{>>=-ok, modify}
use servente.Common.Result.{ok}
use servente.Http.HeaderMap
use servente.Http.HeaderMap.Setters.{set_content_length}
use servente.Http.HeaderMap.Laws.{get-append_or_override}
use servente.Http.HeaderName.{content_length, header_name_eq}
use servente.Http.HeaderValue
use servente.Http.HeaderValue.{ContentCoding, brotli, gzip}
use servente.Http.Range.{Range}
use servente.Http.Request.{BodyKind, bytes, cached_bytes, file, static_string, string}
use servente.Http.Response.{Response}
use servente.Http.Versions.{get_version}
use servente.Http1.Transfer.{
  full_transfer, with_length, strategy_of, determine_transfer_strategy, write_all, lift,
  cached_version, write_body, response_head, send_response,
}

-- The text of a body that is not a file, where it has the version that it names.
unfoldable pub body_text : BodyKind → Option Bytes
body_text (bytes octets) = some octets
body_text (static_string text) = some text
body_text (string text) = some text
body_text (cached_bytes uncompressed brotli_version gzip_version coding) =
    get_version uncompressed brotli_version gzip_version coding
body_text (file handle file_size) = none

abbrev pub planned : Response → Bytes → Response
planned response text = record response {
  headers = set_content_length response.headers (length text);
}

strategy_of-body_text :
    (response : Response) (body : BodyKind) (text : Bytes) (ranges : Option (List Range))
    → body_text body ≡ some text
    → strategy_of response (some body) ranges ≡ ok (full_transfer, planned response text)
unfolding body_text strategy_of with_length
strategy_of-body_text response (bytes octets) text ranges h =
    let same : octets ≡ text = cc in rw same refl
strategy_of-body_text response (static_string octets) text ranges h =
    let same : octets ≡ text = cc in rw same refl
strategy_of-body_text response (string octets) text ranges h =
    let same : octets ≡ text = cc in rw same refl
strategy_of-body_text response (cached_bytes uncompressed brotli_version gzip_version coding) text
      ranges h =
    let version : get_version uncompressed brotli_version gzip_version coding ≡ some text = h in
    rw version refl
strategy_of-body_text response (file handle file_size) text ranges h = cc

chosen :
    (response : Response) (body : BodyKind) (text : Bytes) (ranges : Option (List Range))
    → response.body ≡ some body
    → body_text body ≡ some text
    → determine_transfer_strategy response ranges ≡ ok (full_transfer, planned response text)
unfolding determine_transfer_strategy
chosen response body text ranges has_body h =
    ap (λ b. strategy_of response b ranges) has_body
    ∙ strategy_of-body_text response body text ranges h

module _ (file_reads : ℕ → ℕ → ℕ → List (Option Bytes)) (file_end : ℕ → ℕ) (http_date : ℕ → Bytes)
    (encode : ContentCoding → Bytes → Bytes) where
  cached_version-get_version :
      (uncompressed : Bytes) (brotli_version gzip_version : Option Bytes)
      (coding : Option ContentCoding) (text : Bytes)
      → get_version uncompressed brotli_version gzip_version coding ≡ some text
      → cached_version file_reads file_end http_date encode uncompressed brotli_version gzip_version
          coding
        ≡ text
  unfolding get_version cached_version
  cached_version-get_version uncompressed brotli_version gzip_version none text h = cc
  cached_version-get_version uncompressed (some version) gzip_version (some brotli) text h = cc
  cached_version-get_version uncompressed none gzip_version (some brotli) text h = cc
  cached_version-get_version uncompressed brotli_version (some version) (some gzip) text h = cc
  cached_version-get_version uncompressed brotli_version none (some gzip) text h = cc

  write_body-body_text :
      (body : BodyKind) (text : Bytes) (output : Bytes)
      → body_text body ≡ some text
      → write_body file_reads file_end http_date encode (some body) full_transfer output
        ≡ (ok tt, output ++ text)
  unfolding body_text write_body write_all modify
  write_body-body_text (bytes octets) text output h = let same : octets ≡ text = cc in rw same refl
  write_body-body_text (static_string octets) text output h =
      let same : octets ≡ text = cc in rw same refl
  write_body-body_text (string octets) text output h = let same : octets ≡ text = cc in rw same refl
  write_body-body_text (cached_bytes uncompressed brotli_version gzip_version coding) text output
        h =
      ap (λ t. (ok tt, output ++ t))
        (cached_version-get_version uncompressed brotli_version gzip_version coding text h)
  write_body-body_text (file handle file_size) text output h = cc

  -- A response with a body that is not a file, and that has the version that it names, is sent as its head and this
  -- body, whatever the ranges are, and the Content-Length of the head is the length of the body.
  pub send_response-body_text :
      (response : Response) (body : BodyKind) (text output : Bytes) (ranges : Option (List Range))
      → response.body ≡ some body
      → body_text body ≡ some text
      → (send_response file_reads file_end http_date encode response ranges output ≡ (
        ok tt,
        (output ++ response_head file_reads file_end http_date encode (planned response text))
            ++ text,
      ))
        × (HeaderMap.get (set_content_length response.headers (length text)) content_length
            ≡ some (HeaderValue.size (length text)))
  unfolding send_response lift write_all modify set_content_length header_name_eq
  send_response-body_text response body text output ranges has_body h = (
    >>=-ok _ _ (ap (λ r. (r, output)) (chosen response body text ranges has_body h))
        ∙ >>=-ok _ _ refl
        ∙ ap
            (λ b. write_body file_reads file_end http_date encode b full_transfer (
              output ++ response_head file_reads file_end http_date encode (planned response text)))
            has_body
        ∙ write_body-body_text body text _ h,
    get-append_or_override response.headers content_length content_length
        (HeaderValue.size (length text)),
  )
