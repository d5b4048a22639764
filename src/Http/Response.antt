-- ===== src/Http/Response.antt =====
-- `Response` of servente-http/src/response.rs. The list `prelude_response` is left out: no code
-- puts a response into it.
use servente.Common.{Option, none, some, Bytes}
use servente.Http.HeaderMap
use servente.Http.HeaderMap.{HeaderMap, append_or_override}
use servente.Http.HeaderName.{content_type}
use servente.Http.HeaderValue.{HeaderValue}
use servente.Http.MediaType.{plain_text}
use servente.Http.Request.{HttpVersion, http11, BodyKind, static_string}
use servente.Http.StatusCode.{StatusCode, bad_request, forbidden, not_found}

pub record Response : Type 0 where
  pub version : HttpVersion
  pub status : StatusCode
  pub headers : HeaderMap
  pub body : Option BodyKind

unfoldable pub with_status : StatusCode → Response
with_status status = record {
  version = http11;
  status = status;
  headers = HeaderMap.empty;
  body = none;
}

unfoldable pub with_status_and_string_body : StatusCode → BodyKind → Response
unfolding append_or_override
with_status_and_string_body status body = record {
  version = http11;
  status = status;
  headers = append_or_override HeaderMap.empty content_type (HeaderValue.media_type plain_text);
  body = some body;
}

unfoldable pub bad_request_response : Bytes → Response
unfolding with_status
bad_request_response message = record (with_status bad_request) {
  body = some (static_string message);
}

unfoldable pub forbidden_response : Bytes → Response
unfolding with_status
forbidden_response message = record (with_status forbidden) { body = some (static_string message) }

unfoldable pub not_found_response : Bytes → Response
unfolding with_status
not_found_response message = record (with_status not_found) { body = some (static_string message) }
