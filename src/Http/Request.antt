-- ===== src/Http/Request.antt =====
-- `Request` of servente-http/src/request.rs, with `HttpVersion` of servente-http/src/version.rs and
-- `BodyKind` of servente-http/src/lib.rs.
use servente.Common.{ℕ, Option, Bytes, codes}
use servente.Http.HeaderMap.{HeaderMap}
use servente.Http.HeaderValue.{ContentCoding}
use servente.Http.Method.{Method}
use servente.Http.RequestTarget.{RequestTarget}

pub data HttpVersion : Type 0 where
  http09 http10 http11 http2 http3 : HttpVersion

unfoldable pub to_http_version : HttpVersion → Bytes
to_http_version http09 = codes "HTTP/0.9"
to_http_version http10 = codes "HTTP/1.0"
to_http_version http11 = codes "HTTP/1.1"
to_http_version http2 = codes "HTTP/2.0"
to_http_version http3 = codes "HTTP/3.0"

-- The cached versions are their three texts, and a file is the number of its descriptor and the length
-- that its metadata give.
pub data BodyKind : Type 0 where
  bytes : Bytes → BodyKind
  cached_bytes : Bytes → Option Bytes → Option Bytes → Option ContentCoding → BodyKind
  file : ℕ → ℕ → BodyKind
  static_string string : Bytes → BodyKind

pub record Request : Type 0 where
  pub method : Method
  pub target : RequestTarget
  pub version : HttpVersion
  pub headers : HeaderMap
  pub body : Option BodyKind
