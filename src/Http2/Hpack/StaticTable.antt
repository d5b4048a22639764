-- ===== src/Http2/Hpack/StaticTable.antt =====
-- The static table of HPACK in servente-http2/src/hpack.rs.
use servente.Common.{List, [], ◌∷◌, Bytes, codes}
use servente.Http.HeaderName.{HeaderName}
use servente.Http.HeaderValue.{HeaderValue}
use servente.Http.Method.{Method}
use servente.Http.StatusCode.{StatusCode}

pub data StaticTableEntry : Type 0 where
  illegal authority : StaticTableEntry
  method : Method → StaticTableEntry
  path scheme : Bytes → StaticTableEntry
  status : StatusCode → StaticTableEntry
  header : HeaderName → StaticTableEntry
  header_with_value : HeaderName → HeaderValue → StaticTableEntry

unfoldable pub static_table : List StaticTableEntry
static_table =
    illegal
    ∷ authority
    ∷ method Method.get
    ∷ method Method.post
    ∷ path (codes "/")
    ∷ path (codes "/index.html")
    ∷ scheme (codes "http")
    ∷ scheme (codes "https")
    ∷ status StatusCode.ok
    ∷ status StatusCode.no_content
    ∷ status StatusCode.partial_content
    ∷ status StatusCode.not_modified
    ∷ status StatusCode.bad_request
    ∷ status StatusCode.not_found
    ∷ status StatusCode.internal_server_error
    ∷ header HeaderName.accept_charset
    ∷ header_with_value HeaderName.accept_encoding
        (HeaderValue.static_string (codes "gzip, deflate"))
    ∷ header HeaderName.accept_language
    ∷ header HeaderName.accept_ranges
    ∷ header HeaderName.accept
    ∷ header HeaderName.access_control_allow_origin
    ∷ header HeaderName.age
    ∷ header HeaderName.allow
    ∷ header HeaderName.authorization
    ∷ header HeaderName.cache_control
    ∷ header HeaderName.content_disposition
    ∷ header HeaderName.content_encoding
    ∷ header HeaderName.content_language
    ∷ header HeaderName.content_length
    ∷ header HeaderName.content_location
    ∷ header HeaderName.content_range
    ∷ header HeaderName.content_type
    ∷ header HeaderName.cookie
    ∷ header HeaderName.date
    ∷ header HeaderName.etag
    ∷ header HeaderName.expect
    ∷ header HeaderName.expires
    ∷ header HeaderName.from
    ∷ header HeaderName.host
    ∷ header HeaderName.if_match
    ∷ header HeaderName.if_modified_since
    ∷ header HeaderName.if_none_match
    ∷ header HeaderName.if_range
    ∷ header HeaderName.if_unmodified_since
    ∷ header HeaderName.last_modified
    ∷ header HeaderName.link
    ∷ header HeaderName.location
    ∷ header HeaderName.max_forwards
    ∷ header HeaderName.proxy_authenticate
    ∷ header HeaderName.proxy_authorization
    ∷ header HeaderName.range
    ∷ header HeaderName.referer
    ∷ header HeaderName.refresh
    ∷ header HeaderName.retry_after
    ∷ header HeaderName.server
    ∷ header HeaderName.set_cookie
    ∷ header HeaderName.strict_transport_security
    ∷ header HeaderName.transfer_encoding
    ∷ header HeaderName.user_agent
    ∷ header HeaderName.vary
    ∷ header HeaderName.via
    ∷ header HeaderName.www_authenticate
    ∷ []
