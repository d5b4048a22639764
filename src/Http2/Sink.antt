-- ===== src/Http2/Sink.antt =====
-- `HpackDecodeSink` of servente-http2/src/hpack.rs and its two implementations: what becomes of a
-- decoded field. A call that fails leaves the sink as it was.
use servente.Common.{ℕ, Bool, true, false, not, ◌&&◌, Option, none, some, Bytes, if◌then◌else◌}
use servente.Common.Result.{Result, ok, err, ◌>>=◌, ◌>>◌, fail_if, ok_or, map_err}
use servente.Http.HeaderName.{HeaderName}
use servente.Http.HeaderValue.{HeaderValue}
use servente.Http.HeaderMap
use servente.Http.HeaderMap.{HeaderMap}
use servente.Http.Method.{Method}
use servente.Http.Request.{Request, http2}
use servente.Http.RequestTarget
use servente.Http2.Errors.{
  DecompressionError, header_map_insertion_error, pseudo_after_regular_fields, duplicate_authority,
  duplicate_method, duplicate_path, duplicate_scheme, pseudo_in_trailer_section, no_path, no_method,
  no_scheme, invalid_request_target,
}

pub record HpackDecodeSink (S : Type 0) : Type 0 where
  pub add_header : S → HeaderName → HeaderValue → Result DecompressionError S
  pub set_authority : S → Bytes → Result DecompressionError S
  pub set_method : S → Method → Result DecompressionError S
  pub set_path : S → Bytes → Result DecompressionError S
  pub set_scheme : S → Bytes → Result DecompressionError S

pub record HpackDecodeSinkHeaders : Type 0 where
  pub path : Option Bytes
  pub method : Option Method
  pub scheme : Option Bytes
  pub authority : Option Bytes
  pub headers : HeaderMap

abbrev pub default : HpackDecodeSinkHeaders
default = record {
  path = none;
  method = none;
  scheme = none;
  authority = none;
  headers = HeaderMap.empty;
}

abbrev pub is_some {ℓ} : {A : Type ℓ} → Option A → Bool
is_some (some a) = true
is_some none = false

abbrev pub regular_fields : HpackDecodeSinkHeaders → Bool
regular_fields s = if HeaderMap.is_empty s.headers then false else true

unfoldable pub set_authority :
    HpackDecodeSinkHeaders → Bytes → Result DecompressionError HpackDecodeSinkHeaders
unfolding HeaderMap.is_empty
set_authority s authority = do
  fail_if (regular_fields s) pseudo_after_regular_fields
  fail_if (is_some s.authority) duplicate_authority
  ok (record s { authority = some authority })

unfoldable pub set_method :
    HpackDecodeSinkHeaders → Method → Result DecompressionError HpackDecodeSinkHeaders
unfolding HeaderMap.is_empty
set_method s method = do
  fail_if (regular_fields s) pseudo_after_regular_fields
  fail_if (is_some s.method) duplicate_method
  ok (record s { method = some method })

unfoldable pub set_path :
    HpackDecodeSinkHeaders → Bytes → Result DecompressionError HpackDecodeSinkHeaders
unfolding HeaderMap.is_empty
set_path s path = do
  fail_if (regular_fields s) pseudo_after_regular_fields
  fail_if (is_some s.path) duplicate_path
  ok (record s { path = some path })

unfoldable pub set_scheme :
    HpackDecodeSinkHeaders → Bytes → Result DecompressionError HpackDecodeSinkHeaders
unfolding HeaderMap.is_empty
set_scheme s scheme = do
  fail_if (regular_fields s) pseudo_after_regular_fields
  fail_if (is_some s.scheme) duplicate_scheme
  ok (record s { scheme = some scheme })

-- `method != Method::Connect`
abbrev pub is_connect : Method → Bool
is_connect Method.connect = true
is_connect m = false

-- `let Some(path) = sink.path else ...` of `decode_hpack_header_section`, and the lines behind it.
unfoldable pub into_request : HpackDecodeSinkHeaders → Result DecompressionError Request
unfolding RequestTarget.parse
into_request s = do
  path ← ok_or s.path no_path
  method ← ok_or s.method no_method
  fail_if (not (is_some s.scheme) && not (is_connect method)) no_scheme
  target ← ok_or (RequestTarget.parse path) invalid_request_target
  ok (record {
    method = method;
    target = target;
    version = http2;
    headers = s.headers;
    body = none;
  })

module _ (http_date : ℕ → Bytes) where
  unfoldable pub add_header :
      HpackDecodeSinkHeaders
      → HeaderName
      → HeaderValue
      → Result DecompressionError HpackDecodeSinkHeaders
  unfolding HeaderMap.append
  add_header s name value = do
    headers ← map_err header_map_insertion_error (HeaderMap.append http_date s.headers name value)
    ok (record s { headers = headers })

  unfoldable pub add_trailer :
      Request → HeaderName → HeaderValue → Result DecompressionError Request
  unfolding HeaderMap.append
  add_trailer request name value = do
    headers ←
        map_err header_map_insertion_error (HeaderMap.append http_date request.headers name value)
    ok (record request { headers = headers })

  unfoldable pub headers_sink : HpackDecodeSink HpackDecodeSinkHeaders
  unfolding add_header set_authority set_method set_path set_scheme
  headers_sink = record {
    add_header = add_header;
    set_authority = set_authority;
    set_method = set_method;
    set_path = set_path;
    set_scheme = set_scheme;
  }

  -- `HpackDecodeSinkTrailers`, whose state is the request itself.
  unfoldable pub trailers_sink : HpackDecodeSink Request
  unfolding add_trailer
  trailers_sink = record {
    add_header = add_trailer;
    set_authority = λ request s. err pseudo_in_trailer_section;
    set_method = λ request m. err pseudo_in_trailer_section;
    set_path = λ request s. err pseudo_in_trailer_section;
    set_scheme = λ request s. err pseudo_in_trailer_section;
  }
