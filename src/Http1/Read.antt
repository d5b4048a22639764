-- ===== src/Http1/Read.antt =====
-- The reading of a request, servente-http1/src/read.rs.
pub mod Headers
pub mod Line
pub mod Whole
pub mod Body
use servente.Common.{
  ℕ, zero, suc, ◌+◌, ◌-◌, ◌*◌, ◌^◌, ◌==◌, leb, Bool, true, false, not, ◌&&◌, ◌||◌, Option, none,
  some, List, [], ◌∷◌, ◌++◌, Bytes, codes, bytes_eq, length, flatten, get_or, if◌then◌else◌,
}
use servente.Common.Exec.{Exec, ◌>>=◌, ◌>>◌, return, raise, with_state}
use servente.Common.Result.{Result, ok, err}
use servente.Common.Trim.{trim}
use servente.Common.Utf8.{from_utf8}
use servente.Http.Error.{
  HttpParseError, Error, parse_error, other, panic, header_does_not_contain_colon, invalid_crlf,
  invalid_content_length, invalid_http_version, invalid_request_target, method_too_large,
  request_target_too_large, invalid_octet_in_method, invalid_octet_in_request_target,
  header_map_insertion_error,
}
use servente.Http.HeaderMap
use servente.Http.HeaderMap.{HeaderMap}
use servente.Http.HeaderName
use servente.Http.HeaderName.{content_length, content_type, transfer_encoding}
use servente.Http.HeaderValue
use servente.Http.HeaderValue.{HeaderValue, parse_number, as_str_no_convert}
use servente.Http.Method
use servente.Http.Method.{Method}
use servente.Http.Request.{
  Request, BodyKind, bytes, string, HttpVersion, http09, http10, http11, http2, http3,
}
use servente.Http.RequestTarget
use servente.Http.RequestTarget.{RequestTarget, split_once, starts_with}
use servente.Http.Syntax.{
  validate_token, validate_field_content, is_token_character, is_request_target_character,
}
use servente.Http1.Stream.{
  Stream, Reader, read_exact, lift, consume_exact_verify, read_crlf_line,
  read_string_until_character,
}

-- `MaximumLength::METHOD`, `REQUEST_TARGET` and `HEADER` of servente-http1/src/lib.rs.
abbrev pub maximum_method : ℕ
maximum_method = 16

abbrev pub maximum_request_target : ℕ
maximum_request_target = 1024

abbrev pub maximum_header : ℕ
maximum_header = 4096

unfoldable pub crlf_byte : ℕ → ℕ → Result HttpParseError (Unit {0})
crlf_byte index byte =
    if (index == 0 && not (byte == 0x0d)) || (index == 1 && not (byte == 0x0a))
    then err invalid_crlf
    else ok tt

unfoldable pub consume_crlf : Reader (Unit {0})
unfolding consume_exact_verify crlf_byte
consume_crlf = consume_exact_verify 2 crlf_byte >>= λ buffer. return tt

unfoldable pub version_byte : ℕ → ℕ → Result HttpParseError (Unit {0})
version_byte index byte =
    if get_or (codes "HTTP/") index 0 == byte then ok tt else err invalid_http_version

-- The `match` on the three bytes of the number.
unfoldable pub version_of : Bytes → Reader HttpVersion
version_of version_buffer =
    if bytes_eq version_buffer (codes "1.0")
    then return http10
    else if bytes_eq version_buffer (codes "1.1")
    then return http11
    else if bytes_eq version_buffer (codes "2.0")
    then return http2
    else raise (parse_error invalid_http_version)

unfoldable pub read_http_version : Reader HttpVersion
unfolding consume_exact_verify version_byte read_exact version_of
read_http_version = do
  name ← consume_exact_verify 5 version_byte
  version_buffer ← read_exact 3
  version_of version_buffer

unfoldable pub target_byte : ℕ → Result HttpParseError (Unit {0})
unfolding is_request_target_character
target_byte b = if is_request_target_character b then ok tt else err invalid_octet_in_request_target

unfoldable pub parse_target : Bytes → Reader RequestTarget
unfolding RequestTarget.parse
parse_target str = elim (RequestTarget.parse str) [
  | some target ↦ return target
  | none ↦ raise (parse_error invalid_request_target)
]

unfoldable pub read_request_target : Reader RequestTarget
unfolding read_string_until_character target_byte parse_target
read_request_target = do
  str ← read_string_until_character b' ' maximum_request_target request_target_too_large target_byte
  parse_target str

unfoldable pub method_byte : ℕ → Result HttpParseError (Unit {0})
unfolding is_token_character
method_byte b = if is_token_character b then ok tt else err invalid_octet_in_method

unfoldable pub read_request_line : Reader (Method × RequestTarget × HttpVersion)
unfolding read_string_until_character method_byte read_request_target read_http_version consume_crlf
    Method.from_string
read_request_line = do
  method ← read_string_until_character b' ' maximum_method method_too_large method_byte
  target ← read_request_target
  version ← read_http_version
  consume_crlf
  return (Method.from_string method, target, version)

-- `String::from_utf8`, whose error gives the bytes back.
unfoldable pub text_or_bytes : Bytes → BodyKind
unfolding from_utf8
text_or_bytes body = elim (from_utf8 body) [ some text ↦ string text | none ↦ bytes body ]

-- The body by the text of Content-Type, of which a value has to have one.
unfoldable pub body_of_text : Option Bytes → Bytes → Reader BodyKind
unfolding starts_with text_or_bytes
body_of_text none body = raise panic
body_of_text (some text) body =
    return (if starts_with text (codes "text/") then text_or_bytes body else bytes body)

unfoldable pub body_of_type : Option HeaderValue → Bytes → Reader BodyKind
unfolding as_str_no_convert body_of_text
body_of_type none body = return (bytes body)
body_of_type (some value) body = body_of_text (as_str_no_convert value) body

-- A capacity that is more than an `isize` panics. The vector has a capacity and no elements, so the
-- slice that is read is empty.
unfoldable pub body_of_length : Option HeaderValue → Option ℕ → Reader BodyKind
unfolding body_of_type read_exact
body_of_length media_type none = raise (parse_error invalid_content_length)
body_of_length media_type (some capacity) =
    if leb (2 ^ 63) capacity then raise panic else read_exact 0 >>= body_of_type media_type

unfoldable pub read_request_body_content_length : Request → HeaderValue → Reader BodyKind
unfolding parse_number HeaderMap.get body_of_length
read_request_body_content_length request value =
    body_of_length (HeaderMap.get request.headers content_type) (parse_number value)

unfoldable pub read_request_body_chunked : Reader BodyKind
read_request_body_chunked = raise other

-- By the values of Content-Length and of Transfer-Encoding.
unfoldable pub read_request_body_by :
    Request → Option HeaderValue → Option HeaderValue → Reader Request
unfolding read_request_body_content_length read_request_body_chunked
read_request_body_by request (some value) encoding = do
  body ← read_request_body_content_length request value
  return (record request { body = some body })
read_request_body_by request none (some encoding) = do
  body ← read_request_body_chunked
  return (record request { body = some body })
read_request_body_by request none none = return request

unfoldable pub read_request_body : Request → Reader Request
unfolding HeaderMap.get read_request_body_by
read_request_body request =
    read_request_body_by request (HeaderMap.get request.headers content_length)
      (HeaderMap.get request.headers transfer_encoding)

-- The text of a date is httpdate's.
module _ (http_date : ℕ → Bytes) where
  -- A line that is not empty.
  unfoldable pub append_line : HeaderMap → Option (Bytes × Bytes) → Reader HeaderMap
  append_line header_map none = raise (parse_error header_does_not_contain_colon)
  append_line header_map (some (name, value)) = do
    lift (validate_token (trim name))
    lift (validate_field_content (trim value))
    elim (HeaderMap.append http_date header_map (HeaderName.from_string (trim name))
        (HeaderValue.string (trim value))) [
          | ok m ↦ return m
          | err e ↦ raise (parse_error (header_map_insertion_error e))
        ]

  -- The `loop` of `read_headers`. Each line that goes on reads a byte.
  unfoldable pub headers_loop : ℕ → HeaderMap → Reader HeaderMap
  headers_loop zero header_map = raise panic
  headers_loop (suc fuel) header_map = do
    line ← read_crlf_line maximum_header
    if length line == 0
        then return header_map
        else (do m ← append_line header_map (split_once line b':'); headers_loop fuel m)

  unfoldable pub read_headers : Reader HeaderMap
  unfolding headers_loop
  read_headers = with_state (λ pieces. headers_loop (length (flatten pieces) + 1) HeaderMap.empty)

  -- HTTP/2 has no fields behind the request line.
  unfoldable pub headers_of : HttpVersion → Reader HeaderMap
  headers_of http2 = return HeaderMap.empty
  headers_of http09 = read_headers
  headers_of http10 = read_headers
  headers_of http11 = read_headers
  headers_of http3 = read_headers

  unfoldable pub read_request_excluding_body : Reader Request
  read_request_excluding_body = do
    (method, target, version) ← read_request_line
    headers ← headers_of version
    return (record {
      method = method;
      target = target;
      version = version;
      headers = headers;
      body = none;
    })
