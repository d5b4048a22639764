-- ===== src/Http/StatusCode.antt =====
-- Status codes, servente-http/src/status.rs.
use servente.Common.{ℕ, ◌≤◌, ◌<◌, Bytes, codes, ltb, if◌then◌else◌, arith}

pub data StatusCode : Type 0 where
  continue switching_protocols processing early_hints ok created accepted : StatusCode
  non_authoritative_information no_content reset_content partial_content : StatusCode
  multi_status already_reported im_used multiple_choices moved_permanently : StatusCode
  found see_other not_modified use_proxy temporary_redirect : StatusCode
  permanent_redirect bad_request unauthorized payment_required forbidden : StatusCode
  not_found method_not_allowed not_acceptable proxy_authentication_required : StatusCode
  request_timeout conflict gone length_required precondition_failed : StatusCode
  content_too_large uri_too_long unsupported_media_type : StatusCode
  range_not_satisfiable expectation_failed im_a_teapot misdirected_request : StatusCode
  unprocessable_content locked failed_dependency too_early upgrade_required : StatusCode
  precondition_required too_many_requests request_header_fields_too_large : StatusCode
  unavailable_for_legal_reasons internal_server_error not_implemented : StatusCode
  bad_gateway service_unavailable gateway_timeout http_version_not_supported : StatusCode
  variant_also_negotiates insufficient_storage loop_detected not_extended : StatusCode
  network_authentication_required : StatusCode

-- The discriminant of the `repr(u16)`, `status as u16`.
unfoldable pub discriminant : StatusCode → ℕ
discriminant continue = 100
discriminant switching_protocols = 101
discriminant processing = 102
discriminant early_hints = 103
discriminant ok = 200
discriminant created = 201
discriminant accepted = 202
discriminant non_authoritative_information = 203
discriminant no_content = 204
discriminant reset_content = 205
discriminant partial_content = 206
discriminant multi_status = 207
discriminant already_reported = 208
discriminant im_used = 226
discriminant multiple_choices = 300
discriminant moved_permanently = 301
discriminant found = 302
discriminant see_other = 303
discriminant not_modified = 304
discriminant use_proxy = 305
discriminant temporary_redirect = 307
discriminant permanent_redirect = 308
discriminant bad_request = 400
discriminant unauthorized = 401
discriminant payment_required = 402
discriminant forbidden = 403
discriminant not_found = 404
discriminant method_not_allowed = 405
discriminant not_acceptable = 406
discriminant proxy_authentication_required = 407
discriminant request_timeout = 408
discriminant conflict = 409
discriminant gone = 410
discriminant length_required = 411
discriminant precondition_failed = 412
discriminant content_too_large = 413
discriminant uri_too_long = 414
discriminant unsupported_media_type = 415
discriminant range_not_satisfiable = 416
discriminant expectation_failed = 417
discriminant im_a_teapot = 418
discriminant misdirected_request = 421
discriminant unprocessable_content = 422
discriminant locked = 423
discriminant failed_dependency = 424
discriminant too_early = 425
discriminant upgrade_required = 426
discriminant precondition_required = 428
discriminant too_many_requests = 429
discriminant request_header_fields_too_large = 431
discriminant unavailable_for_legal_reasons = 451
discriminant internal_server_error = 500
discriminant not_implemented = 501
discriminant bad_gateway = 502
discriminant service_unavailable = 503
discriminant gateway_timeout = 504
discriminant http_version_not_supported = 505
discriminant variant_also_negotiates = 506
discriminant insufficient_storage = 507
discriminant loop_detected = 508
discriminant not_extended = 510
discriminant network_authentication_required = 511

pub data StatusCodeClass : Type 0 where
  informational success redirection client_error server_error : StatusCodeClass

-- The ranges of `class`; every discriminant is below 600.
unfoldable pub class : StatusCode → StatusCodeClass
unfolding discriminant
class status =
    let code = discriminant status in
    if ltb code 200
    then informational
    else if ltb code 300
    then success
    else if ltb code 400
    then redirection
    else if ltb code 500
    then client_error
    else server_error

unfoldable pub to_string : StatusCode → Bytes
to_string continue = codes "100 Continue"
to_string switching_protocols = codes "101 Switching Protocols"
to_string processing = codes "102 Processing"
to_string early_hints = codes "103 Early Hints"
to_string ok = codes "200 OK"
to_string created = codes "201 Created"
to_string accepted = codes "202 Accepted"
to_string non_authoritative_information = codes "203 Non-Authoritative Information"
to_string no_content = codes "204 No Content"
to_string reset_content = codes "205 Reset Content"
to_string partial_content = codes "206 Partial Content"
to_string multi_status = codes "207 Multi-Status"
to_string already_reported = codes "208 Already Reported"
to_string im_used = codes "226 IM Used"
to_string multiple_choices = codes "300 Multiple Choices"
to_string moved_permanently = codes "301 Moved Permanently"
to_string found = codes "302 Found"
to_string see_other = codes "303 See Other"
to_string not_modified = codes "304 Not Modified"
to_string use_proxy = codes "305 Use Proxy"
to_string temporary_redirect = codes "307 Temporary Redirect"
to_string permanent_redirect = codes "308 Permanent Redirect"
to_string bad_request = codes "400 Bad Request"
to_string unauthorized = codes "401 Unauthorized"
to_string payment_required = codes "402 Payment Required"
to_string forbidden = codes "403 Forbidden"
to_string not_found = codes "404 Not Found"
to_string method_not_allowed = codes "405 Method Not Allowed"
to_string not_acceptable = codes "406 Not Acceptable"
to_string proxy_authentication_required = codes "407 Proxy Authentication Required"
to_string request_timeout = codes "408 Request Timeout"
to_string conflict = codes "409 Conflict"
to_string gone = codes "410 Gone"
to_string length_required = codes "411 Length Required"
to_string precondition_failed = codes "412 Precondition Failed"
to_string content_too_large = codes "413 Payload Too Large"
to_string uri_too_long = codes "414 URI Too Long"
to_string unsupported_media_type = codes "415 Unsupported Media Type"
to_string range_not_satisfiable = codes "416 Range Not Satisfiable"
to_string expectation_failed = codes "417 Expectation Failed"
to_string im_a_teapot = codes "418 I'm a teapot"
to_string misdirected_request = codes "421 Misdirected Request"
to_string unprocessable_content = codes "422 Unprocessable Entity"
to_string locked = codes "423 Locked"
to_string failed_dependency = codes "424 Failed Dependency"
to_string too_early = codes "425 Too Early"
to_string upgrade_required = codes "426 Upgrade Required"
to_string precondition_required = codes "428 Precondition Required"
to_string too_many_requests = codes "429 Too Many Requests"
to_string request_header_fields_too_large = codes "431 Request Header Fields Too Large"
to_string unavailable_for_legal_reasons = codes "451 Unavailable For Legal Reasons"
to_string internal_server_error = codes "500 Internal Server Error"
to_string not_implemented = codes "501 Not Implemented"
to_string bad_gateway = codes "502 Bad Gateway"
to_string service_unavailable = codes "503 Service Unavailable"
to_string gateway_timeout = codes "504 Gateway Timeout"
to_string http_version_not_supported = codes "505 HTTP Version Not Supported"
to_string variant_also_negotiates = codes "506 Variant Also Negotiates"
to_string insufficient_storage = codes "507 Insufficient Storage"
to_string loop_detected = codes "508 Loop Detected"
to_string not_extended = codes "510 Not Extended"
to_string network_authentication_required = codes "511 Network Authentication Required"

-- The discriminant of every status code has three digits.
pub discriminant_bounds : (s : StatusCode) → (100 ≤ discriminant s) × (discriminant s < 600)
unfolding discriminant
discriminant_bounds continue = omega arith
discriminant_bounds _ = omega arith
