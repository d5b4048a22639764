-- ===== src/Http/HeaderName/Parse.antt =====
-- `From<String>` for `HeaderName` in servente-http/src/header_name.rs, and `HeaderName::class`.
use servente.Common.{
  Bool, false, Option, none, some, List, [], ◌∷◌, Bytes, codes, ltb, if◌then◌else◌, length, take,
}
use servente.Common.Ascii.{to_ascii_lowercase, eq_ignore_ascii_case}
use servente.Http.HeaderName.Defs.{
  HeaderName, other, accept, accept_charset, accept_encoding, accept_language, accept_ranges,
  access_control_allow_credentials, access_control_allow_headers, access_control_allow_methods,
  access_control_allow_origin, access_control_expose_headers, access_control_max_age,
  access_control_request_headers, access_control_request_method, age, allow, alt_svc, authorization,
  cache_control, cache_status, close, connection, cookie, content_disposition, content_encoding,
  content_language, content_length, content_location, content_range, content_security_policy,
  content_security_policy_report_only, content_type, cross_origin_resource_policy, date, dnt,
  early_data, etag, expect, expect_ct, expires, forwarded, from, host, if_match, if_modified_since,
  if_none_match, if_range, if_unmodified_since, keep_alive, last_modified, link, location,
  max_forwards, proxy_status, origin, pragma, proxy_authenticate, proxy_authorization,
  proxy_connection, purpose, range, referer, referrer_policy, refresh, retry_after, sec_ch_ua,
  sec_ch_ua_mobile, sec_ch_ua_platform, sec_fetch_dest, sec_fetch_mode, sec_fetch_site,
  sec_fetch_user, sec_purpose, sec_web_socket_accept, sec_web_socket_extensions, sec_web_socket_key,
  sec_web_socket_protocol, sec_web_socket_version, server, server_timing, set_cookie, status,
  strict_transport_security, te, timing_allow_origin, trailer, transfer_encoding, upgrade,
  upgrade_insecure_requests, user_agent, vary, via, www_authenticate, x_content_type_options,
  x_forwared_for, x_frame_options, x_requested_with, x_xss_protection,
}

-- A map that compares its keys without regard to case, as the list of its entries.
unfoldable pub string_to_header_name_map : List (Bytes × HeaderName)
string_to_header_name_map =
    (codes "accept", accept)
    ∷ (codes "accept-charset", accept_charset)
    ∷ (codes "accept-encoding", accept_encoding)
    ∷ (codes "accept-language", accept_language)
    ∷ (codes "accept-ranges", accept_ranges)
    ∷ (codes "access-control-allow-credentials", access_control_allow_credentials)
    ∷ (codes "access-control-allow-headers", access_control_allow_headers)
    ∷ (codes "access-control-allow-methods", access_control_allow_methods)
    ∷ (codes "access-control-allow-origin", access_control_allow_origin)
    ∷ (codes "access-control-expose-headers", access_control_expose_headers)
    ∷ (codes "access-control-max-age", access_control_max_age)
    ∷ (codes "access-control-request-headers", access_control_request_headers)
    ∷ (codes "access-control-request-method", access_control_request_method)
    ∷ (codes "age", age)
    ∷ (codes "allow", allow)
    ∷ (codes "alt-svc", alt_svc)
    ∷ (codes "authorization", authorization)
    ∷ (codes "cache-control", cache_control)
    ∷ (codes "cache-status", cache_status)
    ∷ (codes "close", close)
    ∷ (codes "connection", connection)
    ∷ (codes "cookie", cookie)
    ∷ (codes "content-disposition", content_disposition)
    ∷ (codes "content-encoding", content_encoding)
    ∷ (codes "content-length", content_length)
    ∷ (codes "content-language", content_language)
    ∷ (codes "content-location", content_location)
    ∷ (codes "content-range", content_range)
    ∷ (codes "content-security-policy", content_security_policy)
    ∷ (codes "content-security-policy-report-only", content_security_policy_report_only)
    ∷ (codes "content-type", content_type)
    ∷ (codes "cross-origin-resource-policy", cross_origin_resource_policy)
    ∷ (codes "date", date)
    ∷ (codes "dnt", dnt)
    ∷ (codes "early-data", early_data)
    ∷ (codes "etag", etag)
    ∷ (codes "expect", expect)
    ∷ (codes "expect-ct", expect_ct)
    ∷ (codes "expires", expires)
    ∷ (codes "forwarded", forwarded)
    ∷ (codes "from", from)
    ∷ (codes "host", host)
    ∷ (codes "if-match", if_match)
    ∷ (codes "if-modified-since", if_modified_since)
    ∷ (codes "if-none-match", if_none_match)
    ∷ (codes "if-range", if_range)
    ∷ (codes "if-unmodified-since", if_unmodified_since)
    ∷ (codes "keep-alive", keep_alive)
    ∷ (codes "last-modified", last_modified)
    ∷ (codes "link", link)
    ∷ (codes "location", location)
    ∷ (codes "max-forwards", max_forwards)
    ∷ (codes "origin", origin)
    ∷ (codes "pragma", pragma)
    ∷ (codes "proxy-authenticate", proxy_authenticate)
    ∷ (codes "proxy-authorization", proxy_authorization)
    ∷ (codes "proxy-connection", proxy_connection)
    ∷ (codes "purpose", purpose)
    ∷ (codes "proxy-status", proxy_status)
    ∷ (codes "range", range)
    ∷ (codes "referer", referer)
    ∷ (codes "referrer-policy", referrer_policy)
    ∷ (codes "refresh", refresh)
    ∷ (codes "retry-after", retry_after)
    ∷ (codes "sec-ch-ua", sec_ch_ua)
    ∷ (codes "sec-ch-ua-mobile", sec_ch_ua_mobile)
    ∷ (codes "sec-ch-ua-platform", sec_ch_ua_platform)
    ∷ (codes "sec-fetch-dest", sec_fetch_dest)
    ∷ (codes "sec-fetch-mode", sec_fetch_mode)
    ∷ (codes "sec-fetch-site", sec_fetch_site)
    ∷ (codes "sec-fetch-user", sec_fetch_user)
    ∷ (codes "sec-purpose", sec_purpose)
    ∷ (codes "sec-websocket-accept", sec_web_socket_accept)
    ∷ (codes "sec-websocket-extensions", sec_web_socket_extensions)
    ∷ (codes "sec-websocket-key", sec_web_socket_key)
    ∷ (codes "sec-websocket-protocol", sec_web_socket_protocol)
    ∷ (codes "sec-websocket-version", sec_web_socket_version)
    ∷ (codes "server", server)
    ∷ (codes "server-timing", server_timing)
    ∷ (codes "set-cookie", set_cookie)
    ∷ (codes "status", status)
    ∷ (codes "strict-transport-security", strict_transport_security)
    ∷ (codes "te", te)
    ∷ (codes "timing-allow-origin", timing_allow_origin)
    ∷ (codes "trailer", trailer)
    ∷ (codes "transfer-encoding", transfer_encoding)
    ∷ (codes "upgrade", upgrade)
    ∷ (codes "upgrade-insecure-requests", upgrade_insecure_requests)
    ∷ (codes "user-agent", user_agent)
    ∷ (codes "vary", vary)
    ∷ (codes "via", via)
    ∷ (codes "www-authenticate", www_authenticate)
    ∷ (codes "x-content-type-options", x_content_type_options)
    ∷ (codes "x-forwarded-for", x_forwared_for)
    ∷ (codes "x-frame-options", x_frame_options)
    ∷ (codes "x-requested-with", x_requested_with)
    ∷ (codes "x-xss-protection", x_xss_protection)
    ∷ []

unfoldable pub find_ignore_case : Bytes → List (Bytes × HeaderName) → Option HeaderName
unfolding eq_ignore_ascii_case
find_ignore_case value [] = none
find_ignore_case value ((key, name) ∷ entries) =
    if eq_ignore_ascii_case key value then some name else find_ignore_case value entries

-- `HeaderName::from`, of a `String`.
unfoldable pub from_string : Bytes → HeaderName
unfolding find_ignore_case string_to_header_name_map to_ascii_lowercase
from_string value = elim (find_ignore_case value string_to_header_name_map) [
  | some header_name ↦ header_name
  | none ↦ other (to_ascii_lowercase value)
]

pub data HeaderNameClass : Type 0 where
  cgi_extension connection_specific other_class : HeaderNameClass

-- The slice is compared with the string it is taken from, as the source has it.
unfoldable pub is_cgi_extension_field : HeaderName → Bool
unfolding eq_ignore_ascii_case
is_cgi_extension_field (other str) =
    if ltb (length str) (length (codes "x-cgi-"))
    then false
    else eq_ignore_ascii_case (take (length (codes "x-cgi-")) str) str
is_cgi_extension_field _ = false

unfoldable pub class : HeaderName → HeaderNameClass
unfolding is_cgi_extension_field
class connection = connection_specific
class keep_alive = connection_specific
class te = connection_specific
class transfer_encoding = connection_specific
class upgrade = connection_specific
class (other str) = if is_cgi_extension_field (other str) then cgi_extension else other_class
class _ = other_class
