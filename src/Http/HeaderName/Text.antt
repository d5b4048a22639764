-- ===== src/Http/HeaderName/Text.antt =====
-- The texts of the names in servente-http/src/header_name.rs: as HTTP/1 writes them, and in lowercase.
use servente.Common.{Bytes, codes}
use servente.Common.Ascii.{to_ascii_lowercase}
use servente.Http.HeaderName.Defs.{
  HeaderName, other, accept, accept_charset, accept_encoding, accept_language, accept_ranges,
  access_control_allow_credentials, access_control_allow_headers, access_control_allow_methods,
  access_control_allow_origin, access_control_expose_headers, access_control_max_age,
  access_control_request_headers, access_control_request_method, age, allow, alt_svc, authorization,
  cache_control, cache_status, close, connection, cookie, content_disposition, content_encoding,
  content_language, content_length, content_location, content_range, content_security_policy,
  content_security_policy_report_only, content_type, cross_origin_resource_policy, date, dnt,
  early_data, etag, expect, expect_ct, expires, forwarded, from, host, if_match, if_modified_since,
  if_none_match, if_range, if_unmodified_since, keep_alive, last_modified, link, location,
  max_forwards, proxy_status, origin, pragma, proxy_authenticate, proxy_authorization,
  proxy_connection, purpose, range, referer, referrer_policy, refresh, retry_after, sec_ch_ua,
  sec_ch_ua_mobile, sec_ch_ua_platform, sec_fetch_dest, sec_fetch_mode, sec_fetch_site,
  sec_fetch_user, sec_purpose, sec_web_socket_accept, sec_web_socket_extensions, sec_web_socket_key,
  sec_web_socket_protocol, sec_web_socket_version, server, server_timing, set_cookie, status,
  strict_transport_security, te, timing_allow_origin, trailer, transfer_encoding, upgrade,
  upgrade_insecure_requests, user_agent, vary, via, www_authenticate, x_content_type_options,
  x_forwared_for, x_frame_options, x_requested_with, x_xss_protection,
}

unfoldable pub to_string_h1 : HeaderName → Bytes
to_string_h1 (other str) = str
to_string_h1 accept = codes "Accept"
to_string_h1 accept_charset = codes "Accept-Charset"
to_string_h1 accept_encoding = codes "Accept-Encoding"
to_string_h1 accept_language = codes "Accept-Language"
to_string_h1 accept_ranges = codes "Accept-Ranges"
to_string_h1 access_control_allow_credentials = codes "Access-Control-Allow-Credentials"
to_string_h1 access_control_allow_headers = codes "Access-Control-Allow-Headers"
to_string_h1 access_control_allow_methods = codes "Access-Control-Allow-Methods"
to_string_h1 access_control_allow_origin = codes "Access-Control-Allow-Origin"
to_string_h1 access_control_expose_headers = codes "Access-Control-Expose-Headers"
to_string_h1 access_control_max_age = codes "Access-Control-Max-Age"
to_string_h1 access_control_request_headers = codes "Access-Control-Request-Headers"
to_string_h1 access_control_request_method = codes "Access-Control-Request-Method"
to_string_h1 age = codes "Age"
to_string_h1 allow = codes "Allow"
to_string_h1 alt_svc = codes "Alt-Svc"
to_string_h1 authorization = codes "Authorization"
to_string_h1 cache_control = codes "Cache-Control"
to_string_h1 cache_status = codes "Cache-Status"
to_string_h1 close = codes "Close"
to_string_h1 connection = codes "Connection"
to_string_h1 cookie = codes "Cookie"
to_string_h1 content_disposition = codes "Content-Disposition"
to_string_h1 content_encoding = codes "Content-Encoding"
to_string_h1 content_language = codes "Content-Language"
to_string_h1 content_length = codes "Content-Length"
to_string_h1 content_location = codes "Content-Location"
to_string_h1 content_range = codes "Content-Range"
to_string_h1 content_security_policy = codes "Content-Security-Policy"
to_string_h1 content_security_policy_report_only = codes "Content-Security-Policy-Report-Only"
to_string_h1 content_type = codes "Content-Type"
to_string_h1 cross_origin_resource_policy = codes "Cross-Origin-Resource-Policy"
to_string_h1 date = codes "Date"
to_string_h1 dnt = codes "DNT"
to_string_h1 early_data = codes "Early-Data"
to_string_h1 etag = codes "ETag"
to_string_h1 expect = codes "Expect"
to_string_h1 expect_ct = codes "Expect-CT"
to_string_h1 expires = codes "Expires"
to_string_h1 forwarded = codes "Forwarded"
to_string_h1 from = codes "From"
to_string_h1 host = codes "Host"
to_string_h1 if_match = codes "If-Match"
to_string_h1 if_modified_since = codes "If-Modified-Since"
to_string_h1 if_none_match = codes "If-None-Match"
to_string_h1 if_range = codes "If-Range"
to_string_h1 if_unmodified_since = codes "If-Unmodified-Since"
to_string_h1 keep_alive = codes "Keep-Alive"
to_string_h1 last_modified = codes "Last-Modified"
to_string_h1 link = codes "Link"
to_string_h1 location = codes "Location"
to_string_h1 max_forwards = codes "Max-Forwards"
to_string_h1 origin = codes "Origin"
to_string_h1 pragma = codes "Pragma"
to_string_h1 proxy_authenticate = codes "Proxy-Authenticate"
to_string_h1 proxy_authorization = codes "Proxy-Authorization"
to_string_h1 proxy_connection = codes "Proxy-Connection"
to_string_h1 proxy_status = codes "Proxy-Status"
to_string_h1 purpose = codes "Purpose"
to_string_h1 range = codes "Range"
to_string_h1 referer = codes "Referer"
to_string_h1 referrer_policy = codes "Referrer-Policy"
to_string_h1 refresh = codes "Refresh"
to_string_h1 retry_after = codes "Retry-After"
to_string_h1 sec_ch_ua = codes "Sec-Ch-Ua"
to_string_h1 sec_ch_ua_mobile = codes "Sec-Ch-Ua-Mobile"
to_string_h1 sec_ch_ua_platform = codes "Sec-Ch-Ua-Platform"
to_string_h1 sec_fetch_dest = codes "Sec-Fetch-Dest"
to_string_h1 sec_fetch_mode = codes "Sec-Fetch-Mode"
to_string_h1 sec_fetch_site = codes "Sec-Fetch-Site"
to_string_h1 sec_fetch_user = codes "Sec-Fetch-User"
to_string_h1 sec_purpose = codes "Sec-Purpose"
to_string_h1 sec_web_socket_accept = codes "Sec-WebSocket-Accept"
to_string_h1 sec_web_socket_extensions = codes "Sec-WebSocket-Extensions"
to_string_h1 sec_web_socket_key = codes "Sec-WebSocket-Key"
to_string_h1 sec_web_socket_protocol = codes "Sec-WebSocket-Protocol"
to_string_h1 sec_web_socket_version = codes "Sec-WebSocket-Version"
to_string_h1 server = codes "Server"
to_string_h1 server_timing = codes "Server-Timing"
to_string_h1 set_cookie = codes "Set-Cookie"
to_string_h1 status = codes "Status"
to_string_h1 strict_transport_security = codes "Strict-Transport-Security"
to_string_h1 te = codes "TE"
to_string_h1 timing_allow_origin = codes "Timing-Allow-Origin"
to_string_h1 trailer = codes "Trailer"
to_string_h1 transfer_encoding = codes "Transfer-Encoding"
to_string_h1 upgrade = codes "Upgrade"
to_string_h1 upgrade_insecure_requests = codes "Upgrade-Insecure-Requests"
to_string_h1 user_agent = codes "User-Agent"
to_string_h1 vary = codes "Vary"
to_string_h1 via = codes "Via"
to_string_h1 www_authenticate = codes "WWW-Authenticate"
to_string_h1 x_content_type_options = codes "X-Content-Type-Options"
to_string_h1 x_forwared_for = codes "X-Forwarded-For"
to_string_h1 x_frame_options = codes "X-Frame-Options"
to_string_h1 x_requested_with = codes "X-Requested-With"
to_string_h1 x_xss_protection = codes "X-XSS-Protection"

unfoldable pub to_string_lowercase : HeaderName → Bytes
unfolding to_ascii_lowercase
to_string_lowercase (other str) = to_ascii_lowercase str
to_string_lowercase accept = codes "accept"
to_string_lowercase accept_charset = codes "accept-charset"
to_string_lowercase accept_encoding = codes "accept-encoding"
to_string_lowercase accept_language = codes "accept-language"
to_string_lowercase accept_ranges = codes "accept-ranges"
to_string_lowercase access_control_allow_credentials = codes "access-control-allow-credentials"
to_string_lowercase access_control_allow_headers = codes "access-control-allow-headers"
to_string_lowercase access_control_allow_methods = codes "access-control-allow-methods"
to_string_lowercase access_control_allow_origin = codes "access-control-allow-origin"
to_string_lowercase access_control_expose_headers = codes "access-control-expose-headers"
to_string_lowercase access_control_max_age = codes "access-control-max-age"
to_string_lowercase access_control_request_headers = codes "access-control-request-headers"
to_string_lowercase access_control_request_method = codes "access-control-request-method"
to_string_lowercase age = codes "age"
to_string_lowercase allow = codes "allow"
to_string_lowercase alt_svc = codes "alt-svc"
to_string_lowercase authorization = codes "authorization"
to_string_lowercase cache_control = codes "cache-control"
to_string_lowercase cache_status = codes "cache-status"
to_string_lowercase close = codes "close"
to_string_lowercase connection = codes "connection"
to_string_lowercase cookie = codes "cookie"
to_string_lowercase content_disposition = codes "content-disposition"
to_string_lowercase content_encoding = codes "content-encoding"
to_string_lowercase content_language = codes "content-language"
to_string_lowercase content_length = codes "content-length"
to_string_lowercase content_location = codes "content-location"
to_string_lowercase content_range = codes "content-range"
to_string_lowercase content_security_policy = codes "content-security-policy"
to_string_lowercase content_security_policy_report_only =
    codes "content-security-policy-report-only"
to_string_lowercase content_type = codes "content-type"
to_string_lowercase cross_origin_resource_policy = codes "cross-origin-resource-policy"
to_string_lowercase date = codes "date"
to_string_lowercase dnt = codes "dnt"
to_string_lowercase early_data = codes "early-data"
to_string_lowercase etag = codes "etag"
to_string_lowercase expect = codes "expect"
to_string_lowercase expect_ct = codes "expect-ct"
to_string_lowercase expires = codes "expires"
to_string_lowercase forwarded = codes "forwarded"
to_string_lowercase from = codes "from"
to_string_lowercase host = codes "host"
to_string_lowercase if_match = codes "if-match"
to_string_lowercase if_modified_since = codes "if-modified-since"
to_string_lowercase if_none_match = codes "if-none-match"
to_string_lowercase if_range = codes "if-range"
to_string_lowercase if_unmodified_since = codes "if-unmodified-since"
to_string_lowercase keep_alive = codes "keep-alive"
to_string_lowercase last_modified = codes "last-modified"
to_string_lowercase link = codes "link"
to_string_lowercase location = codes "location"
to_string_lowercase max_forwards = codes "max-forwards"
to_string_lowercase origin = codes "origin"
to_string_lowercase pragma = codes "pragma"
to_string_lowercase proxy_authenticate = codes "proxy-authenticate"
to_string_lowercase proxy_authorization = codes "proxy-authorization"
to_string_lowercase proxy_connection = codes "proxy-connection"
to_string_lowercase proxy_status = codes "proxy-status"
to_string_lowercase purpose = codes "purpose"
to_string_lowercase range = codes "range"
to_string_lowercase referer = codes "referer"
to_string_lowercase referrer_policy = codes "referrer-policy"
to_string_lowercase refresh = codes "refresh"
to_string_lowercase retry_after = codes "retry-after"
to_string_lowercase sec_ch_ua = codes "sec-ch-ua"
to_string_lowercase sec_ch_ua_mobile = codes "sec-ch-ua-mobile"
to_string_lowercase sec_ch_ua_platform = codes "sec-ch-ua-platform"
to_string_lowercase sec_fetch_dest = codes "sec-fetch-dest"
to_string_lowercase sec_fetch_mode = codes "sec-fetch-mode"
to_string_lowercase sec_fetch_site = codes "sec-fetch-site"
to_string_lowercase sec_fetch_user = codes "sec-fetch-user"
to_string_lowercase sec_purpose = codes "sec-purpose"
to_string_lowercase sec_web_socket_accept = codes "sec-websocket-accept"
to_string_lowercase sec_web_socket_extensions = codes "sec-websocket-extensions"
to_string_lowercase sec_web_socket_key = codes "sec-websocket-key"
to_string_lowercase sec_web_socket_protocol = codes "sec-websocket-protocol"
to_string_lowercase sec_web_socket_version = codes "sec-websocket-version"
to_string_lowercase server = codes "server"
to_string_lowercase server_timing = codes "server-timing"
to_string_lowercase set_cookie = codes "set-cookie"
to_string_lowercase status = codes "status"
to_string_lowercase strict_transport_security = codes "strict-transport-security"
to_string_lowercase te = codes "te"
to_string_lowercase timing_allow_origin = codes "timing-allow-origin"
to_string_lowercase trailer = codes "trailer"
to_string_lowercase transfer_encoding = codes "transfer-encoding"
to_string_lowercase upgrade = codes "upgrade"
to_string_lowercase upgrade_insecure_requests = codes "upgrade-insecure-requests"
to_string_lowercase user_agent = codes "user-agent"
to_string_lowercase vary = codes "vary"
to_string_lowercase via = codes "via"
to_string_lowercase www_authenticate = codes "www-authenticate"
to_string_lowercase x_content_type_options = codes "x-content-type-options"
to_string_lowercase x_forwared_for = codes "x-forwarded-for"
to_string_lowercase x_frame_options = codes "x-frame-options"
to_string_lowercase x_requested_with = codes "x-requested-with"
to_string_lowercase x_xss_protection = codes "x-xss-protection"
