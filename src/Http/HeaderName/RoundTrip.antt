-- ===== src/Http/HeaderName/RoundTrip.antt =====
-- The names of header fields in servente-http/src/header_name.rs, read back from their texts.
use servente.Common.{◌≡◌, refl}
use servente.Http.HeaderName.Text.{to_string_h1}
use servente.Http.HeaderName.Parse.{from_string}
use servente.Http.HeaderName.Defs.{
  HeaderName, other, accept, accept_charset, accept_encoding, accept_language, accept_ranges,
  access_control_allow_credentials, access_control_allow_headers, access_control_allow_methods,
  access_control_allow_origin, access_control_expose_headers, access_control_max_age,
  access_control_request_headers, access_control_request_method, age, allow, alt_svc, authorization,
  cache_control, cache_status, close, connection, cookie, content_disposition, content_encoding,
  content_language, content_length, content_location, content_range, content_security_policy,
  content_security_policy_report_only, content_type, cross_origin_resource_policy, date, dnt,
  early_data, etag, expect, expect_ct, expires, forwarded, from, host, if_match, if_modified_since,
  if_none_match, if_range, if_unmodified_since, keep_alive, last_modified, link, location,
  max_forwards, proxy_status, origin, pragma, proxy_authenticate, proxy_authorization,
  proxy_connection, purpose, range, referer, referrer_policy, refresh, retry_after, sec_ch_ua,
  sec_ch_ua_mobile, sec_ch_ua_platform, sec_fetch_dest, sec_fetch_mode, sec_fetch_site,
  sec_fetch_user, sec_purpose, sec_web_socket_accept, sec_web_socket_extensions, sec_web_socket_key,
  sec_web_socket_protocol, sec_web_socket_version, server, server_timing, set_cookie, status,
  strict_transport_security, te, timing_allow_origin, trailer, transfer_encoding, upgrade,
  upgrade_insecure_requests, user_agent, vary, via, www_authenticate, x_content_type_options,
  x_forwared_for, x_frame_options, x_requested_with, x_xss_protection,
}

-- A name with a constructor of its own.
abbrev pub IsKnown : HeaderName → Type 0
IsKnown (other str) = ⊥
IsKnown _ = Unit

-- The text that HTTP/1 writes for a known name reads back as that name.
pub from_string-to_string_h1 : (n : HeaderName) → IsKnown n → from_string (to_string_h1 n) ≡ n
unfolding from_string to_string_h1
from_string-to_string_h1 (other str) h = absurd h
from_string-to_string_h1 accept h = refl
from_string-to_string_h1 accept_charset h = refl
from_string-to_string_h1 accept_encoding h = refl
from_string-to_string_h1 accept_language h = refl
from_string-to_string_h1 accept_ranges h = refl
from_string-to_string_h1 access_control_allow_credentials h = refl
from_string-to_string_h1 access_control_allow_headers h = refl
from_string-to_string_h1 access_control_allow_methods h = refl
from_string-to_string_h1 access_control_allow_origin h = refl
from_string-to_string_h1 access_control_expose_headers h = refl
from_string-to_string_h1 access_control_max_age h = refl
from_string-to_string_h1 access_control_request_headers h = refl
from_string-to_string_h1 access_control_request_method h = refl
from_string-to_string_h1 age h = refl
from_string-to_string_h1 allow h = refl
from_string-to_string_h1 alt_svc h = refl
from_string-to_string_h1 authorization h = refl
from_string-to_string_h1 cache_control h = refl
from_string-to_string_h1 cache_status h = refl
from_string-to_string_h1 close h = refl
from_string-to_string_h1 connection h = refl
from_string-to_string_h1 cookie h = refl
from_string-to_string_h1 content_disposition h = refl
from_string-to_string_h1 content_encoding h = refl
from_string-to_string_h1 content_language h = refl
from_string-to_string_h1 content_length h = refl
from_string-to_string_h1 content_location h = refl
from_string-to_string_h1 content_range h = refl
from_string-to_string_h1 content_security_policy h = refl
from_string-to_string_h1 content_security_policy_report_only h = refl
from_string-to_string_h1 content_type h = refl
from_string-to_string_h1 cross_origin_resource_policy h = refl
from_string-to_string_h1 date h = refl
from_string-to_string_h1 dnt h = refl
from_string-to_string_h1 early_data h = refl
from_string-to_string_h1 etag h = refl
from_string-to_string_h1 expect h = refl
from_string-to_string_h1 expect_ct h = refl
from_string-to_string_h1 expires h = refl
from_string-to_string_h1 forwarded h = refl
from_string-to_string_h1 from h = refl
from_string-to_string_h1 host h = refl
from_string-to_string_h1 if_match h = refl
from_string-to_string_h1 if_modified_since h = refl
from_string-to_string_h1 if_none_match h = refl
from_string-to_string_h1 if_range h = refl
from_string-to_string_h1 if_unmodified_since h = refl
from_string-to_string_h1 keep_alive h = refl
from_string-to_string_h1 last_modified h = refl
from_string-to_string_h1 link h = refl
from_string-to_string_h1 location h = refl
from_string-to_string_h1 max_forwards h = refl
from_string-to_string_h1 origin h = refl
from_string-to_string_h1 pragma h = refl
from_string-to_string_h1 proxy_authenticate h = refl
from_string-to_string_h1 proxy_authorization h = refl
from_string-to_string_h1 proxy_connection h = refl
from_string-to_string_h1 proxy_status h = refl
from_string-to_string_h1 purpose h = refl
from_string-to_string_h1 range h = refl
from_string-to_string_h1 referer h = refl
from_string-to_string_h1 referrer_policy h = refl
from_string-to_string_h1 refresh h = refl
from_string-to_string_h1 retry_after h = refl
from_string-to_string_h1 sec_ch_ua h = refl
from_string-to_string_h1 sec_ch_ua_mobile h = refl
from_string-to_string_h1 sec_ch_ua_platform h = refl
from_string-to_string_h1 sec_fetch_dest h = refl
from_string-to_string_h1 sec_fetch_mode h = refl
from_string-to_string_h1 sec_fetch_site h = refl
from_string-to_string_h1 sec_fetch_user h = refl
from_string-to_string_h1 sec_purpose h = refl
from_string-to_string_h1 sec_web_socket_accept h = refl
from_string-to_string_h1 sec_web_socket_extensions h = refl
from_string-to_string_h1 sec_web_socket_key h = refl
from_string-to_string_h1 sec_web_socket_protocol h = refl
from_string-to_string_h1 sec_web_socket_version h = refl
from_string-to_string_h1 server h = refl
from_string-to_string_h1 server_timing h = refl
from_string-to_string_h1 set_cookie h = refl
from_string-to_string_h1 status h = refl
from_string-to_string_h1 strict_transport_security h = refl
from_string-to_string_h1 te h = refl
from_string-to_string_h1 timing_allow_origin h = refl
from_string-to_string_h1 trailer h = refl
from_string-to_string_h1 transfer_encoding h = refl
from_string-to_string_h1 upgrade h = refl
from_string-to_string_h1 upgrade_insecure_requests h = refl
from_string-to_string_h1 user_agent h = refl
from_string-to_string_h1 vary h = refl
from_string-to_string_h1 via h = refl
from_string-to_string_h1 www_authenticate h = refl
from_string-to_string_h1 x_content_type_options h = refl
from_string-to_string_h1 x_forwared_for h = refl
from_string-to_string_h1 x_frame_options h = refl
from_string-to_string_h1 x_requested_with h = refl
from_string-to_string_h1 x_xss_protection h = refl
