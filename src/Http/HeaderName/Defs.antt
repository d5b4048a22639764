-- ===== src/Http/HeaderName/Defs.antt =====
-- The names of header fields, `HeaderName` of servente-http/src/header_name.rs.
use servente.Common.{Bytes, Bool, true, false, ◌≡◌, ◌↔◌, refl}
use native.Mathlib.Decide.{ℕ_discrete}

pub data HeaderName : Type 0 where
  other : Bytes → HeaderName
  accept accept_charset accept_encoding accept_language accept_ranges : HeaderName
  access_control_allow_credentials access_control_allow_headers : HeaderName
  access_control_allow_methods access_control_allow_origin : HeaderName
  access_control_expose_headers access_control_max_age : HeaderName
  access_control_request_headers access_control_request_method age allow : HeaderName
  alt_svc authorization cache_control cache_status close connection cookie : HeaderName
  content_disposition content_encoding content_language content_length : HeaderName
  content_location content_range content_security_policy : HeaderName
  content_security_policy_report_only content_type : HeaderName
  cross_origin_resource_policy date dnt early_data etag expect expect_ct : HeaderName
  expires forwarded from host if_match if_modified_since if_none_match : HeaderName
  if_range if_unmodified_since keep_alive last_modified link location : HeaderName
  max_forwards proxy_status origin pragma proxy_authenticate : HeaderName
  proxy_authorization proxy_connection purpose range referer referrer_policy : HeaderName
  refresh retry_after sec_ch_ua sec_ch_ua_mobile sec_ch_ua_platform : HeaderName
  sec_fetch_dest sec_fetch_mode sec_fetch_site sec_fetch_user sec_purpose : HeaderName
  sec_web_socket_accept sec_web_socket_extensions sec_web_socket_key : HeaderName
  sec_web_socket_protocol sec_web_socket_version server server_timing : HeaderName
  set_cookie status strict_transport_security te timing_allow_origin trailer : HeaderName
  transfer_encoding upgrade upgrade_insecure_requests user_agent vary via : HeaderName
  www_authenticate x_content_type_options x_forwared_for x_frame_options : HeaderName
  x_requested_with x_xss_protection : HeaderName

unfoldable pub HeaderName-discrete : Discrete HeaderName
HeaderName-discrete = hlevel ℕ_discrete

-- `PartialEq` of the enumeration.
unfoldable pub header_name_eq : HeaderName → HeaderName → Bool
unfolding HeaderName-discrete
header_name_eq a b = elim (HeaderName-discrete a b) [ yes e ↦ true | no e ↦ false ]

pub header_name_eq_iff : (a b : HeaderName) → (header_name_eq a b ≡ true) ↔ (a ≡ b)
unfolding header_name_eq
header_name_eq_iff a b =
    elim (HeaderName-discrete a b)
      as (λ d. (elim d as (λ _. Bool) [ yes e ↦ true | no e ↦ false ] ≡ true) ↔ (a ≡ b)) [
        | yes e ↦ ((λ _. e), (λ _. refl))
        | no n ↦ ((λ h. cc), (λ e. absurd (n e)))
      ]
