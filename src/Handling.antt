-- ===== src/Handling.antt =====
-- The last steps of a response, of servente-http-handling/src/lib.rs and responses.rs. The features
-- http2 and http3 are parameters, as are the time and the date of a file, if it has one.
pub mod Paths
pub mod Handlers
pub mod Server
pub mod Files
pub mod Welcome
pub mod Requests
use servente.Common.{
  ℕ, Bool, true, false, not, ◌&&◌, Option, none, some, Bytes, codes, if◌then◌else◌,
}
use servente.Common.Result.{ok, err}
use servente.Http.HeaderMap
use servente.Http.HeaderMap.{HeaderMap, append_or_override, contains}
use servente.Http.HeaderMap.Setters.{set_content_type, set_last_modified}
use servente.Http.HeaderName.{
  HeaderName, alt_svc, cache_control, connection, content_type, date, last_modified, server,
  x_content_type_options, x_frame_options, x_xss_protection,
}
use servente.Http.HeaderValue.{HeaderValue, static_string}
use servente.Http.MediaType.{from_path, plain_text}
use servente.Http.Request.{Request, BodyKind, file}
use servente.Http.RequestTarget
use servente.Http.Response.{Response, with_status_and_string_body}
use servente.Http.StatusCode
use servente.Http.StatusCode.{success, request_timeout}

module _ (http_date : ℕ → Bytes) (has_http2 has_http3 : Bool) (now : ℕ)
    (modified : ℕ → Option ℕ) where
  -- `_ = response.headers.append`, whose error is passed over.
  unfoldable pub try_append : HeaderMap → HeaderName → Bytes → HeaderMap
  unfolding HeaderMap.append
  try_append m name text = elim (HeaderMap.append http_date m name (static_string text)) [
    | ok appended ↦ appended
    | err e ↦ m
  ]

  -- The date of a file that is the body.
  unfoldable pub with_file_date : HeaderMap → Option BodyKind → HeaderMap
  unfolding set_last_modified
  with_file_date m (some (file handle len)) = elim (modified handle) [
    | some date_time ↦ set_last_modified m date_time
    | none ↦ m
  ]
  with_file_date m _ = m

  -- The header fields of every response.
  unfoldable pub general_headers : HeaderMap → HeaderMap
  unfolding append_or_override contains try_append
  general_headers m =
      let named = append_or_override m server (static_string (codes "servente")) in
      let second = if has_http2 then try_append named alt_svc (codes "h2=\":8080\"") else named in
      let third = if has_http3 then try_append second alt_svc (codes "h3=\":8080\"") else second in
      let framed = append_or_override third x_frame_options (static_string (codes "DENY")) in
      let guarded =
        append_or_override framed x_xss_protection
          (static_string (codes "X-XSS-Protection: 1; mode=block")) in
      let plain =
        append_or_override guarded x_content_type_options (static_string (codes "nosniff")) in
      let connected =
        if contains plain connection
        then plain
        else try_append plain connection (codes "keep-alive") in
      if contains connected date
      then connected
      else append_or_override connected date (HeaderValue.date_time now)

  unfoldable pub finish_response_general : Response → Response
  unfolding contains with_file_date general_headers
  finish_response_general response =
      let dated =
        if contains response.headers last_modified
        then response.headers
        else with_file_date response.headers response.body in
      record response { headers = general_headers dated }

  unfoldable pub finish_response_error : Response → Response
  unfolding append_or_override finish_response_general
  finish_response_error response = finish_response_general (record response {
    headers = append_or_override response.headers connection (static_string (codes "close"));
  })

  -- The content type and the caching of a response with a body.
  unfoldable pub with_type : Request → Response → HeaderMap → HeaderMap
  unfolding contains append_or_override try_append from_path RequestTarget.as_str StatusCode.class
  with_type request response m =
      let typed =
        if contains m content_type
        then m
        else append_or_override m content_type
            (HeaderValue.media_type (from_path (RequestTarget.as_str request.target))) in
      let is_success : Bool = elim (StatusCode.class response.status) [
        | success ↦ true
        | _ ↦ false
      ] in
      if is_success && not (contains typed cache_control)
      then try_append typed cache_control (codes "max-age=120")
      else typed

  unfoldable pub finish_response_normal : Request → Response → Response
  unfolding with_type finish_response_general
  finish_response_normal request response = finish_response_general (record response {
    headers = elim response.body [
      | none ↦ response.headers
      | some body ↦ with_type request response response.headers
    ];
  })

  unfoldable pub create_request_timeout : Response
  unfolding with_status_and_string_body set_content_type finish_response_error
  create_request_timeout =
      let response =
        with_status_and_string_body request_timeout
          (BodyKind.static_string (codes "Request Timed Out")) in
      finish_response_error
        (record response { headers = set_content_type response.headers plain_text })
