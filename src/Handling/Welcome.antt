-- ===== src/Handling/Welcome.antt =====
-- The welcome page, of servente-http-handling/src/lib.rs.
use servente.Common.{
  ℕ, ◌==◌, Bool, false, ◌||◌, Option, none, some, [], ◌∷◌, Bytes, bytes_eq, codes, if◌then◌else◌,
}
use servente.Http.HeaderMap
use servente.Http.HeaderMap.{HeaderMap, append_or_override, contains}
use servente.Http.HeaderMap.Setters.{set_content_type}
use servente.Http.HeaderName.{
  HeaderName, accept_language, cache_control, content_language, content_security_policy, etag,
  if_modified_since, if_none_match, last_modified, vary,
}
use servente.Http.HeaderValue.{HeaderValue}
use servente.Http.Lists.{Weights, find_best_match_in_weighted_list}
use servente.Http.MediaType.{html}
use servente.Http.Request.{Request, BodyKind}
use servente.Http.Response.{Response, with_status, with_status_and_string_body}
use servente.Http.StatusCode
use servente.Handling.Files.{field_text}
use servente.Handling.Handlers.{append_static}
use servente.Handling.Server.{Server}

abbrev pub static_value : HeaderMap → HeaderName → Bytes → HeaderMap
static_value m name text = append_or_override m name (HeaderValue.static_string text)

-- The values that the entity tag of the request puts into the response, as it stands in the source.
unfoldable pub with_request_etag : Option HeaderValue → HeaderMap → HeaderMap
unfolding append_or_override
with_request_etag none m = m
with_request_etag (some value) m =
    append_or_override (append_or_override m etag value) last_modified value

unfoldable pub serve_welcome_page_not_modified : Request → Response
unfolding with_status append_or_override with_request_etag HeaderMap.get
serve_welcome_page_not_modified request = record (with_status StatusCode.not_modified) {
  headers =
      with_request_etag (HeaderMap.get request.headers etag)
        (static_value HeaderMap.empty vary (codes "Content-Language"));
}

unfoldable pub page_not_found : Response
unfolding with_status_and_string_body
page_not_found =
    with_status_and_string_body StatusCode.not_found (BodyKind.static_string (codes "Not Found"))

module _ (s : Server) where
  -- The epoch is no more than ten minutes behind a date, which is none in front of the epoch.
  unfoldable pub is_page_known : Request → Bool
  unfolding contains field_text
  is_page_known request =
      if contains request.headers etag
      then false
      else elim (field_text request.headers if_modified_since) [
        | none ↦ false
        | some text ↦ elim (s.parse_http_date text) [ none ↦ false | some date ↦ date == 0 ]
      ]

  unfoldable pub welcome_headers : HeaderMap
  unfolding set_content_type append_static append_or_override
  welcome_headers =
      let typed = set_content_type HeaderMap.empty html in
      let cached = append_static s.http_date typed cache_control (codes "public, max-age=600") in
      let secured = append_static s.http_date cached content_security_policy (
        codes
          "default-src 'self'; upgrade-insecure-requests; style-src-elem 'self' 'unsafe-inline'") in
      let spoken = append_static s.http_date secured content_language (codes "en") in
      let dated = append_or_override spoken last_modified (HeaderValue.date_time 0) in
      append_static s.http_date (static_value dated etag (codes "welcome-en")) vary
        (codes "Content-Language")

  unfoldable pub welcome_response : Response
  unfolding with_status welcome_headers
  welcome_response = record (with_status StatusCode.ok) {
    headers = welcome_headers;
    body = some (BodyKind.static_string s.welcome_html);
  }

  -- The Dutch page in place of the English one.
  unfoldable pub dutch_response : Response
  unfolding welcome_response append_or_override
  dutch_response = record welcome_response {
    headers = static_value welcome_headers content_language (codes "nl");
    body = some (BodyKind.static_string s.welcome_html_nl);
  }

  unfoldable pub has_tag : Option Bytes → Bytes → Bool
  has_tag none tag = false
  has_tag (some text) tag = bytes_eq text tag

  -- By the number of the best language of "nl" and "en".
  unfoldable pub page_in_language : Request → Option Bytes → Option ℕ → Response
  unfolding dutch_response welcome_response serve_welcome_page_not_modified has_tag
      append_or_override
  page_in_language request request_etag best =
      let is_dutch : Bool = elim best [ none ↦ false | some i ↦ i == 0 ] in
      if is_dutch
      then if has_tag request_etag (codes "welcome-nl")
        then serve_welcome_page_not_modified request
        else record dutch_response {
          headers = static_value dutch_response.headers etag (codes "welcome-nl");
        }
      else if has_tag request_etag (codes "welcome-en")
      then serve_welcome_page_not_modified request
      else welcome_response

  module _ {Weight : Type 0} (w : Weights Weight) where
    unfoldable pub page_at_root : Request → Response
    unfolding field_text find_best_match_in_weighted_list page_in_language welcome_response
    page_at_root request = elim (field_text request.headers accept_language) [
      | none ↦ welcome_response
      | some accepted_languages ↦
          page_in_language request (field_text request.headers if_none_match) (
            find_best_match_in_weighted_list w accepted_languages (codes "nl" ∷ codes "en" ∷ [])
              w.nothing)
    ]

    unfoldable pub handle_welcome_page : Request → Bytes → Response
    unfolding is_page_known serve_welcome_page_not_modified page_at_root welcome_response
        dutch_response page_not_found
    handle_welcome_page request request_target =
        if is_page_known request
        then serve_welcome_page_not_modified request
        else if bytes_eq request_target (codes "/")
            || bytes_eq request_target (codes "/index")
            || bytes_eq request_target (codes "/index.html")
        then page_at_root request
        else if bytes_eq request_target (codes "/welcome.en.html")
        then welcome_response
        else if bytes_eq request_target (codes "/welcome.nl.html")
        then dutch_response
        else page_not_found
