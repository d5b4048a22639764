-- ===== src/Tests/Served.antt =====
-- A file of the disk that answers a request.
use servente.Common.{
  refl, ltb, ◌==◌, ◌+◌, ◌*◌, ◌^◌, ◌-◌, ℕ, false, true, none, some, [], Bytes, codes,
}
use servente.Handling.Handlers.{new}
use servente.Handling.Requests.{handle_request_inner}
use servente.Handling.Requests.Answered.{Found, handle_request_inner-IsServable}
use servente.Handling.Requests.Served.{IsServable}
use servente.Handling.Server.{Server}
use servente.Http.HeaderMap
use servente.Http.HeaderMap.{append_or_override}
use servente.Http.HeaderName.{content_type}
use servente.Http.HeaderValue
use servente.Http.Lists.{Weights}
use servente.Http.MediaType.{html}
use servente.Http.Method
use servente.Http.Request.{Request, file, http11}
use servente.Http.RequestTarget.{origin}
use servente.Http.Response.{Response, with_status}
use servente.Http.StatusCode
use servente.Resources.Cache.{Metadata}

-- Weights in thousandths.
abbrev thousandths : Weights ℕ
thousandths = record {
  nothing = 0;
  whole = 1000;
  is_less = ltb;
  is_equal = ◌==◌;
  plus = ◌+◌;
  digit_at = λ digit place. digit * 10 ^ (3 - place);
}

abbrev page : Metadata
page = record { is_file = true; is_dir = false; mode = 420; len = 12; modified = none }

-- Every file of the disk is the page.
abbrev server : Server
server = record {
  http_date = λ date. [];
  parse_http_date = λ text. none;
  decode = λ text. some text;
  now = 0;
  current_dir = some (codes "/srv");
  metadata = λ path. some page;
  exists = λ path. true;
  open_file = λ path. some (7, some page);
  modified = λ handle. none;
  cached = λ path. none;
  welcome_html = codes "welcome";
  welcome_html_nl = codes "welkom";
  has_http2 = true;
  has_http3 = false;
  has_convert_markdown = false;
  has_debug_assertions = false;
}

abbrev request : Request
request = record {
  method = Method.get;
  target = origin (codes "/a.html") [];
  version = http11;
  headers = HeaderMap.empty;
  body = none;
}

abbrev answer : Response
answer = record (with_status StatusCode.ok) {
  headers = append_or_override HeaderMap.empty content_type (HeaderValue.media_type html);
  body = some (file 7 12);
}

handle_request_inner-IsServable_example :
    (path : Bytes) × Found server (codes "/a.html") path × IsServable server path 7 12
unfolding handle_request_inner with_status
handle_request_inner-IsServable_example =
    handle_request_inner-IsServable server thousandths (λ text. none) (λ response. response) new
      request (codes "/a.html") [] answer 7 12 refl refl refl refl
