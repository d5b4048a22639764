-- ===== src/Tests/Exchange.antt =====
-- The theorems on exchanges of HTTP/1 and on the output of CGI scripts, at concrete inputs.
use servente.Common.{
  ℕ, ◌≡◌, refl, true, false, Option, none, some, List, [], ◌∷◌, ◌++◌, Bytes, codes,
}
use servente.Cgi.{Command, ProcessEnd, not_spawned}
use servente.Handling.Requests.{Answer}
use servente.Handling.Server.{Server}
use servente.Http.Error.{HttpParseError, Error}
use servente.Http.HeaderMap
use servente.Http.Method
use servente.Http.Request.{Request, BodyKind, http11}
use servente.Http.Response.{Response, with_status}
use servente.Http.StatusCode
use servente.Http1.Exchange.{upgraded, process_exchanges}
use servente.Http1.Exchange.Order.{Visit, timely}
use servente.Http1.Exchange.Upgrade.{process_exchanges-preface}
use servente.Tests.Read.{date, get, target_text, target, fields, map_of_fields}

abbrev server : Server
server = record {
  http_date = date;
  parse_http_date = λ text. none;
  decode = λ text. some text;
  now = 0;
  current_dir = none;
  metadata = λ path. none;
  exists = λ path. false;
  open_file = λ path. none;
  modified = λ handle. none;
  cached = λ path. none;
  welcome_html = codes "welcome";
  welcome_html_nl = codes "welkom";
  has_http2 = true;
  has_http3 = false;
  has_convert_markdown = false;
  has_debug_assertions = false;
}

abbrev hello : Response
hello = record (with_status StatusCode.ok) { body = some (BodyKind.static_string (codes "hello")) }

abbrev handle : Request → Answer
handle request = some hello

abbrev as_ref : HttpParseError → Bytes
as_ref e = codes "error"

abbrev reads : ℕ → ℕ → ℕ → List (Option Bytes)
reads handle start size = []

abbrev visit : Visit
visit = record {
  method = get;
  target_text = target_text;
  target = target;
  version = http11;
  fields = fields;
  headers = map_of_fields;
  response = hello;
  body = BodyKind.static_string (codes "hello");
  text = codes "hello";
}

process_exchanges-preface_example :
    process_exchanges server handle as_ref
      (λ n. true)
      reads
      (λ n. 0)
      (λ coding octets. octets)
      (timely ∷ [])
      (record {
        incoming = (codes "PRI * HTTP/2.0\r\n" ++ codes "\r\nSM\r\n\r\n" ++ (0 ∷ 0 ∷ [])) ∷ [];
        output = [];
      })
    ≡ (upgraded, record { incoming = (0 ∷ 0 ∷ []) ∷ []; output = [] })
process_exchanges-preface_example =
    process_exchanges-preface server handle as_ref (λ n. true) reads (λ n. 0)
      (λ coding octets. octets) [] (0 ∷ 0 ∷ []) [] [] refl

abbrev debug_text : Error → Bytes
debug_text e = codes "error"

abbrev never : Command → Option Bytes → ProcessEnd
never command input = not_spawned
