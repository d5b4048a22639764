-- ===== src/Http1/Exchange/Order.antt =====
-- Requests that come one behind another on a connection.
use servente.Common.{
  ℕ, ◌≡◌, refl, Bool, true, false, Option, none, some, List, [], ◌∷◌, ◌++◌, Bytes,
}
use servente.Common.Result.{Result, ok}
use servente.Handling.{finish_response_normal}
use servente.Handling.Handlers.{method_eq}
use servente.Handling.Requests.{Answer}
use servente.Handling.Server.{Server}
use servente.Http.Error.{HttpParseError, Error}
use servente.Http.HeaderMap
use servente.Http.HeaderMap.{HeaderMap}
use servente.Http.HeaderName.{content_length, transfer_encoding}
use servente.Http.HeaderValue.{ContentCoding}
use servente.Http.Method
use servente.Http.Request.{Request, HttpVersion, BodyKind}
use servente.Http.RequestTarget.{RequestTarget}
use servente.Http.Response.{Response}
use servente.Http1.Exchange.{Timing}
use servente.Http1.Wire.{Wire, run_reader}
use servente.Http1.Read.Headers.{AreFields, append_all}
use servente.Http1.Read.Whole.{IsHead, has_fields, request_text}
use servente.Http1.Stream.{Stream}
use servente.Http1.Transfer.{response_head}
use servente.Http1.Transfer.Length.{body_text, planned}

-- A request as it is sent, and the answer of the server to it, with its body.
pub record Visit : Type 0 where
  pub method : Bytes
  pub target_text : Bytes
  pub target : RequestTarget
  pub version : HttpVersion
  pub fields : List (Bytes × Bytes)
  pub headers : HeaderMap
  pub response : Response
  pub body : BodyKind
  pub text : Bytes

abbrev pub visit_request : Visit → Request
visit_request v = record {
  method = Method.from_string v.method;
  target = v.target;
  version = v.version;
  headers = v.headers;
  body = none;
}

-- The texts of the requests, one behind another.
pub visits_text : List Visit → Bytes → Bytes
visits_text [] more = more
visits_text (v ∷ visits) more =
    request_text v.method v.target_text v.version v.fields (visits_text visits more)

abbrev pub timely : Timing
timely = record { is_headers_late = false; is_body_late = false }

pub timings_of : List Visit → List Timing
timings_of [] = []
timings_of (v ∷ visits) = timely ∷ timings_of visits

pub run_reader-ok :
    {A : Type 0} (reader : Stream → Result Error A × Stream) (before after : Stream)
    (output : Bytes) (a : Result Error A)
    → reader before ≡ (a, after)
    → run_reader reader (record { incoming = before; output = output })
      ≡ (ok a, record { incoming = after; output = output })
unfolding run_reader
run_reader-ok reader before after output a e = rw e refl

module _ (s : Server) (handle : Request → Answer) (as_ref : HttpParseError → Bytes)
    (is_file : ℕ → Bool) (file_reads : ℕ → ℕ → ℕ → List (Option Bytes)) (file_end : ℕ → ℕ)
    (encode : ContentCoding → Bytes → Bytes) where
  -- A request without a body, with a method other than PRI, that is answered with a body that is not a file.
  pub record IsServed (v : Visit) : Type 0 where
    pub head : IsHead v.method v.target_text v.target
    pub known : has_fields v.version ≡ true
    pub ok_fields : AreFields v.fields
    pub appended : append_all s.http_date v.fields HeaderMap.empty ≡ ok v.headers
    pub not_pri : method_eq (Method.from_string v.method) Method.pri ≡ false
    pub no_length : HeaderMap.get v.headers content_length ≡ none
    pub no_encoding : HeaderMap.get v.headers transfer_encoding ≡ none
    pub answered : handle (visit_request v) ≡ some v.response
    pub has_body : v.response.body ≡ some v.body
    pub has_text : body_text v.body ≡ some v.text

  abbrev pub finished : Visit → Response
  finished v =
      finish_response_normal s.http_date s.has_http2 s.has_http3 s.now s.modified (visit_request v)
        v.response

  -- The head and the body that a visit is answered with.
  pub answer_text : Visit → Bytes
  answer_text v =
      response_head file_reads file_end s.http_date encode (planned (finished v) v.text) ++ v.text

  pub answers_text : List Visit → Bytes
  answers_text [] = []
  answers_text (v ∷ visits) = answer_text v ++ answers_text visits

  abbrev wire : Bytes → Stream → Bytes → Wire
  wire piece pieces output = record { incoming = piece ∷ pieces; output = output }
