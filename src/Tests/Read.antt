-- ===== src/Tests/Read.antt =====
-- The theorems on the reading of HTTP/1 requests, at concrete inputs.
use servente.Common.{ℕ, ◌≡◌, refl, arith, none, some, List, [], ◌∷◌, Bytes, codes, All}
use servente.Common.Trim.{trim}
use servente.Common.Result.{ok}
use servente.Http.HeaderMap
use servente.Http.HeaderMap.{HeaderMap}
use servente.Http.HeaderName
use servente.Http.HeaderName.{host, content_length}
use servente.Http.HeaderValue
use servente.Http.Method
use servente.Http.Method.{Method}
use servente.Http.Request.{Request, http11}
use servente.Http.RequestTarget
use servente.Http.RequestTarget.{RequestTarget, origin}
use servente.Http.Syntax.{validate_token, validate_field_content}
use servente.Http1.Read.{method_byte, target_byte, read_request_body, read_request_excluding_body}
use servente.Http1.Read.Body.{HasNoBytes, read_request_body-reads_nothing}
use servente.Http1.Read.Headers.{IsField, append_all}
use servente.Http1.Read.Line.{IsPlain}
use servente.Http1.Read.Whole.{has_fields, request_text, read_request_excluding_body-request_text}

abbrev pub date : ℕ → Bytes
date time = []

abbrev pub get : Bytes
get = codes "GET"

abbrev pub target_text : Bytes
target_text = codes "/?a"

abbrev pub target : RequestTarget
target = origin (codes "/") (codes "a")

pub get_bytes : All (IsPlain method_byte b' ') get
unfolding method_byte
get_bytes =
    ((omega arith, refl, refl), ((omega arith, refl, refl), ((omega arith, refl, refl), tt)))

pub target_text_bytes : All (IsPlain target_byte b' ') target_text
unfolding target_byte
target_text_bytes =
    ((omega arith, refl, refl), ((omega arith, refl, refl), ((omega arith, refl, refl), tt)))

pub target_parsed : RequestTarget.parse target_text ≡ some target
unfolding RequestTarget.parse
target_parsed = refl

abbrev pub fields : List (Bytes × Bytes)
fields = (codes "Host", codes "a") ∷ []

abbrev pub map_of_fields : HeaderMap
map_of_fields = record {
  headers = (host, HeaderValue.string (codes "a")) ∷ [];
  set_cookie_values = [];
}

pub host_IsField : IsField (codes "Host") (codes "a")
unfolding validate_token validate_field_content trim
host_IsField = record {
  name_bytes = (
    (omega arith, refl),
    ((omega arith, refl), ((omega arith, refl), ((omega arith, refl), tt))),
  );
  value_bytes = ((omega arith, refl), tt);
  has_no_colon = (refl, (refl, (refl, (refl, tt))));
  is_token = refl;
  is_content = refl;
  is_name_trimmed = refl;
  is_value_trimmed = refl;
  is_short = omega arith;
}

pub fields_appended : append_all date fields HeaderMap.empty ≡ ok map_of_fields
unfolding append_all HeaderMap.append HeaderName.from_string
fields_appended = refl

read_request_excluding_body-request_text_example :
    read_request_excluding_body date (request_text get target_text http11 fields (7 ∷ []) ∷ []) ≡ (
      ok (record {
        method = Method.from_string get;
        target = target;
        version = http11;
        headers = map_of_fields;
        body = none;
      }),
      (7 ∷ []) ∷ [],
    )
unfolding has_fields
read_request_excluding_body-request_text_example =
    read_request_excluding_body-request_text date get target_text target http11 fields map_of_fields
      (7 ∷ []) []
      (record {
        method_bytes = get_bytes;
        is_method_short = omega arith;
        target_bytes = target_text_bytes;
        is_target_short = omega arith;
        is_parsed = target_parsed;
      })
      refl (host_IsField, tt) fields_appended

-- Five bytes of a body are announced and sent.
abbrev announced : Request
announced = record {
  method = Method.from_string get;
  target = target;
  version = http11;
  headers = record {
    headers = (content_length, HeaderValue.string (codes "5")) ∷ [];
    set_cookie_values = [];
  };
  body = none;
}

read_request_body-reads_nothing_example :
    let (r, s') = read_request_body announced (codes "hello" ∷ []) in
    (s' ≡ codes "hello" ∷ []) × HasNoBytes r
read_request_body-reads_nothing_example =
    read_request_body-reads_nothing announced (codes "hello" ∷ []) refl
