-- ===== src/Cgi/Fields.antt =====
-- What a script's output is answered with.
use servente.Common.{length, ◌≡◌, some, List, Bytes, All}
use servente.Common.Result.{Result, ok}
use servente.Cgi.{script_headers}
use servente.Handling.Server.{Server}
use servente.Http.Error.{Error}
use servente.Http.HeaderMap
use servente.Http.HeaderMap.{HeaderMap}
use servente.Http.HeaderName
use servente.Http.HeaderName.{
  connection, keep_alive, te, transfer_encoding, upgrade, other, class, HeaderName, other_class,
}
use servente.Http.HeaderValue.{HeaderValue}
use servente.Http.Request.{bytes, http11}
use servente.Http.Response.{Response}
use servente.Http.StatusCode

-- Fields that are neither those of a connection nor those of CGI.
abbrev AreOther : List (HeaderName × HeaderValue) → Type 0
AreOther fields =
    All (λ (field : HeaderName × HeaderValue). HeaderName.class field.0 ≡ other_class) fields

-- A name that is none of a connection's, and not one of six bytes that has no constructor, which the code takes
-- for one of CGI.
abbrev pub IsPassed : HeaderName → Type 0
IsPassed connection = ⊥
IsPassed keep_alive = ⊥
IsPassed te = ⊥
IsPassed transfer_encoding = ⊥
IsPassed upgrade = ⊥
IsPassed (other text) = ¬ (length text ≡ 6)
IsPassed _ = Unit {0}

abbrev pub ArePassed : List (HeaderName × HeaderValue) → Type 0
ArePassed fields = All (λ (field : HeaderName × HeaderValue). IsPassed field.0) fields

-- The response with the status 200, the fields that are taken and a body.
abbrev pub answer : HeaderMap → Bytes → Result Bytes (Unit {0}) × Response
answer m octets = (
  ok tt,
  record {
    version = http11;
    status = StatusCode.ok;
    headers = script_headers m;
    body = some (bytes octets);
  },
)
