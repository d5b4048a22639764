-- ===== src/Http1/Read/Body.antt =====
-- `read_request_body` of servente-http1/src/read.rs.
use servente.Common.{
  ℕ, ◌^◌, leb, ◌≡◌, refl, inl, inr, Bool, true, false, Bool-cases, Option, none, some, [], Bytes,
  codes,
}
use servente.Common.Exec.{◌>>=◌, return, raise, continue_with}
use servente.Common.Result.{Result, ok, err}
use servente.Common.Utf8.{from_utf8}
use servente.Http.Error.{Error}
use servente.Http.HeaderValue.{HeaderValue, parse_number, as_str_no_convert}
use servente.Http.Request.{Request, BodyKind, bytes, string}
use servente.Http.RequestTarget.{starts_with}
use servente.Http1.Stream.{Stream, read_exact}
use servente.Http1.Read.{
  text_or_bytes, body_of_text, body_of_type, body_of_length, read_request_body_content_length,
  read_request_body_chunked, read_request_body_by, read_request_body,
}

is_empty_body : BodyKind → Bool
is_empty_body (bytes []) = true
is_empty_body (string []) = true
is_empty_body _ = false

IsEmptyResult : Result Error BodyKind → Type 0
IsEmptyResult (ok body) = is_empty_body body ≡ true
IsEmptyResult (err e) = Unit

-- A request that is read has no body or an empty one.
pub HasNoBytes : Result Error Request → Type 0
HasNoBytes (err e) = Unit
HasNoBytes (ok request) = elim request.body [ none ↦ Unit | some body ↦ is_empty_body body ≡ true ]

-- A body that is read from nothing.
IsIdle : Stream → Result Error BodyKind × Stream → Type 0
IsIdle s (r, s') = (s' ≡ s) × IsEmptyResult r

body_of_text-IsIdle : (o : Option Bytes) (s : Stream) → IsIdle s (body_of_text o [] s)
unfolding IsIdle IsEmptyResult body_of_text return raise text_or_bytes from_utf8 is_empty_body
body_of_text-IsIdle none s = (refl, tt)
body_of_text-IsIdle (some text) s = elim (Bool-cases (starts_with text (codes "text/"))) [
  | inl is_text ↦ rw is_text (refl, refl)
  | inr other ↦ rw other (refl, refl)
]

body_of_type-IsIdle : (o : Option HeaderValue) (s : Stream) → IsIdle s (body_of_type o [] s)
unfolding body_of_type return IsIdle IsEmptyResult is_empty_body
body_of_type-IsIdle none s = (refl, refl)
body_of_type-IsIdle (some value) s = body_of_text-IsIdle (as_str_no_convert value) s

body_of_length-IsIdle :
    (o : Option HeaderValue) (n : Option ℕ) (s : Stream) → IsIdle s (body_of_length o n s)
unfolding body_of_length return raise read_exact ◌>>=◌ IsIdle IsEmptyResult
body_of_length-IsIdle o none s = (refl, tt)
body_of_length-IsIdle o (some capacity) s = elim (Bool-cases (leb (2 ^ 63) capacity)) [
  | inl large ↦ rw large (refl, tt)
  | inr small ↦ rw small (body_of_type-IsIdle o s)
]

put_body :
    (request : Request) (s : Stream) (r : Result Error BodyKind × Stream)
    → IsIdle s r
    → (let (whole, s') = continue_with (λ body. return (record request { body = some body })) r in
        (s' ≡ s) × HasNoBytes whole)
unfolding IsIdle IsEmptyResult HasNoBytes return
put_body request s (ok body, s') h = h
put_body request s (err e, s') h = (h.0, tt)

read_request_body_by-reads_nothing :
    (request : Request) (value encoding : Option HeaderValue) (s : Stream)
    → request.body ≡ none
    → (let (r, s') = read_request_body_by request value encoding s in (s' ≡ s) × HasNoBytes r)
unfolding read_request_body_by read_request_body_chunked ◌>>=◌ HasNoBytes return raise
    read_request_body_content_length
read_request_body_by-reads_nothing request (some value) encoding s h =
    put_body request s _ (body_of_length-IsIdle _ (parse_number value) s)
read_request_body_by-reads_nothing request none (some encoding) s h = (refl, tt)
read_request_body_by-reads_nothing request none none s h = (refl, rw h tt)

-- For a request without a body, and whatever its fields are, read_request_body takes nothing from the stream,
-- and where it succeeds the request has no body or an empty one.
pub read_request_body-reads_nothing :
    (request : Request) (s : Stream)
    → request.body ≡ none
    → (let (r, s') = read_request_body request s in (s' ≡ s) × HasNoBytes r)
unfolding read_request_body
read_request_body-reads_nothing request s h = read_request_body_by-reads_nothing request _ _ s h
