-- ===== src/Http2/Streams/Lengths.antt =====
-- The head and the Content-Length of a request that is answered, in `handle_request_inner` of servente-http2/src/lib.rs.
use servente.Common.{
  flatten, ℕ, ◌≡◌, refl, ap, sym, ◌∙◌, arith, Bool, true, false, Option, none, some, List, [], ◌∷◌,
  Bytes, length, length-append, Bool-cases, inl, inr, ◌==◌, if◌then◌else◌,
}
use servente.Common.Result.{Result, ok, err}
use mathlib.Core.Path.{subst}
use servente.Http.HeaderMap
use servente.Http.HeaderName.{content_length}
use servente.Http.HeaderValue.{HeaderValue, parse_number}
use servente.Http.Request.{Request}
use servente.Http.Response.{Response}
use servente.Http2.Errors.{DecompressionError}
use servente.Http2.Hpack.DynamicTable.{DynamicTable}
use servente.Http2.Decode.{decode_hpack_header_section}
use servente.Http2.Decode.Sections.{HasSameHead, decode_hpack_tailer_section-HasSameHead}
use servente.Http2.Transit.{HeadersInTransit}
use servente.Http2.Streams.{RequestInTransit}
use servente.Http2.Streams.Task.{
  decode_trailers, parsed_content_length, is_length_wrong, full_data_sum, answer, answer_to,
  trailers_of, handle_request_inner,
}

right_length : (o : Option ℕ) (sum n : ℕ) → is_length_wrong o sum ≡ false → o ≡ some n → n ≡ sum
unfolding is_length_wrong
right_length none sum n h e = cc
right_length (some m) sum n h e =
    let same : m ≡ sum = ground arith in let number : m ≡ n = cc in sym number ∙ same

ok-injective : {E A : Type 0} {a b : A} → Path (Result E A) (ok a) (ok b) → a ≡ b
ok-injective h = cc

passes :
    {E A : Type 0} (test : Bool) (e : E) {a b : A}
    → (if test then err e else ok a) ≡ ok b
    → (test ≡ false) × (a ≡ b)
passes true e h = cc
passes false e h = (refl, ok-injective h)

parsed_content_length-eq-some :
    (request : Request) (value : HeaderValue) (n : ℕ)
    → HeaderMap.get request.headers content_length ≡ some value
    → parse_number value ≡ some n
    → parsed_content_length request ≡ some n
unfolding parsed_content_length
parsed_content_length-eq-some request value n h h' = rw (parsed_content_length, h) h'

full_data_sum-eq-length :
    (payloads : List Bytes) → full_data_sum payloads ≡ length (flatten payloads)
unfolding full_data_sum
full_data_sum-eq-length [] = refl
full_data_sum-eq-length (payload ∷ payloads) =
    omega (arith, length-append payload (flatten payloads), full_data_sum-eq-length payloads)

same_head : (request : Request) → HasSameHead request request
same_head request = record { method = refl; target = refl; version = refl; body = refl }

-- A request that has been decoded has all of another one but its fields.
abbrev HasHeadOf : Request → Result DecompressionError Request → Type 0
HasHeadOf first (ok decoded) = HasSameHead first decoded
HasHeadOf first (err e) = Unit {0}

HasHeadOf-elim :
    (first later : Request) (r : Result DecompressionError (Unit {0}))
    → HasSameHead first later
    → HasHeadOf first
        (elim r as (λ x. Result DecompressionError Request) [ ok u ↦ ok later | err e ↦ err e ])
HasHeadOf-elim first later (ok u) same = same
HasHeadOf-elim first later (err e) same = tt

module _ (http_date : ℕ → Bytes) (respond : Request → Response) where
  -- The request that its header section and its trailer section decode to.
  abbrev sections_of :
      RequestInTransit → DynamicTable → Result DecompressionError Request × DynamicTable
  sections_of request table =
      trailers_of http_date respond request.trailers
        (decode_hpack_header_section http_date request.headers table)

  decode_trailers-HasHeadOf :
      (trailers : HeadersInTransit) (table : DynamicTable) (first : Request)
      → HasHeadOf first ((decode_trailers http_date respond trailers table first).0)
  unfolding decode_trailers
  decode_trailers-HasHeadOf trailers table first =
      elim (Bool-cases (length trailers.headers == 0)) [
        | inl none_due ↦ rw (decode_trailers, none_due) (same_head first)
        | inr some_due ↦
            let same = decode_hpack_tailer_section-HasSameHead http_date trailers table first in
            rw (decode_trailers, some_due) (HasHeadOf-elim first _ _ same)
      ]

  trailers_of-HasHeadOf :
      (trailers : HeadersInTransit) (r : Result DecompressionError Request × DynamicTable)
      (decoded : Request)
      → (trailers_of http_date respond trailers r).0 ≡ ok decoded
      → (first : Request) × (r.0 ≡ ok first) × HasSameHead first decoded
  unfolding trailers_of
  trailers_of-HasHeadOf trailers (err e, table) decoded h = cc
  trailers_of-HasHeadOf trailers (ok first, table) decoded h =
      (first, refl, subst (HasHeadOf first) h (decode_trailers-HasHeadOf trailers table first))

  answer_to-eq-ok :
      (payloads : List Bytes) (r : Result DecompressionError Request × DynamicTable)
      (response : Response) (table : DynamicTable)
      → answer_to http_date respond payloads r ≡ (ok response, table)
      → (request : Request) × ((let (decoded, t) = r in decoded) ≡ ok request)
        × (respond request ≡ response)
        × ((n : ℕ) → parsed_content_length request ≡ some n → n ≡ full_data_sum payloads)
  unfolding answer_to answer
  answer_to-eq-ok payloads (err e, t) response table h = cc
  answer_to-eq-ok payloads (ok request, t) response table h =
      let passed = passes _ _ (ap (λ p. p.0) h) in
      (request, refl, passed.1, λ n e. right_length _ (full_data_sum payloads) n passed.0 e)

  -- Where handle_request_inner gives a response, the header section decodes to a request, and the response is the
  -- answer to a request with the method, the target, the version and the body of that one, whatever the trailer
  -- section is; where the request that is answered has a Content-Length that is a number, it is the length of
  -- the DATA payloads one behind another.
  pub handle_request_inner-HasSameHead :
      (request : RequestInTransit) (table table' : DynamicTable) (response : Response)
      → handle_request_inner http_date respond request table ≡ (ok response, table')
      → (first decoded : Request) × ((decode_hpack_header_section http_date request.headers table).0
          ≡ ok first)
        × HasSameHead first decoded
        × (respond decoded ≡ response)
        × ((value : HeaderValue) (n : ℕ)
            → HeaderMap.get decoded.headers content_length ≡ some value
            → parse_number value ≡ some n
            → n ≡ length (flatten request.body))
  unfolding handle_request_inner
  handle_request_inner-HasSameHead request table table' response h =
      let (decoded, sections, answered, right) =
        answer_to-eq-ok request.body (sections_of request table) response table' h in
      let (first, head, same) =
        trailers_of-HasHeadOf request.trailers
          (decode_hpack_header_section http_date request.headers table) decoded sections in
      (
        first,
        decoded,
        head,
        same,
        answered,
        λ value n at number.
            right n (parsed_content_length-eq-some decoded value n at number)
            ∙ full_data_sum-eq-length request.body,
      )
