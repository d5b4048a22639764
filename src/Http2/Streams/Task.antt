-- ===== src/Http2/Streams/Task.antt =====
-- The task of a request, `handle_request_inner` of servente-http2/src/lib.rs. What
-- servente_http_handling makes of a request is a parameter, as is the text of a date.
use servente.Common.{
  ℕ, ◌+◌, ◌==◌, Bool, false, not, Option, none, some, List, [], ◌∷◌, Bytes, length, if◌then◌else◌,
}
use servente.Common.Result.{Result, ok, err}
use servente.Http.HeaderMap
use servente.Http.HeaderName.{content_length}
use servente.Http.HeaderValue.{parse_number}
use servente.Http.Request.{Request}
use servente.Http.Response.{Response}
use servente.Http2.Transit.{HeadersInTransit}
use servente.Http2.Errors.{DecompressionError}
use servente.Http2.Hpack.DynamicTable.{DynamicTable}
use servente.Http2.Decode.{decode_hpack_header_section, decode_hpack_tailer_section}
use servente.Http2.Streams.{RequestInTransit}

pub data RequestError : Type 0 where
  compression_error : DecompressionError → RequestError
  data_sum_does_not_equal_content_length : RequestError

-- The sum of the lengths of the DATA payloads.
unfoldable pub full_data_sum : List Bytes → ℕ
full_data_sum [] = 0
full_data_sum (payload ∷ more) = length payload + full_data_sum more

-- The Content-Length of a request, where it has one that is a number.
unfoldable pub parsed_content_length : Request → Option ℕ
unfolding HeaderMap.get parse_number
parsed_content_length request = elim (HeaderMap.get request.headers content_length) [
  | none ↦ none
  | some value ↦ parse_number value
]

unfoldable pub is_length_wrong : Option ℕ → ℕ → Bool
is_length_wrong none sum = false
is_length_wrong (some n) sum = not (n == sum)

module _ (http_date : ℕ → Bytes) (respond : Request → Response) where
  -- Behind the decoding.
  unfoldable pub answer : List Bytes → Request → Result RequestError Response
  unfolding full_data_sum parsed_content_length is_length_wrong
  answer payloads request =
      if is_length_wrong (parsed_content_length request) (full_data_sum payloads)
      then err data_sum_does_not_equal_content_length
      else ok (respond request)

  unfoldable pub decode_trailers :
      HeadersInTransit → DynamicTable → Request → Result DecompressionError Request × DynamicTable
  unfolding decode_hpack_tailer_section
  decode_trailers trailers table request =
      if length trailers.headers == 0
      then (ok request, table)
      else let (r, table', request') =
          decode_hpack_tailer_section http_date trailers table request in
        ((elim r [ ok u ↦ ok request' | err e ↦ err e ]), table')

  unfoldable pub answer_to :
      List Bytes
      → Result DecompressionError Request × DynamicTable
      → Result RequestError Response × DynamicTable
  unfolding answer
  answer_to payloads (err e, table) = (err (compression_error e), table)
  answer_to payloads (ok request, table) = (answer payloads request, table)

  unfoldable pub trailers_of :
      HeadersInTransit
      → Result DecompressionError Request × DynamicTable
      → Result DecompressionError Request × DynamicTable
  unfolding decode_trailers
  trailers_of trailers (err e, table) = (err e, table)
  trailers_of trailers (ok request, table) = decode_trailers trailers table request

  unfoldable pub handle_request_inner :
      RequestInTransit → DynamicTable → Result RequestError Response × DynamicTable
  unfolding decode_hpack_header_section trailers_of answer_to
  handle_request_inner request table =
      answer_to request.body
        (trailers_of request.trailers (decode_hpack_header_section http_date request.headers table))
