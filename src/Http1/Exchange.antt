-- ===== src/Http1/Exchange.antt =====
-- `handle_exchange`, `handle_pri_method` and the loop of `process_socket`, of servente-http1/src/lib.rs. The
-- state is what the client sends and what has been written to it.
pub mod Order
pub mod Upgrade
use servente.Common.{
  ℕ, zero, suc, ◌+◌, ◌==◌, Bool, true, false, not, Option, none, some, List, [], ◌∷◌, ◌++◌, Bytes,
  codes, length, flatten, get_or, if◌then◌else◌,
}
use servente.Common.Decimal.{decimal}
use servente.Common.Exec.{Exec, ◌>>=◌, ◌>>◌, return, raise, with_state}
use servente.Common.Result.{Result, ok, err}
use servente.Handling.{finish_response_error, finish_response_normal, create_request_timeout}
use servente.Handling
use servente.Handling.Handlers.{HandlerController, method_eq}
use servente.Handling.Files.{field_text}
use servente.Handling.Requests.{Answer, Middleware, handle_parse_error, handle_request}
use servente.Handling.Server.{Server}
use servente.Http.Error.{
  HttpParseError, Error, parse_error, other, panic, invalid_http2_pri_upgrade_body,
}
use servente.Http.HeaderMap
use servente.Http.HeaderMap.{append_or_override, is_empty}
use servente.Http.HeaderName.{connection, range}
use servente.Http.HeaderValue
use servente.Http.HeaderValue.{ContentCoding}
use servente.Http.Lists.{Weights}
use servente.Http.Method
use servente.Http.Range
use servente.Http.Range.{Range}
use servente.Http.Request.{Request, HttpVersion, http2, BodyKind, file}
use servente.Http.Response.{Response, with_status, with_status_and_string_body}
use servente.Http.StatusCode
use servente.Http.StatusCode.{StatusCode}
use servente.Http1.Read.{read_request_excluding_body, read_request_body, maximum_header}
use servente.Http1.Stream.{Stream, Reader, consume_exact_verify, read_crlf_line}
use servente.Http1.Transfer.{Writer, send_response}
use servente.Http1.Wire.{
  ExchangeError, malformed_data, http2_upgrade, timed_out, io, panicked, Wire, Exchange, run_reader,
  io_error, written, run_writer, attempted, try_writer, pri_byte, frame_http_1_1_required,
  discard_lines, discard_request, http_upgrade_message,
}

-- Whether the headers and the body of a request came too late.
pub record Timing : Type 0 where
  pub is_headers_late : Bool
  pub is_body_late : Bool

-- What a connection comes to: it waits for another exchange, goes on as one of HTTP/2, or is closed.
pub data Outcome : Type 0 where
  still_open upgraded : Outcome
  closed : ExchangeError → Outcome

abbrev pub after : ExchangeError → Outcome
after http2_upgrade = upgraded
after e = closed e

-- An error ends the loop.
abbrev pub next_exchange :
    (Wire → Outcome × Wire) → Result ExchangeError (Unit {0}) × Wire → Outcome × Wire
next_exchange go_on (ok u, wire) = go_on wire
next_exchange go_on (err e, wire) = (after e, wire)

-- The answer to a request, the text of an error, whether a descriptor is that of a file, the reads of files
-- and the compression.
module _ (s : Server) (handle : Request → Answer) (as_ref : HttpParseError → Bytes)
    (is_file : ℕ → Bool) (file_reads : ℕ → ℕ → ℕ → List (Option Bytes)) (file_end : ℕ → ℕ)
    (encode : ContentCoding → Bytes → Bytes) where
  unfoldable pub finish_error : Response → Response
  unfolding finish_response_error
  finish_error response =
      finish_response_error s.http_date s.has_http2 s.has_http3 s.now s.modified response

  unfoldable pub finish_normal : Request → Response → Response
  unfolding finish_response_normal
  finish_normal request response =
      finish_response_normal s.http_date s.has_http2 s.has_http3 s.now s.modified request response

  unfoldable pub send : Response → Option (List Range) → Writer
  unfolding send_response
  send response ranges = send_response file_reads file_end s.http_date encode response ranges

  unfoldable pub request_timeout : {A : Type 0} → Exchange A
  unfolding try_writer send create_request_timeout
  request_timeout = do
    try_writer
        (send (create_request_timeout s.http_date s.has_http2 s.has_http3 s.now s.modified) none)
    raise timed_out

  -- A response that ends the connection, which is told so.
  unfoldable pub refuse : {A : Type 0} → Response → Exchange A
  unfolding run_writer send finish_error
  refuse response = do run_writer (send (finish_error response) none); raise malformed_data

  -- The errors of both reads.
  unfoldable pub checked : {A : Type 0} → Result Error A → Exchange A
  unfolding refuse handle_parse_error
  checked (ok a) = return a
  checked (err (parse_error error)) = refuse (handle_parse_error as_ref error)
  checked (err other) = raise io
  checked (err panic) = raise panicked

  unfoldable pub close_with : {A : Type 0} → StatusCode → Bytes → Exchange A
  unfolding refuse with_status_and_string_body append_or_override
  close_with status message =
      let response = with_status_and_string_body status (BodyKind.static_string message) in
      refuse (record response {
        headers =
            append_or_override response.headers connection
              (HeaderValue.static_string (codes "close"));
      })

  unfoldable pub is_http2 : HttpVersion → Bool
  is_http2 http2 = true
  is_http2 _ = false

  -- Behind the magic octets: the version and the absence of fields.
  unfoldable pub upgrade : Request → Exchange (Unit {0})
  unfolding is_http2 close_with is_empty
  upgrade request =
      if not (is_http2 request.version)
      then close_with StatusCode.http_version_not_supported
          (codes "Invalid HTTP upgrade using PRI: expected version HTTP/2.0")
      else if not (is_empty request.headers)
      then close_with StatusCode.bad_request (codes "Invalid preface start request")
      else if s.has_http2
      then raise http2_upgrade
      else (do
        run_writer (λ output. (ok tt, output ++ frame_http_1_1_required))
        raise malformed_data)

  -- An error of I/O in the magic octets is passed over, like any other than this one.
  unfoldable pub checked_magic : Request → Result Error Bytes → Exchange (Unit {0})
  unfolding close_with upgrade
  checked_magic request (err (parse_error invalid_http2_pri_upgrade_body)) =
      close_with StatusCode.bad_request (codes "Invalid HTTP/2 PRI upgrade body")
  checked_magic request (err panic) = raise panicked
  checked_magic request r = upgrade request

  unfoldable pub handle_pri_method : Request → Exchange (Unit {0})
  unfolding run_reader consume_exact_verify pri_byte checked_magic
  handle_pri_method request =
      run_reader (consume_exact_verify 8 pri_byte) >>= λ r. checked_magic request r

  -- The ranges of the request, where they are read as such.
  unfoldable pub requested_ranges : Request → Option (List Range)
  unfolding field_text Range.parse
  requested_ranges request = elim (field_text request.headers range) [
    | none ↦ none
    | some text ↦ Range.parse text
  ]

  unfoldable pub is_other_file : Option BodyKind → Bool
  is_other_file (some (file handle len)) = not (is_file handle)
  is_other_file _ = false

  -- A response that is finished. A file that is none ends the exchange with an error of the server.
  unfoldable pub answer_with : Request → Response → Exchange (Unit {0})
  unfolding is_other_file run_writer send requested_ranges finish_error with_status
  answer_with request response =
      if is_other_file response.body
      then run_writer (send (finish_error (with_status StatusCode.internal_server_error)) none)
      else run_writer (send response (requested_ranges request))

  unfoldable pub respond_to : Request → Exchange (Unit {0})
  unfolding answer_with finish_normal
  respond_to request = elim (handle request) [
    | none ↦ raise panicked
    | some response ↦ answer_with request (finish_normal request response)
  ]

  -- A request with a method other than PRI.
  unfoldable pub handle_body : Bool → Request → Exchange (Unit {0})
  unfolding request_timeout run_reader read_request_body checked respond_to
  handle_body is_late request = if is_late then request_timeout else (do
    body_result ← run_reader (read_request_body request)
    with_body ← checked body_result
    respond_to with_body)

  unfoldable pub handle_head : Timing → Request → Exchange (Unit {0})
  unfolding method_eq handle_pri_method handle_body
  handle_head timing request =
      if method_eq request.method Method.pri
      then handle_pri_method request
      else handle_body timing.is_body_late request

  unfoldable pub handle_exchange : Timing → Exchange (Unit {0})
  unfolding request_timeout run_reader read_request_excluding_body checked handle_head
  handle_exchange timing = if timing.is_headers_late then request_timeout else (do
    result ← run_reader (read_request_excluding_body s.http_date)
    request ← checked result
    handle_head timing request)

  -- The loop of `process_socket`, over as many exchanges as there are timings.
  unfoldable pub process_exchanges : List Timing → Wire → Outcome × Wire
  unfolding handle_exchange
  process_exchanges [] wire = (still_open, wire)
  process_exchanges (timing ∷ timings) wire =
      next_exchange (process_exchanges timings) (handle_exchange timing wire)

-- A connection with the handlers, the middleware and the files of the server.
module _ {Weight : Type 0} (s : Server) (w : Weights Weight) (parse_f32 : Bytes → Option Weight)
    (as_ref : HttpParseError → Bytes) (is_file : ℕ → Bool)
    (file_reads : ℕ → ℕ → ℕ → List (Option Bytes)) (file_end : ℕ → ℕ)
    (encode : ContentCoding → Bytes → Bytes) where
  unfoldable pub process_socket :
      HandlerController → List Middleware → List Timing → Stream → Outcome × Wire
  unfolding process_exchanges handle_request finish_error
  process_socket controller middleware timings stream =
      process_exchanges s
        (λ request.
          handle_request s w parse_f32
            (Handling.finish_response_general s.http_date s.has_http2 s.has_http3 s.now s.modified)
            controller middleware request)
        as_ref is_file file_reads file_end encode timings
        (record { incoming = stream; output = [] })
