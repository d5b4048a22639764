-- ===== src/Http2/Streams/Receive.antt =====
-- The handlers of the frames that a client sends: `handle_frame` and the functions that it calls, of
-- servente-http2/src/lib.rs.
use servente.Common.{
  ℕ, zero, suc, ◌+◌, ◌==◌, ltb, Bool, true, false, not, Option, none, some, List, [], ◌∷◌, ◌++◌,
  Bytes, codes, length, if◌then◌else◌,
}
use servente.Common.HashMap.{map_get, map_insert}
use servente.Common.Exec.{◌>>=◌, ◌>>◌, return, raise, raise_if, modify, with_state}
use servente.Http2.Frame.{
  Frame, ErrorCode, protocol_error, stream_closed, inadequate_security, go_away, window_update,
  reset_stream, ping, settings_acknowledgement, continuation,
}
use servente.Http2.Frame.Read.{ConnectionError, error, connection_failure, stream_failure, control}
use servente.Http2.Streams.{
  RequestInTransit, StreamState, idle, open_state, half_closed_remote, closed, Handler,
  client_may_send_headers, client_may_send_window_update, put_stream, send, apply_settings, receive,
}

-- A connection error with its text.
abbrev pub refuse : {A : Type 0} → ErrorCode → Bytes → Handler A
refuse code text = raise (connection_failure code text)

-- The task that is spawned is the request that it has.
unfoldable pub handle_request_invoke_to_background : ℕ → RequestInTransit → Handler (Unit {0})
unfolding put_stream
handle_request_invoke_to_background stream_id request = do
  put_stream stream_id half_closed_remote
  modify (λ s. record s { requests = map_insert stream_id request s.requests })

-- DATA on a stream with an entry, by its state.
unfoldable pub data_on : Bool → ℕ → Bytes → Option StreamState → Handler (Unit {0})
unfolding put_stream handle_request_invoke_to_background
data_on end_stream stream_id payload (some (open_state (some request))) = do
  raise_if (not (stream_id == request.stream_id))
      (connection_failure protocol_error (codes "Unexpected DATA frame for stream mismatch"))
  raise_if (not (length request.trailers.headers == 0))
      (connection_failure protocol_error (codes "Sent DATA after trailers"))
  let whole = record request { body = request.body ++ payload ∷ [] }
  if end_stream
      then handle_request_invoke_to_background stream_id whole
      else put_stream stream_id (open_state (some whole))
data_on end_stream stream_id payload (some (open_state none)) =
    refuse stream_closed (codes "DATA before (end) HEADERS")
data_on end_stream stream_id payload _ = refuse stream_closed (codes "DATA on non-open stream")

unfoldable pub handle_frame_data : Bool → ℕ → Bytes → Handler (Unit {0})
unfolding data_on
handle_frame_data end_stream stream_id payload = do
  raise_if (stream_id == control)
      (connection_failure protocol_error (codes "DATA on control stream"))
  with_state (λ s. data_on end_stream stream_id payload (map_get stream_id s.streams))

unfoldable pub reset_on : ℕ → Option StreamState → Handler (Unit {0})
unfolding put_stream
reset_on stream_id none = refuse protocol_error (codes "RST_STREAM on idle stream (never sent)")
reset_on stream_id (some idle) = refuse protocol_error (codes "RST_STREAM on idle stream")
reset_on stream_id (some state) = put_stream stream_id closed

unfoldable pub handle_frame_rst_stream : ℕ → Handler (Unit {0})
unfolding reset_on
handle_frame_rst_stream stream_id = do
  raise_if (stream_id == control)
      (connection_failure protocol_error (codes "RST_STREAM on control stream"))
  with_state (λ s. reset_on stream_id (map_get stream_id s.streams))

unfoldable pub window_update_on : Option StreamState → Handler (Unit {0})
unfolding client_may_send_window_update
window_update_on none = refuse protocol_error (codes "WINDOW_UPDATE on idle stream")
window_update_on (some state) =
    raise_if (not (client_may_send_window_update state))
      (connection_failure protocol_error (codes "Can't send WINDOW_UPDATE on this stream"))

unfoldable pub handle_frame_window_update : ℕ → ℕ → Handler (Unit {0})
unfolding window_update_on
handle_frame_window_update stream_id window_size_increment =
    if window_size_increment == 0
    then (if stream_id == control
        then refuse protocol_error (codes "WINDOW_UPDATE with 0 size on control stream")
        else raise (stream_failure protocol_error stream_id))
    else with_state (λ s. window_update_on (map_get stream_id s.streams))

-- What a frame adds to a header block. In the builds that do not stop at a `debug_assert`, a frame
-- that is not a CONTINUATION adds nothing.
unfoldable pub continuation_payload : Frame → List Bytes
continuation_payload (continuation end_headers stream_id payload) = payload ∷ []
continuation_payload _ = []

-- The first parameter is `String::from_utf8_lossy`, the second the time.
module _ (from_utf8_lossy : Bytes → Bytes) (now : ℕ) where
  -- `while connection.continuation.is_some()`. Each round reads a frame.
  unfoldable pub read_continuation : Handler (List Bytes) → Option ℕ → Handler (List Bytes)
  unfolding receive continuation_payload
  read_continuation later none = return []
  read_continuation later (some stream_id) = do
    frame ← receive from_utf8_lossy
    payloads ← later
    return (continuation_payload frame ++ payloads)

  unfoldable pub read_continuations_loop : ℕ → Handler (List Bytes)
  unfolding read_continuation
  read_continuations_loop zero = return []
  read_continuations_loop (suc fuel) =
      let later = read_continuations_loop fuel in
      with_state (λ s. read_continuation later s.connection.continuation_stream)

  unfoldable pub read_continuations : Handler (List Bytes)
  unfolding read_continuations_loop
  read_continuations = with_state (λ s. read_continuations_loop (length s.input + 1))

  -- HEADERS that are the trailers of the request, which is taken out of the stream first.
  unfoldable pub handle_trailers : Bool → ℕ → Bytes → RequestInTransit → Handler (Unit {0})
  unfolding put_stream read_continuations handle_request_invoke_to_background
  handle_trailers end_stream stream_id payload request = do
    put_stream stream_id (open_state none)
    raise_if (not (length request.trailers.headers == 0))
        (connection_failure inadequate_security (codes "Duplicate trailers"))
    raise_if (not end_stream) (
        connection_failure protocol_error
          (codes "Trailing HEADERS without the END_STREAM flag set"))
    put_stream stream_id half_closed_remote
    payloads ← read_continuations
    let whole = record request {
      trailers = record (request.trailers) {
        headers = request.trailers.headers ++ payload ∷ payloads;
      };
    }
    if end_stream then handle_request_invoke_to_background stream_id whole else return tt

  -- HEADERS of a new request.
  unfoldable pub handle_new_request : Bool → ℕ → Bytes → Handler (Unit {0})
  unfolding put_stream read_continuations handle_request_invoke_to_background
  handle_new_request end_stream stream_id payload = do
    with_state (λ s. raise_if (ltb stream_id s.connection.highest_stream_id) (
        connection_failure protocol_error
          (codes "New stream IDs must be greater than all the previous initiated streams")))
    payloads ← read_continuations
    let request : RequestInTransit = record {
      stream_id = stream_id;
      headers = record { headers = payload ∷ payloads; cursor = 0 };
      trailers = record { headers = []; cursor = 0 };
      body = [];
    }
    if end_stream
        then handle_request_invoke_to_background stream_id request
        else put_stream stream_id (open_state (some request))

  -- HEADERS by the state of the stream.
  unfoldable pub headers_on : Bool → ℕ → Bytes → Option StreamState → Handler (Unit {0})
  unfolding client_may_send_headers handle_trailers handle_new_request
  headers_on end_stream stream_id payload none = handle_new_request end_stream stream_id payload
  headers_on end_stream stream_id payload (some (open_state (some request))) =
      handle_trailers end_stream stream_id payload request
  headers_on end_stream stream_id payload (some state) = do
    raise_if (not (client_may_send_headers state))
        (connection_failure stream_closed (codes "HEADERS on invalid stream"))
    handle_new_request end_stream stream_id payload

  unfoldable pub handle_frame_headers : Bool → ℕ → Bytes → Handler (Unit {0})
  unfolding headers_on
  handle_frame_headers end_stream stream_id payload = do
    raise_if (stream_id == control)
        (connection_failure protocol_error (codes "HEADERS on control stream"))
    with_state (λ s. headers_on end_stream stream_id payload (map_get stream_id s.streams))

  unfoldable pub handle_frame : Frame → Handler (Unit {0})
  unfolding handle_frame_data handle_frame_headers handle_frame_rst_stream
      handle_frame_window_update send apply_settings
  handle_frame (Frame.data_frame end_stream stream_id payload) =
      handle_frame_data end_stream stream_id payload
  handle_frame (Frame.headers end_headers end_stream stream_id payload) =
      handle_frame_headers end_stream stream_id payload
  handle_frame (go_away last_stream_id error_code additional_debug_data) =
      raise (error ConnectionError.closed)
  handle_frame (reset_stream stream_id error_code) = handle_frame_rst_stream stream_id
  handle_frame (ping true payload) = modify (λ s. record s { last_ping_acknowledged = some now })
  handle_frame (ping false payload) = send (ping true payload)
  handle_frame (Frame.settings values) = do apply_settings values; send settings_acknowledgement
  handle_frame (window_update stream_id window_size_increment) =
      handle_frame_window_update stream_id window_size_increment
  handle_frame _ = return tt
