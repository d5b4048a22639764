-- ===== src/Http2/Streams/Client.antt =====
-- `complete_preface`, `handle_client`, `handle_client_inner` and `handle_client_inner_join` of
-- servente-http2/src/lib.rs. The `select!` takes what comes first: its choices are a list of events.
use servente.Common.{
  ℕ, ◌+◌, ltb, Bool, false, not, Option, none, some, List, [], ◌∷◌, ◌++◌, Bytes, codes,
  if◌then◌else◌,
}
use servente.Common.Decimal.{decimal}
use servente.Common.HashMap.{map_get, map_remove}
use servente.Common.Exec.{◌>>=◌, ◌>>◌, raise, raise_if, modify, with_state}
use servente.Common.Result.{Result, ok, err}
use servente.Http.Response.{Response}
use servente.Http2.Errors.{DecompressionError}
use servente.Http2.Frame.{
  Frame, ErrorCode, no_error, protocol_error, internal_error, compression_error, enable_push,
  settings_no_rfc7540_priorities, go_away, reset_stream, settings, ping, settings_acknowledgement,
  unknown, frame_type,
}
use servente.Http2.Frame.Read.{
  ConnectionError, io, connection_error, stream_error, Failure, error, panic, stream_failure,
  control,
}
use servente.Http2.Streams.{
  RequestInTransit, StreamState, open_state, ConnectionState, Handler, new, put_stream, send,
  apply_settings, receive,
}
use servente.Http2.Streams.Receive.{refuse, handle_frame}
use servente.Http2.Streams.Send.{send_response}
use servente.Http2.Streams.Task.{RequestError, data_sum_does_not_equal_content_length}

-- The frame that ends the preface. An unknown one has no type to print, which panics.
unfoldable pub accept_preface : Frame → Handler (Unit {0})
unfolding apply_settings put_stream send frame_type
accept_preface (settings values) = do
  apply_settings values
  put_stream control (open_state none)
  send settings_acknowledgement
accept_preface unknown = raise panic
accept_preface frame =
    refuse protocol_error (
      codes "Expected a SETTINGS frame to finish preface, but got a: "
      ++ decimal (frame_type frame))

-- The `sleep` of three seconds that ends first.
unfoldable pub timer_round : ℕ → Handler (Unit {0})
unfolding send
timer_round pings_queued_up =
    if ltb 2 pings_queued_up
    then (do send (go_away control no_error (codes "Bye!")); raise (error ConnectionError.closed))
    else (do
      send (ping false (codes "servente"))
      modify (λ s. record s { pings_queued_up = s.pings_queued_up + 1 }))

unfoldable pub timer_elapsed : Handler (Unit {0})
unfolding timer_round
timer_elapsed = with_state (λ s. timer_round s.pings_queued_up)

pub data Phase : Type 0 where
  running ended : Phase

pub data Event : Type 0 where
  timer : Event
  frame_at : ℕ → Event
  received : ℕ → Bool → Result RequestError Response → Event

unfoldable pub give_up : ConnectionState → ℕ → ErrorCode → Bytes → Phase × ConnectionState
unfolding send
give_up s last_stream_id code text =
    (ended, let (r, s') = send (go_away last_stream_id code text) s in s')

-- The `match` on the error in the loop of `handle_client`.
unfoldable pub handle_failure : Failure → ConnectionState → Phase × ConnectionState
unfolding give_up send put_stream
handle_failure panic s = (ended, s)
handle_failure (error ConnectionError.closed) s = (ended, s)
handle_failure (error io) s = (ended, s)
handle_failure (error (connection_error code text)) s =
    give_up s s.connection.last_stream_id code text
handle_failure (error (stream_error code stream_id)) s =
    let (r, s') =
      (send (reset_stream stream_id code) >> put_stream stream_id StreamState.closed) s in
    (running, s')

-- The failure of the preface.
unfoldable pub preface_failure : Failure → ConnectionState → Phase × ConnectionState
unfolding give_up
preface_failure (error (connection_error code text)) s = give_up s control code text
preface_failure (error (stream_error code stream_id)) s =
    give_up s control code (codes "Stream Error on preface completion")
preface_failure _ s = (ended, s)

unfoldable pub outcome : {A : Type 0} → Result Failure A × ConnectionState → Phase × ConnectionState
unfolding handle_failure
outcome (ok a, s) = (running, s)
outcome (err e, s) = handle_failure e s

abbrev pub while_running :
    (ConnectionState → Phase × ConnectionState) → Phase × ConnectionState → Phase × ConnectionState
while_running next (running, s) = next s
while_running next (ended, s) = (ended, s)

-- The loops behind the preface.
abbrev pub enter :
    (ConnectionState → Phase × ConnectionState)
    → Result Failure (Unit {0}) × ConnectionState
    → Phase × ConnectionState
enter loops (ok u, s) = loops s
enter loops (err e, s) = preface_failure e s

-- The parameters are `String::from_utf8_lossy`, the debug text of an error with the number of its
-- stream, and those of `send_response`.
module _ (from_utf8_lossy : Bytes → Bytes) (debug_text : ℕ → DecompressionError → Bytes)
    (http_date : ℕ → Bytes) (file_reads : ℕ → ℕ → List (Option Bytes)) where
  unfoldable pub complete_preface : Handler (Unit {0})
  unfolding send receive accept_preface
  complete_preface = do
    send (settings ((settings_no_rfc7540_priorities, 1) ∷ (enable_push, 0) ∷ []))
    frame ← receive from_utf8_lossy
    accept_preface frame

  -- The `match` on the result of a request.
  unfoldable pub respond_with : ℕ → Result RequestError Response → Handler (Unit {0})
  unfolding send_response
  respond_with stream_id (ok response) = send_response http_date file_reads stream_id response
  respond_with stream_id (err data_sum_does_not_equal_content_length) =
      raise (stream_failure protocol_error stream_id)
  respond_with stream_id (err (RequestError.compression_error e)) =
      refuse compression_error (debug_text stream_id e)

  -- The flag says that the task did not panic.
  unfoldable pub join_request :
      ℕ → Bool → Result RequestError Response → Option RequestInTransit → Handler (Unit {0})
  unfolding respond_with
  join_request stream_id is_joined result none = respond_with stream_id result
  join_request stream_id is_joined result (some request) = do
    modify (λ s. record s { requests = map_remove stream_id s.requests })
    raise_if (not is_joined) (stream_failure internal_error stream_id)
    respond_with stream_id result

  unfoldable pub handle_client_inner_join :
      ℕ → Bool → Result RequestError Response → Handler (Unit {0})
  unfolding join_request
  handle_client_inner_join stream_id is_joined result =
      with_state (λ s. join_request stream_id is_joined result (map_get stream_id s.requests))

  -- One round of the loop of `handle_client_inner`.
  unfoldable pub handle_event : Event → Handler (Unit {0})
  unfolding timer_elapsed receive handle_frame handle_client_inner_join
  handle_event timer = timer_elapsed
  handle_event (frame_at now) = do
    frame ← receive from_utf8_lossy
    handle_frame from_utf8_lossy now frame
  handle_event (received stream_id is_joined result) =
      handle_client_inner_join stream_id is_joined result

  -- Both loops, for the rounds that the events are.
  unfoldable pub handle_events : List Event → ConnectionState → Phase × ConnectionState
  unfolding handle_event outcome
  handle_events [] s = (running, s)
  handle_events (event ∷ events) s =
      while_running (handle_events events) (outcome (handle_event event s))

  unfoldable pub handle_client : List Event → Bytes → Phase × ConnectionState
  unfolding new complete_preface handle_events preface_failure
  handle_client events input = enter (handle_events events) (complete_preface (new input))
