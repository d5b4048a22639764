-- ===== src/Http2/Streams.antt =====
-- The state of an HTTP/2 connection and the streams on it, of servente-http2/src/lib.rs: what the
-- struct `Connection` and the running requests of `ConcurrentContext` hold, the reader as the octets
-- that are to come, and the writer as the octets written, which never fails.
pub mod Send
pub mod Receive
pub mod Client
pub mod Task
pub mod Chunks
pub mod Moves
pub mod Follows
pub mod Continuations
pub mod Lengths
pub mod Trails
pub mod Timer
use servente.Common.{ℕ, ◌+◌, Bool, true, false, Option, none, some, List, [], ◌∷◌, ◌++◌, Bytes}
use servente.Common.HashMap.{map_insert}
use servente.Common.Exec.{Exec, modify}
use servente.Common.Result.{Result}
use servente.Http2.Transit.{HeadersInTransit}
use servente.Http2.Frame.{Frame, SettingKind, max_frame_size, default_value, send_frame}
use servente.Http2.Frame.Read.{Connection, ConnectionError, Failure, read_frame}

pub record RequestInTransit : Type 0 where
  pub stream_id : ℕ
  pub headers : HeadersInTransit
  pub trailers : HeadersInTransit
  pub body : List Bytes

pub data StreamState : Type 0 where
  idle : StreamState
  open_state : Option RequestInTransit → StreamState
  half_closed_remote closed : StreamState

unfoldable pub client_may_send_headers : StreamState → Bool
client_may_send_headers idle = true
client_may_send_headers (open_state request) = true
client_may_send_headers half_closed_remote = false
client_may_send_headers closed = false

unfoldable pub client_may_send_window_update : StreamState → Bool
client_may_send_window_update idle = false
client_may_send_window_update (open_state request) = true
client_may_send_window_update half_closed_remote = true
client_may_send_window_update closed = false

unfoldable pub into_request : StreamState → Option RequestInTransit
into_request (open_state request) = request
into_request idle = none
into_request half_closed_remote = none
into_request closed = none

-- The fields of `Connection` that read_frame has a part in are a record of their own. A time is a number.
pub record ConnectionState : Type 0 where
  pub connection : Connection
  pub input : Bytes
  pub output : Bytes
  pub streams : List (ℕ × StreamState)
  pub last_ping_acknowledged : Option ℕ
  pub pings_queued_up : ℕ
  pub requests : List (ℕ × RequestInTransit)

abbrev pub Handler : Type 0 → Type 0
Handler A = Exec Failure ConnectionState A

-- `Connection::new`, with the octets that the reader will give.
unfoldable pub new : Bytes → ConnectionState
unfolding default_value
new input = record {
  connection = record {
    maximum_payload_size = default_value max_frame_size;
    continuation_stream = none;
    last_stream_id = 0;
    highest_stream_id = 0;
  };
  input = input;
  output = [];
  streams = [];
  last_ping_acknowledged = none;
  pings_queued_up = 0;
  requests = [];
}

-- `Settings::apply`, on the one setting that is kept.
unfoldable pub apply : ℕ → List (SettingKind × ℕ) → ℕ
apply maximum_payload_size [] = maximum_payload_size
apply maximum_payload_size ((max_frame_size, value) ∷ settings) = apply value settings
apply maximum_payload_size ((kind, value) ∷ settings) = apply maximum_payload_size settings

-- `self.streams.insert`, or a change of the state that is there.
unfoldable pub put_stream : ℕ → StreamState → Handler (Unit {0})
put_stream stream_id state =
    modify (λ s. record s { streams = map_insert stream_id state s.streams })

-- `send_frame_with_flush` and `Connection::send_frame`.
unfoldable pub send : Frame → Handler (Unit {0})
send frame = modify (λ s. record s { output = s.output ++ send_frame frame })

unfoldable pub apply_settings : List (SettingKind × ℕ) → Handler (Unit {0})
unfolding apply
apply_settings settings = modify (λ s. record s {
  connection = record (s.connection) {
    maximum_payload_size = apply s.connection.maximum_payload_size settings;
  };
})

-- `Connection::read_frame` on the reader's octets.
unfoldable pub receive : (Bytes → Bytes) → Handler Frame
receive from_utf8_lossy s =
    let (frame, c, input) = read_frame from_utf8_lossy s.connection s.input in
    (frame, record s { connection = c; input = input })
