-- ===== src/Tests/Streams.antt =====
-- The theorems on connections and streams, at concrete inputs.
use servente.Common.{
  ℕ, ◌≡◌, refl, arith, true, false, Option, some, List, [], ◌∷◌, ◌++◌, Bytes, codes, flatten, map,
  length, All,
}
use servente.Common.HashMap.{map_get}
use servente.Common.Result.{ok}
use servente.Http.HeaderMap
use servente.Http.HeaderName.{content_length}
use servente.Http.HeaderValue.{HeaderValue, parse_number}
use servente.Http2.Decode.{decode_hpack_header_section}
use servente.Http2.Decode.Sections.{HasSameHead}
use servente.Http.Request.{Request}
use servente.Http.Response.{Response, not_found_response}
use servente.Http2.Errors.{DecompressionError}
use servente.Http2.Frame.{data_frame, headers, settings, ping, send_frame}
use servente.Common.Utf8.{from_utf8}
use servente.Http2.Decode.Monad
use servente.Http2.Decode.Monad.{from_request, with_table, with_sink, lift}
use servente.Http2.Transit.{read_u8, peek_u8, read_integer, read_integer_loop}
use servente.Http2.ReadString.{read_string, read_octets}
use servente.Http2.Hpack.DynamicTable
use servente.Http2.Hpack.DynamicTable.{DynamicTable}
use servente.Http2.Streams.{RequestInTransit, closed, ConnectionState, new}
use servente.Http2.Streams.Chunks.{IsPart, data_frames, send_data_frame_from_slice-data_frames}
use servente.Http2.Streams.Client.{
  Event, timer, frame_at, received, Phase, ended, handle_client, handle_events,
}
use servente.Http2.Streams.Continuations.RoundTrip.{
  continuation_frames, continued_by, read_continuations-continuation_frames,
}
use servente.Http2.Streams.Lengths.{handle_request_inner-HasSameHead}
use servente.Http2.Streams.Moves.{IsTidy, is_closed}
use servente.Http2.Streams.Receive.{read_continuations}
use servente.Http2.Streams.Send.{chunks, send_data_frame_from_slice}
use servente.Http2.Streams.Task.{handle_request_inner}
use servente.Http2.Streams.Timer.{handle_client-timers}
use servente.Http2.Streams.Trails.{
  Follows, handle_events-Follows, handle_events-is_closed, handle_client-IsTidy,
}

abbrev plain : Bytes → Bytes
plain text = text

abbrev no_text : ℕ → DecompressionError → Bytes
no_text stream_id e = []

abbrev date : ℕ → Bytes
date time = []

abbrev reads : ℕ → ℕ → List (Option Bytes)
reads handle size = []

abbrev client : List Event → Bytes → Phase × ConnectionState
client = handle_client plain no_text date reads

abbrev loops : List Event → ConnectionState → Phase × ConnectionState
loops = handle_events plain no_text date reads

-- GET / with the Content-Length 1, and its DATA.
abbrev block : Bytes
block = 0x82 ∷ 0x84 ∷ 0x86 ∷ 0x0f ∷ 0x0d ∷ 0x01 ∷ b'1' ∷ []

abbrev request_frames : Bytes
request_frames = send_frame (headers true false 1 block) ++ send_frame (data_frame true 1 (7 ∷ []))

-- Settings, a request, and an acknowledged ping.
abbrev sent : Bytes
sent = send_frame (settings []) ++ request_frames ++ send_frame (ping true (codes "servente"))

abbrev answer : Event
answer = received 1 true (ok (not_found_response (codes "nothing")))

abbrev rounds : List Event
rounds = timer ∷ frame_at 1 ∷ timer ∷ frame_at 2 ∷ timer ∷ frame_at 3 ∷ answer ∷ timer ∷ []

-- The stream 1 is closed, and its request comes again.
abbrev behind : ConnectionState
behind = record (new request_frames) { streams = (1, closed) ∷ [] }

handle_events-Follows_example :
    Follows (new request_frames) (let (phase, s) = loops rounds (new request_frames) in s)
handle_events-Follows_example =
    handle_events-Follows plain no_text date reads rounds (new request_frames)

handle_events-is_closed_example :
    is_closed (map_get 1 (let (phase, s) = loops (frame_at 1 ∷ []) behind in s.streams)) ≡ true
unfolding is_closed map_get
handle_events-is_closed_example =
    handle_events-is_closed plain no_text date reads (frame_at 1 ∷ []) behind 1 refl

handle_client-IsTidy_example :
    IsTidy 1 (map_get 1 (let (phase, s) = client (frame_at 1 ∷ []) sent in s.streams))
handle_client-IsTidy_example =
    handle_client-IsTidy plain no_text date reads (frame_at 1 ∷ []) sent 1

handle_client-timers_example : (let (phase, s) = client rounds sent in phase) ≡ ended
handle_client-timers_example =
    handle_client-timers plain no_text date reads rounds sent (omega arith)

send_data_frame_from_slice-data_frames_example :
    let parts = chunks 16384 (7 ∷ 8 ∷ []) in
    (send_data_frame_from_slice 1 (7 ∷ 8 ∷ []) (new [])
      ≡ (ok tt, record (new []) { output = [] ++ flatten (map send_frame (data_frames 1 parts)) }))
    × (flatten parts ≡ 7 ∷ 8 ∷ [])
    × All (IsPart 16384) parts
unfolding new
send_data_frame_from_slice-data_frames_example =
    send_data_frame_from_slice-data_frames 1 (7 ∷ 8 ∷ []) (new []) (omega arith)

-- Two CONTINUATION frames on the stream 5 and an octet behind them.
abbrev continued : ConnectionState
continued = record (new []) {
  connection = record ((new []).connection) { continuation_stream = some 5 };
  input = flatten (map send_frame (continuation_frames 5 (7 ∷ []) ((8 ∷ 9 ∷ []) ∷ []))) ++ 1 ∷ [];
}

read_continuations-continuation_frames_example : read_continuations plain 1 continued ≡ (
  ok ((7 ∷ []) ∷ (8 ∷ 9 ∷ []) ∷ []),
  record continued { connection = continued_by continued.connection true 5; input = 1 ∷ [] },
)
unfolding new
read_continuations-continuation_frames_example =
    read_continuations-continuation_frames plain 1 (7 ∷ []) (1 ∷ []) ((8 ∷ 9 ∷ []) ∷ []) 5 continued
      refl (omega arith) ((omega arith, omega arith), ((omega arith, omega arith), tt)) refl

abbrev in_transit : RequestInTransit
in_transit = record {
  stream_id = 1;
  headers = record { headers = block ∷ []; cursor = 0 };
  trailers = record { headers = (0x00 ∷ 0x01 ∷ b'x' ∷ 0x01 ∷ b'y' ∷ []) ∷ []; cursor = 0 };
  body = (7 ∷ []) ∷ [];
}

abbrev respond : Request → Response
respond request = not_found_response []

handle_request_inner-HasSameHead_example :
    (first decoded : Request) × ((decode_hpack_header_section date in_transit.headers
        (DynamicTable.new 4096)).0
      ≡ ok first)
    × HasSameHead first decoded
    × (respond decoded ≡ not_found_response [])
    × ((value : HeaderValue) (n : ℕ)
        → HeaderMap.get decoded.headers content_length ≡ some value
        → parse_number value ≡ some n
        → n ≡ length (flatten in_transit.body))
unfolding handle_request_inner Monad.◌>>=◌ read_u8 peek_u8 from_request read_integer with_table
    with_sink read_integer_loop read_string read_octets from_utf8 lift
handle_request_inner-HasSameHead_example =
    handle_request_inner-HasSameHead date respond in_transit (DynamicTable.new 4096)
      (DynamicTable.new 4096) (not_found_response []) refl
