-- ===== src/Tests/Frame.antt =====
-- The theorems on frames, at concrete inputs.
use servente.Common.{◌≡◌, refl, arith, ◌++◌, none, true, false, [], ◌∷◌, Bytes}
use servente.Http2.Frame.{headers, stream, into_payload, send_frame}
use servente.Common.Result.{ok}
use servente.Http2.Frame.Read.{Connection, read_frame}
use servente.Http2.Frame.Read.RoundTrip.{read_frame-send_frame}

abbrev two_octets : Bytes
two_octets = 7 ∷ 8 ∷ []

abbrev connection : Connection
connection = record {
  maximum_payload_size = 16384;
  continuation_stream = none;
  last_stream_id = 0;
  highest_stream_id = 0;
}

read_frame-send_frame_example :
    let (r, c', left) =
      read_frame
        (λ text. text)
        connection
        (send_frame (headers true false 5 two_octets) ++ two_octets) in
    (r ≡ ok (headers true false 5 two_octets)) × (left ≡ two_octets)
unfolding stream into_payload
read_frame-send_frame_example =
    read_frame-send_frame (λ text. text) connection (headers true false 5 two_octets) two_octets
      refl (refl, omega arith) (omega arith) (omega arith) (omega arith)
