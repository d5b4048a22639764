-- ===== src/Http2/Frame/Read/RoundTrip.antt =====
-- `read_frame` on what `send_frame` wrote, both of servente-http2/src/lib.rs.
use servente.Common.{
  ℕ, ◌%◌, ◌^◌, ◌≤◌, ◌<◌, ◌≡◌, refl, ap, ◌∙◌, arith, false, ltb, none, ◌++◌, Bytes, length,
  length-append, take, drop, take-append, drop-append, get_or,
}
use servente.Common.Result.{Result, ok}
use servente.Http2.Frame.{
  Frame, data_frame, headers, go_away, window_update, reset_stream, settings, ping,
  settings_acknowledgement, continuation, unknown, flags, frame_type, stream, into_payload,
  send_frame, send_frame_header, be_u32,
}
use servente.Http2.Frame.Read.Branches.{
  u24_octets, u32_octets, read_data_plain, check_headers_plain, read_headers_plain,
  read_window_update_plain, read_reset_stream_plain, read_ping_plain,
}
use servente.Http2.Frame.Read.{
  Connection, Failure, read_frame, read_body, convert_be_u24_to_u32, u32_at, read_payload,
  read_settings,
}

-- The way through `read_frame` where nothing ends early.
read_frame_through :
    (from_utf8_lossy : Bytes → Bytes) (c : Connection) (input payload more : Bytes) (n id : ℕ)
    → ltb (length input) 9 ≡ false
    → convert_be_u24_to_u32 input ≡ n
    → u32_at input 5 % 2 ^ 31 ≡ id
    → ltb c.maximum_payload_size n ≡ false
    → ltb (length (drop 9 input)) n ≡ false
    → take n (drop 9 input) ≡ payload
    → drop n (drop 9 input) ≡ more
    → read_frame from_utf8_lossy c input ≡ (
        let (frame, c') =
          read_body from_utf8_lossy c (get_or input 3 0) (get_or input 4 0) id payload in
        (frame, c', more))
unfolding read_frame
read_frame_through from_utf8_lossy c input payload more n id nine number stream fits whole front
      back =
    rw (nine, number, fits, whole, stream, front, back) refl

-- What a frame's header says is what the branch of its type reads: the type, the flags, the stream
-- and the payload, and the octets behind are left.
pub read_frame-send_frame_header :
    (from_utf8_lossy : Bytes → Bytes) (c : Connection) (frame_type flags stream : ℕ)
    (payload more : Bytes)
    → stream < 2 ^ 31
    → length payload ≤ c.maximum_payload_size
    → length payload < 2 ^ 24
    → read_frame from_utf8_lossy c
        (send_frame_header frame_type flags stream (length payload) ++ payload ++ more)
      ≡ (let (frame, c') = read_body from_utf8_lossy c frame_type flags stream payload in
          (frame, c', more))
unfolding send_frame_header be_u32 convert_be_u24_to_u32 u32_at
read_frame-send_frame_header from_utf8_lossy c frame_type flags stream payload more hs hm hl =
    let len = length payload in
    let masked : stream % 2 ^ 31 ≡ stream = omega arith in
    let number = u24_octets len hl in
    let id = u32_octets stream (omega arith) in
    let whole : ltb (length (payload ++ more)) len ≡ false =
      ground (arith, length-append payload more) in
    let nine : ltb (length (send_frame_header frame_type flags stream len ++ payload ++ more)) 9
        ≡ false =
      ground arith in
    let fits : ltb c.maximum_payload_size len ≡ false = ground arith in
    let stream_id : u32_at (be_u32 (stream % 2 ^ 31)) 0 % 2 ^ 31 ≡ stream =
      rw (masked, id) masked in
    read_frame_through from_utf8_lossy c
      (send_frame_header frame_type flags stream len ++ payload ++ more) payload more len stream
      nine number stream_id fits whole (take-append payload more len refl)
      (drop-append payload more len refl)

-- The frames that are read as they were sent; a DATA frame that is empty is refused.
abbrev pub IsReadable : Frame → Type 0
IsReadable (data_frame end_stream stream_id payload) = (0 < stream_id) × (0 < length payload)
IsReadable (headers end_headers end_stream stream_id payload) =
    (stream_id % 2 ≡ 1) × (0 < length payload)
IsReadable (window_update stream_id increment) = increment < 2 ^ 31
IsReadable (reset_stream stream_id error_code) = Unit
IsReadable (ping ack payload) = length payload ≡ 8
IsReadable settings_acknowledgement = Unit
IsReadable _ = ⊥

-- What the sender makes of such a frame is read as that frame.
pub read_payload-into_payload :
    (from_utf8_lossy : Bytes → Bytes) (f : Frame)
    → IsReadable f
    → (let (r, expected) =
          read_payload from_utf8_lossy none (frame_type f) (flags f) (stream f) (into_payload f) in
        r ≡ ok f)
unfolding read_payload flags frame_type stream into_payload
read_payload-into_payload from_utf8_lossy (data_frame e s p) (hs, hp) = read_data_plain e s p hs hp
read_payload-into_payload from_utf8_lossy (headers eh es s p) (hs, hp) =
    rw (check_headers_plain s p hs hp) (read_headers_plain eh es s p hp)
read_payload-into_payload from_utf8_lossy (window_update s n) h = read_window_update_plain s n h
read_payload-into_payload from_utf8_lossy (reset_stream s e) h = read_reset_stream_plain s e
read_payload-into_payload from_utf8_lossy (ping ack p) h = read_ping_plain ack p h
read_payload-into_payload from_utf8_lossy settings_acknowledgement h = unfold read_settings in refl
read_payload-into_payload from_utf8_lossy (go_away l e d) h = absurd h
read_payload-into_payload from_utf8_lossy (settings s) h = absurd h
read_payload-into_payload from_utf8_lossy (continuation e s p) h = absurd h
read_payload-into_payload from_utf8_lossy unknown h = absurd h

-- With no CONTINUATION due, the type decides.
read_body_plain :
    (from_utf8_lossy : Bytes → Bytes) (c : Connection) (frame_type flags stream : ℕ)
    (payload : Bytes)
    → c.continuation_stream ≡ none
    → (let (r, c') = read_body from_utf8_lossy c frame_type flags stream payload in
        let (r', expected) = read_payload from_utf8_lossy none frame_type flags stream payload in
        r ≡ r')
unfolding read_body
read_body_plain from_utf8_lossy c frame_type flags stream payload h = rw h refl

-- On a connection with no CONTINUATION due, a DATA frame on a stream other than 0 and a HEADERS frame on an odd one,
-- both without padding and with a payload that is not empty, a WINDOW_UPDATE of fewer than 2 ^ 31, a RST_STREAM, a
-- PING of eight octets and an acknowledgement of settings are read as what was sent, and the octets behind them are
-- left, for a stream ID of 31 bits and a payload of at most the maximum size and of fewer than 2 ^ 24 octets.
pub read_frame-send_frame :
    (from_utf8_lossy : Bytes → Bytes) (c : Connection) (f : Frame) (more : Bytes)
    → c.continuation_stream ≡ none
    → IsReadable f
    → stream f < 2 ^ 31
    → length (into_payload f) ≤ c.maximum_payload_size
    → length (into_payload f) < 2 ^ 24
    → (let (r, c', left) = read_frame from_utf8_lossy c (send_frame f ++ more) in
        (r ≡ ok f) × (left ≡ more))
unfolding send_frame send_frame_header be_u32
read_frame-send_frame from_utf8_lossy c f more hc hf hs hm hl =
    let whole =
      read_frame-send_frame_header from_utf8_lossy c (frame_type f) (flags f) (stream f)
        (into_payload f) more hs hm hl in
    let body =
      read_body_plain from_utf8_lossy c (frame_type f) (flags f) (stream f) (into_payload f) hc in
    (
      ap (λ (x : Result Failure Frame × Connection × Bytes). x.0) whole
          ∙ body
          ∙ read_payload-into_payload from_utf8_lossy f hf,
      ap (λ (x : Result Failure Frame × Connection × Bytes). x.2) whole,
    )
