-- ===== src/Http2/Frame/Read.antt =====
-- `Connection::read_frame` of servente-http2/src/lib.rs: the part of the connection's state that it
-- changes, its errors, and the branch of each type of frame.
pub mod Branches
pub mod RoundTrip
use servente.Common.{
  ℕ, zero, suc, ◌+◌, ◌-◌, ◌*◌, ◌/◌, ◌%◌, ◌^◌, Bool, true, false, not, ◌&&◌, ◌||◌, bit_and, ltb, leb,
  ◌==◌, Option, none, some, List, [], ◌∷◌, ◌++◌, Bytes, codes, length, take, drop, get_or,
  if◌then◌else◌,
}
use servente.Common.Result.{Result, ok, err, ◌>>=◌, ◌>>◌, fail_if}
use servente.Http2.Frame.{
  ErrorCode, protocol_error, frame_size_error, flow_control_error, refused_stream, from_u32,
  SettingKind, header_table_size, enable_push, max_concurrent_streams, initial_window_size,
  max_frame_size, max_header_list_size, settings_enable_connect_protocol,
  settings_no_rfc7540_priorities, tls_renegotiation_permitted, setting_number, default_value, Frame,
  data_frame, headers, go_away, window_update, reset_stream, settings, ping,
  settings_acknowledgement, continuation, unknown,
}

pub data ConnectionError : Type 0 where
  closed io : ConnectionError
  connection_error : ErrorCode → Bytes → ConnectionError
  stream_error : ErrorCode → ℕ → ConnectionError

-- A slice whose start is behind its end stops the task.
pub data Failure : Type 0 where
  error : ConnectionError → Failure
  panic : Failure

pub record Connection : Type 0 where
  pub maximum_payload_size : ℕ
  pub continuation_stream : Option ℕ
  pub last_stream_id : ℕ
  pub highest_stream_id : ℕ

-- `u32::from_be_bytes` and `u16::from_be_bytes` of the octets from an index on.
unfoldable pub u32_at : Bytes → ℕ → ℕ
u32_at b i =
    get_or b i 0 * 2 ^ 24
    + get_or b (i + 1) 0 * 2 ^ 16
    + get_or b (i + 2) 0 * 2 ^ 8
    + get_or b (i + 3) 0

unfoldable pub u16_at : Bytes → ℕ → ℕ
u16_at b i = get_or b i 0 * 2 ^ 8 + get_or b (i + 1) 0

unfoldable pub convert_be_u24_to_u32 : Bytes → ℕ
convert_be_u24_to_u32 b = get_or b 0 0 * 2 ^ 16 + get_or b 1 0 * 2 ^ 8 + get_or b 2 0

-- `&payload[start..end]`, for an `end` of at most its length.
unfoldable pub slice : Bytes → ℕ → ℕ → Result Failure Bytes
slice payload start end =
    if ltb end start then err panic else ok (take (end - start) (drop start payload))

abbrev pub control : ℕ
control = 0

abbrev pub flag : ℕ → ℕ → Bool
flag flags mask = bit_and flags mask == mask

abbrev pub connection_failure : ErrorCode → Bytes → Failure
connection_failure code text = error (connection_error code text)

abbrev pub stream_failure : ErrorCode → ℕ → Failure
stream_failure code stream_id = error (stream_error code stream_id)

unfoldable pub read_data : ℕ → ℕ → Bytes → Result Failure Frame
unfolding slice
read_data flags stream_id payload = do
  fail_if (stream_id == control)
      (connection_failure protocol_error (codes "DATA on the CONTROL stream"))
  fail_if (length payload == 0) (stream_failure frame_size_error stream_id)
  let is_padded = flag flags 0x08
  let data_start = if is_padded then 1 else 0
  fail_if (ltb (length payload) data_start) (stream_failure frame_size_error stream_id)
  let padding_length = if is_padded then get_or payload 0 0 else 0
  fail_if (leb (length payload) padding_length)
      (connection_failure protocol_error (codes "Padding is greater than the full payload length"))
  bytes ← slice payload data_start (length payload - padding_length)
  ok (data_frame (flag flags 0x01) stream_id bytes)

unfoldable pub read_headers : ℕ → ℕ → Bytes → Result Failure Frame
unfolding slice
read_headers flags stream_id payload = do
  let is_padded = flag flags 0x08
  let data_start = (if is_padded then 1 else 0) + (if flag flags 0x20 then 5 else 0)
  fail_if (ltb (length payload) data_start) (stream_failure frame_size_error stream_id)
  let padding_length = if is_padded then get_or payload 0 0 else 0
  fail_if (leb (length payload) padding_length)
      (connection_failure protocol_error (codes "HEADERS padding is greater than payload length"))
  bytes ← slice payload data_start (length payload - padding_length)
  ok (headers (flag flags 0x04) (flag flags 0x01) stream_id bytes)

-- The tests of HEADERS that stand in front of the change of `continuation`.
unfoldable pub check_headers : ℕ → Bytes → Result Failure (Unit {0})
check_headers stream_id payload = do
  fail_if (stream_id == control)
      (connection_failure protocol_error (codes "HEADERS on the CONTROL stream"))
  fail_if (not (stream_id % 2 == 1)) (
      connection_failure protocol_error
        (codes "HEADERS on a non-client stream (stream ID is even)"))
  fail_if (length payload == 0) (stream_failure frame_size_error stream_id)

-- The `match` on the kind of a setting; `none` is its `continue`.
unfoldable pub read_setting : ℕ → ℕ → Result Failure (Option (SettingKind × ℕ))
unfolding setting_number default_value
read_setting kind value =
    if kind == setting_number header_table_size
    then ok (some (header_table_size, value))
    else if kind == setting_number enable_push
    then (do
      fail_if (not (value == 0) && not (value == 1))
          (connection_failure protocol_error (codes "ENABLE_PUSH invalid value: neither 0 nor 1"))
      ok (some (enable_push, value)))
    else if kind == setting_number max_concurrent_streams
    then ok (some (max_concurrent_streams, value))
    else if kind == setting_number initial_window_size
    then (do
      fail_if (ltb 0x7fffffff value) (
          connection_failure flow_control_error (codes "Maximum flow-control window size exceeded"))
      ok (some (initial_window_size, value)))
    else if kind == setting_number max_frame_size
    then (do
      fail_if (ltb value (default_value max_frame_size)) (
          connection_failure protocol_error
            (codes "Maximum allowed frame size less than the initial frame size"))
      fail_if (ltb 0x00ffffff value)
          (connection_failure protocol_error (codes "Maximum allowed frame size exceeded"))
      ok (some (max_frame_size, value)))
    else if kind == setting_number max_header_list_size
    then ok (some (max_header_list_size, value))
    else if kind == setting_number settings_enable_connect_protocol
    then ok (some (settings_enable_connect_protocol, value))
    else if kind == setting_number settings_no_rfc7540_priorities
    then ok (some (settings_no_rfc7540_priorities, value))
    else if kind == setting_number tls_renegotiation_permitted
    then ok (some (tls_renegotiation_permitted, value))
    else ok none

-- The loop over `chunks_exact(6)`.
unfoldable pub read_settings_loop : Bytes → Result Failure (List (SettingKind × ℕ))
unfolding read_setting u16_at u32_at
read_settings_loop (a ∷ b ∷ c ∷ d ∷ e ∷ f ∷ more) = do
  setting ← read_setting (u16_at (a ∷ b ∷ []) 0) (u32_at (c ∷ d ∷ e ∷ f ∷ []) 0)
  others ← read_settings_loop more
  ok (elim setting [ some s ↦ s ∷ others | none ↦ others ])
read_settings_loop _ = ok []

unfoldable pub read_settings : ℕ → ℕ → Bytes → Result Failure Frame
unfolding read_settings_loop
read_settings flags stream_id payload = do
  fail_if (not (stream_id == control))
      (connection_failure protocol_error (codes "SETTINGS should be sent on frame 0"))
  if flag flags 0x01
      then (do
        fail_if (not (length payload == 0))
            (connection_failure frame_size_error (codes "ACK'd SETTINGS should be 0 length"))
        ok settings_acknowledgement)
      else (do
        fail_if (not (length payload % 6 == 0)) (
            connection_failure frame_size_error
              (codes "SETTINGS frame length should be a multiple of 6"))
        s ← read_settings_loop payload
        ok (settings s))

unfoldable pub read_window_update : ℕ → Bytes → Result Failure Frame
unfolding u32_at
read_window_update stream_id payload = do
  fail_if (not (length payload == 4))
      (connection_failure frame_size_error (codes "WINDOW_UPDATE length != 4"))
  ok (window_update stream_id (u32_at payload 0 % 2 ^ 31))

unfoldable pub read_reset_stream : ℕ → Bytes → Result Failure Frame
unfolding u32_at from_u32
read_reset_stream stream_id payload = do
  fail_if (not (length payload == 4))
      (connection_failure frame_size_error (codes "RST_STREAM with payload length != 4"))
  ok (reset_stream stream_id (from_u32 (u32_at payload 0)))

unfoldable pub read_priority : ℕ → Bytes → Result Failure Frame
read_priority stream_id payload = do
  fail_if (stream_id == control)
      (connection_failure protocol_error (codes "PRIORITY on the CONTROL stream"))
  fail_if (not (length payload == 5)) (stream_failure frame_size_error stream_id)
  ok unknown

unfoldable pub read_ping : ℕ → ℕ → Bytes → Result Failure Frame
read_ping flags stream_id payload = do
  fail_if (not (stream_id == control))
      (connection_failure protocol_error (codes "PING on non-control stream"))
  fail_if (not (length payload == 8))
      (connection_failure frame_size_error (codes "PING payload length != 8"))
  ok (ping (flag flags 0x01) payload)

-- `String::from_utf8_lossy` is the standard library's.
module _ (from_utf8_lossy : Bytes → Bytes) where
  unfoldable pub read_go_away : ℕ → Bytes → Result Failure Frame
  unfolding u32_at from_u32
  read_go_away stream_id payload = do
    fail_if (ltb (length payload) 8)
        (connection_failure frame_size_error (codes "Illegal GOAWAY size"))
    fail_if (not (stream_id == control))
        (connection_failure protocol_error (codes "GOAWAY on non-control stream"))
    ok (
        go_away (u32_at payload 0 % 2 ^ 31) (from_u32 (u32_at payload 4))
          (from_utf8_lossy (drop 8 payload)))

  -- The `match` on the type: the frame, and what becomes of `continuation`.
  unfoldable pub read_payload : Option ℕ → ℕ → ℕ → ℕ → Bytes → Result Failure Frame × Option ℕ
  read_payload expected frame_type flags stream_id payload =
      if frame_type == 0x00
      then (read_data flags stream_id payload, expected)
      else if frame_type == 0x01
      then headers_branch (check_headers stream_id payload)
      else if frame_type == 0x02
      then (read_priority stream_id payload, expected)
      else if frame_type == 0x03
      then (read_reset_stream stream_id payload, expected)
      else if frame_type == 0x04
      then (read_settings flags stream_id payload, expected)
      else if frame_type == 0x05
      then (err (connection_failure refused_stream (codes "PUSH_PROMISE from client")), expected)
      else if frame_type == 0x06
      then (read_ping flags stream_id payload, expected)
      else if frame_type == 0x07
      then (read_go_away stream_id payload, expected)
      else if frame_type == 0x08
      then (read_window_update stream_id payload, expected)
      else if frame_type == 0x09
      then elim expected [
        | none ↦ (
          err (
              connection_failure protocol_error
                (codes "CONTINUATION frame without corresponding HEADERS")),
          none,
        )
        | some s ↦ (
          ok (continuation (flag flags 0x04) stream_id payload),
          if flag flags 0x04 then none else some s,
        )
      ]
      else (ok unknown, expected)
    where
      headers_branch : Result Failure (Unit {0}) → Result Failure Frame × Option ℕ
      headers_branch (err e) = (err e, expected)
      headers_branch (ok u) = (
        read_headers flags stream_id payload,
        if flag flags 0x04 then expected else some stream_id,
      )

  -- Behind the payload: the CONTINUATION that is due, the stream IDs, and the type.
  unfoldable pub read_body : Connection → ℕ → ℕ → ℕ → Bytes → Result Failure Frame × Connection
  read_body c frame_type flags stream_id payload =
      if is_due c.continuation_stream
      then (err (connection_failure protocol_error (codes "CONTINUATION expected")), c)
      else let (frame, expected) =
          read_payload c.continuation_stream frame_type flags stream_id payload in
        (
          frame,
          record c {
            continuation_stream = expected;
            last_stream_id = stream_id;
            highest_stream_id =
                if ltb c.highest_stream_id stream_id then stream_id else c.highest_stream_id;
          },
        )
    where
      is_due : Option ℕ → Bool
      is_due none = false
      is_due (some s) = not (s == stream_id) || not (frame_type == 0x09)

  -- The octets that the reader gives, and those that are left. Where they end, the read fails, and
  -- what has been read by then is gone.
  unfoldable pub read_frame : Connection → Bytes → Result Failure Frame × Connection × Bytes
  read_frame c input =
      let payload_length = convert_be_u24_to_u32 input in
      let stream_id = u32_at input 5 % 2 ^ 31 in
      let behind = drop 9 input in
      if ltb (length input) 9
      then (err (error io), c, [])
      else if ltb c.maximum_payload_size payload_length
      then (
        err (connection_failure frame_size_error (codes "Frame larger than maximum payload size")),
        c,
        behind,
      )
      else if ltb (length behind) payload_length
      then (err (error io), c, [])
      else let (frame, c') =
          read_body c (get_or input 3 0) (get_or input 4 0) stream_id
            (take payload_length behind) in
        (frame, c', drop payload_length behind)
