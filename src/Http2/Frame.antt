-- ===== src/Http2/Frame.antt =====
-- The frames of servente-http2/src/lib.rs and their sending, with `convert_be_u24_to_u32` of
-- servente-http2/src/bits.rs. A `StreamId` and a `SettingValue` are their numbers;
-- the mask of the low 31 bits is the remainder by 2 ^ 31.
pub mod Read
pub mod Codes
use servente.Common.{
  ℕ, ◌+◌, ◌-◌, ◌*◌, ◌==◌, ◌/◌, ◌%◌, ◌^◌, Bool, true, false, bit_or, List, [], ◌∷◌, ◌++◌, Bytes,
  length, if◌then◌else◌,
}

pub data ErrorCode : Type 0 where
  no_error protocol_error internal_error flow_control_error settings_timeout : ErrorCode
  stream_closed frame_size_error refused_stream cancel compression_error : ErrorCode
  connect_error enhance_your_calm inadequate_security http11_required : ErrorCode

-- `error_code as u32`
unfoldable pub error_code_number : ErrorCode → ℕ
error_code_number no_error = 0
error_code_number protocol_error = 1
error_code_number internal_error = 2
error_code_number flow_control_error = 3
error_code_number settings_timeout = 4
error_code_number stream_closed = 5
error_code_number frame_size_error = 6
error_code_number refused_stream = 7
error_code_number cancel = 8
error_code_number compression_error = 9
error_code_number connect_error = 10
error_code_number enhance_your_calm = 11
error_code_number inadequate_security = 12
error_code_number http11_required = 13

-- `ErrorCode::from`
unfoldable pub from_u32 : ℕ → ErrorCode
from_u32 value =
    if value == 0
    then no_error
    else if value == 1
    then protocol_error
    else if value == 2
    then internal_error
    else if value == 3
    then flow_control_error
    else if value == 4
    then settings_timeout
    else if value == 5
    then stream_closed
    else if value == 6
    then frame_size_error
    else if value == 7
    then refused_stream
    else if value == 8
    then cancel
    else if value == 9
    then compression_error
    else if value == 10
    then connect_error
    else if value == 11
    then enhance_your_calm
    else if value == 12
    then inadequate_security
    else if value == 13
    then http11_required
    else internal_error

pub data SettingKind : Type 0 where
  header_table_size enable_push max_concurrent_streams initial_window_size : SettingKind
  max_frame_size max_header_list_size settings_enable_connect_protocol : SettingKind
  settings_no_rfc7540_priorities tls_renegotiation_permitted : SettingKind

-- `kind as u16`
unfoldable pub setting_number : SettingKind → ℕ
setting_number header_table_size = 0x01
setting_number enable_push = 0x02
setting_number max_concurrent_streams = 0x03
setting_number initial_window_size = 0x04
setting_number max_frame_size = 0x05
setting_number max_header_list_size = 0x06
setting_number settings_enable_connect_protocol = 0x08
setting_number settings_no_rfc7540_priorities = 0x09
setting_number tls_renegotiation_permitted = 0x10

unfoldable pub default_value : SettingKind → ℕ
default_value header_table_size = 4096
default_value enable_push = 1
default_value max_concurrent_streams = 2 ^ 32 - 1
default_value initial_window_size = 65535
default_value max_frame_size = 16384
default_value max_header_list_size = 2 ^ 32 - 1
default_value settings_enable_connect_protocol = 0
default_value settings_no_rfc7540_priorities = 0
default_value tls_renegotiation_permitted = 0

pub data Frame : Type 0 where
  data_frame : Bool → ℕ → Bytes → Frame
  headers : Bool → Bool → ℕ → Bytes → Frame
  go_away : ℕ → ErrorCode → Bytes → Frame
  window_update : ℕ → ℕ → Frame
  reset_stream : ℕ → ErrorCode → Frame
  settings : List (SettingKind × ℕ) → Frame
  ping : Bool → Bytes → Frame
  settings_acknowledgement : Frame
  continuation : Bool → ℕ → Bytes → Frame
  unknown : Frame

-- The methods of a frame that is sent, which is never `Unknown`: the source does not return there.
unfoldable pub flags : Frame → ℕ
flags (data_frame end_stream stream_id payload) = if end_stream then 0x01 else 0
flags (headers end_headers end_stream stream_id payload) =
    bit_or (if end_headers then 0x04 else 0) (if end_stream then 0x01 else 0)
flags (ping ack payload) = if ack then 0x01 else 0
flags settings_acknowledgement = 0x01
flags (continuation end_headers stream_id payload) = if end_headers then 0x04 else 0
flags _ = 0

unfoldable pub frame_type : Frame → ℕ
frame_type (data_frame end_stream stream_id payload) = 0x00
frame_type (headers end_headers end_stream stream_id payload) = 0x01
frame_type (reset_stream stream_id error_code) = 0x03
frame_type (settings s) = 0x04
frame_type settings_acknowledgement = 0x04
frame_type (ping ack payload) = 0x06
frame_type (go_away last_stream_id error_code additional_debug_data) = 0x07
frame_type (window_update stream_id window_size_increment) = 0x08
frame_type (continuation end_headers stream_id payload) = 0x09
frame_type unknown = 0

-- `to_be_bytes` of a `u32` and of a `u16`.
unfoldable pub be_u32 : ℕ → Bytes
be_u32 n = n / 2 ^ 24 % 256 ∷ n / 2 ^ 16 % 256 ∷ n / 2 ^ 8 % 256 ∷ n % 256 ∷ []

unfoldable pub be_u16 : ℕ → Bytes
be_u16 n = n / 2 ^ 8 % 256 ∷ n % 256 ∷ []

-- The loop over the settings of `into_payload`.
unfoldable pub settings_payload : List (SettingKind × ℕ) → Bytes
unfolding setting_number be_u16 be_u32
settings_payload [] = []
settings_payload ((kind, value) ∷ s) =
    be_u16 (setting_number kind) ++ be_u32 value ++ settings_payload s

unfoldable pub into_payload : Frame → Bytes
unfolding error_code_number be_u32 settings_payload
into_payload (data_frame end_stream stream_id payload) = payload
into_payload (headers end_headers end_stream stream_id payload) = payload
into_payload (go_away last_stream_id error_code additional_debug_data) =
    be_u32 (last_stream_id % 2 ^ 31)
    ++ be_u32 (error_code_number error_code)
    ++ additional_debug_data
into_payload (window_update stream_id window_size_increment) =
    be_u32 (window_size_increment % 2 ^ 31)
into_payload (reset_stream stream_id error_code) = be_u32 (error_code_number error_code)
into_payload (settings s) = settings_payload s
into_payload settings_acknowledgement = []
into_payload (ping ack payload) = payload
into_payload (continuation end_headers stream_id payload) = payload
into_payload unknown = []

unfoldable pub stream : Frame → ℕ
stream (data_frame end_stream stream_id payload) = stream_id
stream (headers end_headers end_stream stream_id payload) = stream_id
stream (window_update stream_id window_size_increment) = stream_id
stream (reset_stream stream_id error_code) = stream_id
stream (continuation end_headers stream_id payload) = stream_id
stream _ = 0

-- What `send_frame_header` writes, and what `send_frame` writes.
unfoldable pub send_frame_header : ℕ → ℕ → ℕ → ℕ → Bytes
unfolding be_u32
send_frame_header frame_type flags stream payload_len =
    payload_len / 2 ^ 16 % 256
    ∷ payload_len / 2 ^ 8 % 256
    ∷ payload_len % 256
    ∷ frame_type
    ∷ flags
    ∷ be_u32 (stream % 2 ^ 31)

unfoldable pub send_frame : Frame → Bytes
unfolding flags frame_type stream into_payload send_frame_header
send_frame frame =
    send_frame_header (frame_type frame) (flags frame) (stream frame) (length (into_payload frame))
    ++ into_payload frame
