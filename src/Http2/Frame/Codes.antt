-- ===== src/Http2/Frame/Codes.antt =====
-- The numbers of error codes in servente-http2/src/lib.rs.
use servente.Common.{◌<◌, ◌^◌, ◌≡◌, refl, arith}
use servente.Http2.Frame.{
  ErrorCode, error_code_number, from_u32, no_error, protocol_error, internal_error,
  flow_control_error, settings_timeout, stream_closed, frame_size_error, refused_stream, cancel,
  compression_error, connect_error, enhance_your_calm, inadequate_security, http11_required,
}

-- The number of an error code is read back as that error code.
pub from_u32-error_code_number : (e : ErrorCode) → from_u32 (error_code_number e) ≡ e
unfolding from_u32 error_code_number
from_u32-error_code_number no_error = refl
from_u32-error_code_number protocol_error = refl
from_u32-error_code_number internal_error = refl
from_u32-error_code_number flow_control_error = refl
from_u32-error_code_number settings_timeout = refl
from_u32-error_code_number stream_closed = refl
from_u32-error_code_number frame_size_error = refl
from_u32-error_code_number refused_stream = refl
from_u32-error_code_number cancel = refl
from_u32-error_code_number compression_error = refl
from_u32-error_code_number connect_error = refl
from_u32-error_code_number enhance_your_calm = refl
from_u32-error_code_number inadequate_security = refl
from_u32-error_code_number http11_required = refl

pub error_code_number_bound : (e : ErrorCode) → error_code_number e < 2 ^ 32
unfolding error_code_number
error_code_number_bound no_error = omega arith
error_code_number_bound _ = omega arith
