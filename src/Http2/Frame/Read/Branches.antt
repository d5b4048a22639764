-- ===== src/Http2/Frame/Read/Branches.antt =====
-- The branches of `read_frame` (servente-http2/src/lib.rs) on payloads without padding.
use servente.Common.{
  ℕ, bit_or, leb, ◌==◌, ◌+◌, ◌-◌, ◌*◌, ◌/◌, ◌%◌, ◌^◌, ◌<◌, ◌≡◌, refl, ap, arith, Bool, true, false,
  ltb, [], ◌∷◌, Bytes, length, take, if◌then◌else◌,
}
use servente.Common.Result.{ok}
use servente.Http2.Frame.{
  ErrorCode, data_frame, headers, window_update, reset_stream, ping, error_code_number, be_u32,
}
use servente.Http2.Frame.Codes.{from_u32-error_code_number, error_code_number_bound}
use servente.Http2.Frame.Read.{
  u32_at, slice, read_data, check_headers, read_headers, read_reset_stream, read_ping,
  read_window_update,
}

-- A number of 24 bits, and one of 31, from their octets.
pub u24_octets :
    (n : ℕ) → n < 2 ^ 24 → n / 2 ^ 16 % 256 * 2 ^ 16 + n / 2 ^ 8 % 256 * 2 ^ 8 + n % 256 ≡ n
u24_octets n h = omega arith

pub u32_octets :
    (n : ℕ)
    → n < 2 ^ 32
    → n / 2 ^ 24 % 256 * 2 ^ 24 + n / 2 ^ 16 % 256 * 2 ^ 16 + n / 2 ^ 8 % 256 * 2 ^ 8 + n % 256 ≡ n
u32_octets n h = omega arith

slice_whole : (payload : Bytes) → slice payload 0 (length payload - 0) ≡ ok payload
unfolding slice
slice_whole payload =
    let order : ltb (length payload - 0) 0 ≡ false = ground arith in
    let all : length payload - 0 - 0 ≡ length payload = omega arith in
    rw (order, all) (ap ok (take_whole payload))
  where
    take_whole : (p : Bytes) → take (length p) p ≡ p
    take_whole [] = refl
    take_whole (x ∷ p) = ap (◌∷◌ x) (take_whole p)

not_short : (p : Bytes) → 0 < length p → ltb (length p) 0 ≡ false
not_short p h = ground arith

not_padded : (p : Bytes) → 0 < length p → leb (length p) 0 ≡ false
not_padded p h = ground arith

not_empty : (p : Bytes) → 0 < length p → (length p == 0) ≡ false
not_empty p h = ground arith

-- A payload with neither padding nor priority is given as it is.
pub read_data_plain :
    (end_stream : Bool) (s : ℕ) (p : Bytes)
    → 0 < s
    → 0 < length p
    → read_data (if end_stream then 1 else 0) s p ≡ ok (data_frame end_stream s p)
unfolding read_data
read_data_plain true s p hs hp =
    let stream_id : (s == 0) ≡ false = ground arith in
    rw (stream_id, not_empty p hp, not_short p hp, not_padded p hp, slice_whole p) refl
read_data_plain false s p hs hp =
    let stream_id : (s == 0) ≡ false = ground arith in
    rw (stream_id, not_empty p hp, not_short p hp, not_padded p hp, slice_whole p) refl

pub check_headers_plain : (s : ℕ) (p : Bytes) → s % 2 ≡ 1 → 0 < length p → check_headers s p ≡ ok tt
unfolding check_headers
check_headers_plain s p hs hp =
    let stream_id : (s == 0) ≡ false = ground arith in
    let client : (s % 2 == 1) ≡ true = ground arith in
    let size : (length p == 0) ≡ false = ground arith in rw (stream_id, client, size) refl

pub read_headers_plain :
    (end_headers end_stream : Bool) (s : ℕ) (p : Bytes)
    → 0 < length p
    → read_headers (bit_or (if end_headers then 4 else 0) (if end_stream then 1 else 0)) s p
      ≡ ok (headers end_headers end_stream s p)
unfolding read_headers
read_headers_plain true true s p hp = rw (not_short p hp, not_padded p hp, slice_whole p) refl
read_headers_plain true false s p hp = rw (not_short p hp, not_padded p hp, slice_whole p) refl
read_headers_plain false true s p hp = rw (not_short p hp, not_padded p hp, slice_whole p) refl
read_headers_plain false false s p hp = rw (not_short p hp, not_padded p hp, slice_whole p) refl

pub read_window_update_plain :
    (s n : ℕ) → n < 2 ^ 31 → read_window_update s (be_u32 (n % 2 ^ 31)) ≡ ok (window_update s n)
unfolding read_window_update be_u32 u32_at
read_window_update_plain s n h =
    let masked : n % 2 ^ 31 ≡ n = omega arith in
    rw (masked, u32_octets n (omega arith), masked) refl

pub read_reset_stream_plain :
    (s : ℕ) (e : ErrorCode)
    → read_reset_stream s (be_u32 (error_code_number e)) ≡ ok (reset_stream s e)
unfolding read_reset_stream be_u32 u32_at
read_reset_stream_plain s e =
    rw (u32_octets (error_code_number e) (error_code_number_bound e), from_u32-error_code_number e)
      refl

pub read_ping_plain :
    (ack : Bool) (p : Bytes) → length p ≡ 8 → read_ping (if ack then 1 else 0) 0 p ≡ ok (ping ack p)
unfolding read_ping
read_ping_plain true p h = rw h refl
read_ping_plain false p h = rw h refl
