-- ===== src/Http2/BitReader.antt =====
-- `BitReader` of servente-http2/src/hpack.rs: the bits of a slice, the highest of a byte first.
pub mod View
use servente.Common.{
  ℕ, ◌+◌, ◌-◌, ◌*◌, ◌/◌, ◌%◌, ◌^◌, bit_and, Bool, not, ◌&&◌, Option, none, some, Bytes, ltb, leb,
  ◌==◌, if◌then◌else◌, length, get_or,
}

pub record BitReader : Type 0 where
  pub buffer : Bytes
  pub byte_cursor : ℕ
  pub bit_cursor : ℕ
  pub total_bits : ℕ

-- For a `max_bits` of at most the bits there are, as the source asserts.
unfoldable pub new : Bytes → Option ℕ → BitReader
new bytes none = record {
  buffer = bytes;
  byte_cursor = 0;
  bit_cursor = 7;
  total_bits = length bytes * 8;
}
new bytes (some max_bits) = record {
  buffer = bytes;
  byte_cursor = 0;
  bit_cursor = if ltb max_bits 8 then max_bits else 7;
  total_bits = max_bits;
}

-- `data.len() - 1` wraps around for an empty slice.
unfoldable pub bit_position : BitReader → ℕ
bit_position r =
    let last = (length r.buffer + 2 ^ 64 - 1) % 2 ^ 64 in
    let bits_in_current_byte =
      if r.byte_cursor == last && not (r.total_bits % 8 == 0) then r.total_bits % 8 else 7 in
    r.byte_cursor * 8 + bits_in_current_byte - r.bit_cursor

unfoldable pub bits_left : BitReader → ℕ
unfolding bit_position
bits_left r = if leb r.total_bits (bit_position r) then 0 else r.total_bits - bit_position r

-- The bit behind the cursor, and the step of the cursor.
unfoldable pub current : BitReader → Bool
current r = bit_and (get_or r.buffer r.byte_cursor 0 / 2 ^ r.bit_cursor) 1 == 1

unfoldable pub step : ℕ → BitReader → BitReader
step bits_left r =
    if r.bit_cursor == 0
    then record r {
      byte_cursor = r.byte_cursor + 1;
      bit_cursor = if ltb bits_left 8 then bits_left else 7;
    }
    else record r { bit_cursor = r.bit_cursor - 1 }

unfoldable pub next : BitReader → Option (Bool × BitReader)
unfolding bits_left current step
next r = if bits_left r == 0 then none else some (current r, step (bits_left r - 1) r)
