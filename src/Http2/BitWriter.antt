-- ===== src/Http2/BitWriter.antt =====
-- `BitWriter` of servente-http2/src/hpack.rs, over a writer that takes every byte, as a vector does.
pub mod View
use servente.Common.{
  ℕ, ◌+◌, ◌-◌, ◌*◌, ◌%◌, ◌^◌, bit_or, Bool, not, [], ◌∷◌, ◌++◌, Bytes, ◌==◌, if◌then◌else◌,
}

pub record BitWriter : Type 0 where
  pub written : Bytes
  pub current_byte : ℕ
  pub bit_position : ℕ

unfoldable pub new : Bytes → BitWriter
new bytes = record { written = bytes; current_byte = 0; bit_position = 7 }

unfoldable pub push : BitWriter → Bool → BitWriter
push w value =
    let byte = bit_or w.current_byte ((if value then 1 else 0) * 2 ^ w.bit_position % 256) in
    if w.bit_position == 0
    then record { written = w.written ++ byte ∷ []; current_byte = 0; bit_position = 7 }
    else record w { current_byte = byte; bit_position = w.bit_position - 1 }

-- `Drop`: the bits left over are filled up with ones. The result is what was written in all.
unfoldable pub finish : BitWriter → Bytes
finish w =
    if not (w.bit_position == 7)
    then w.written ++ bit_or w.current_byte (2 ^ (w.bit_position + 1) - 1) ∷ []
    else w.written
