-- ===== src/Http2/ReadString.antt =====
-- `read_string` of servente-http2/src/lib.rs.
pub mod RoundTrip
pub mod Progress
use servente.Common.{
  ℕ, zero, suc, ◌+◌, bit_and, Bool, true, false, not, none, some, [], ◌∷◌, ◌++◌, Bytes, ◌==◌,
  if◌then◌else◌,
}
use servente.Common.Utf8.{from_utf8}
use servente.Common.Result.{Result, ok, err, ◌>>=◌, ok_or}
use servente.Http2.Errors.{DecompressionError, unexpected_end_of_file, invalid_utf8}
use servente.Http2.Transit.{HeadersInTransit, read_u8, read_integer}
use servente.Http2.Huffman.{decode_huffman}

-- The `for` loop over `0..length`, with the octets read so far.
unfoldable pub read_octets :
    ℕ → Bytes → HeadersInTransit → Result DecompressionError (Bytes × HeadersInTransit)
read_octets zero vec h = ok (vec, h)
read_octets (suc n) vec h = elim (read_u8 h) [
  | none ↦ err unexpected_end_of_file
  | some (byte, h') ↦ read_octets n (vec ++ byte ∷ []) h'
]

unfoldable pub read_string : HeadersInTransit → Result DecompressionError (Bytes × HeadersInTransit)
read_string h = do
  (first_octet, h1) ← ok_or (read_u8 h) unexpected_end_of_file
  (length, h2) ← ok_or (read_integer (bit_and first_octet 0x7f) 7 h1) unexpected_end_of_file
  (vec, h3) ← read_octets length [] h2
  text ←
      if not (bit_and first_octet 0x80 == 0x80)
      then ok_or (from_utf8 vec) invalid_utf8
      else ok_or (decode_huffman vec) unexpected_end_of_file
  ok (text, h3)
