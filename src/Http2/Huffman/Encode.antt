-- ===== src/Http2/Huffman/Encode.antt =====
-- `write_hpack_string_huffman` of servente-http2/src/hpack.rs and its helper.
use servente.Common.{
  ℕ, zero, suc, ◌+◌, ◌-◌, ◌/◌, ◌%◌, none, some, [], ◌∷◌, Bytes, ◌==◌, if◌then◌else◌, get_or,
}
use servente.Http2.BitReader3
use servente.Http2.BitReader3.{BitReader3}
use servente.Http2.BitWriter
use servente.Http2.BitWriter.{BitWriter}
use servente.Http2.Huffman.Table.{HuffmanEntry, huffman_code, entry}
use servente.Http2.Hpack.Number.{write_hpack_number}

-- `HUFFMAN_CODE[byte as usize]`
unfoldable pub huffman_entry : ℕ → HuffmanEntry
unfolding huffman_code
huffman_entry b = get_or huffman_code b (entry 0 0)

unfoldable pub sum_lengths : Bytes → ℕ
unfolding huffman_entry
sum_lengths [] = 0
sum_lengths (b ∷ bs) = (huffman_entry b).length_in_bits + sum_lengths bs

unfoldable pub calculate_string_length_in_huffman_bytes : Bytes → ℕ
unfolding sum_lengths
calculate_string_length_in_huffman_bytes value =
    let len = sum_lengths value in if len % 8 == 0 then len / 8 else (len + (8 - len % 8)) / 8

-- `for bit in reader { writer.push(bit)?; }`, with a round for each bit.
unfoldable pub push_code : ℕ → BitReader3 → BitWriter → BitWriter
unfolding BitReader3.next BitWriter.push
push_code zero r w = w
push_code (suc fuel) r w = elim (BitReader3.next r) [
  | none ↦ w
  | some (bit, r') ↦ push_code fuel r' (BitWriter.push w bit)
]

-- The loop over the bytes of the value.
unfoldable pub push_string : Bytes → BitWriter → BitWriter
unfolding huffman_entry push_code BitReader3.new
push_string [] w = w
push_string (byte ∷ bytes) w =
    let e = huffman_entry byte in
    push_string bytes (push_code e.length_in_bits (BitReader3.new e.code e.length_in_bits) w)

-- What is appended to `self`.
unfoldable pub write_hpack_string_huffman : Bytes → Bytes
unfolding calculate_string_length_in_huffman_bytes push_string write_hpack_number BitWriter.new
    BitWriter.finish
write_hpack_string_huffman value =
    let len = calculate_string_length_in_huffman_bytes value in
    BitWriter.finish (push_string value (BitWriter.new (write_hpack_number len 7 0x80)))
