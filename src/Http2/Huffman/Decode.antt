-- ===== src/Http2/Huffman/Decode.antt =====
-- `decode_huffman` of servente-http2/src/hpack.rs.
use servente.Common.{
  ℕ, zero, suc, ◌+◌, ◌-◌, ◌*◌, ◌%◌, ◌^◌, bit_or, Bool, not, ◌&&◌, Option, none, some, [], ◌∷◌, ◌++◌,
  Bytes, ltb, ◌==◌, if◌then◌else◌,
}
use servente.Common.Utf8.{from_utf8}
use servente.Http2.BitReader
use servente.Http2.BitReader.{BitReader}
use servente.Http2.Huffman.Tree.{HuffmanTree, end_of_stream, symbol, lookup_code, huffman_tree}

-- The locals of `decode_huffman`.
pub record DecodeState : Type 0 where
  pub output : Bytes
  pub current_number : ℕ
  pub bit_length : ℕ

abbrev pub initial : DecodeState
initial = record { output = []; current_number = 0; bit_length = 0 }

-- The body of the loop, behind the test for 255; `none` is its `return None`.
unfoldable pub decode_bit : HuffmanTree → DecodeState → Bool → Option DecodeState
unfolding lookup_code
decode_bit tree s bit =
    let bit_length = s.bit_length + 1 in
    let shifted = s.current_number * 2 % 2 ^ 32 in
    let current_number = if bit then bit_or shifted 1 else shifted in
    elim (lookup_code tree bit_length current_number) [
      | some end_of_stream ↦ none
      | some (symbol sym) ↦
          some (record { output = s.output ++ sym ∷ []; current_number = 0; bit_length = 0 })
      | none ↦
          some
            (record { output = s.output; current_number = current_number; bit_length = bit_length })
    ]

unfoldable pub decode_step : HuffmanTree → DecodeState → Bool → Option DecodeState
unfolding decode_bit
decode_step tree s bit = if s.bit_length == 255 then none else decode_bit tree s bit

-- What stands behind the loop.
unfoldable pub decode_end : DecodeState → Option Bytes
unfolding from_utf8
decode_end s =
    if ltb 7 s.bit_length
    then none
    else if not (s.bit_length == 0) && not (2 ^ s.bit_length - 1 == s.current_number)
    then none
    else from_utf8 s.output

-- `for bit in reader`. The reader has at most `total_bits` bits, so that many rounds are enough.
unfoldable pub decode_loop : HuffmanTree → ℕ → BitReader → DecodeState → Option Bytes
unfolding BitReader.next decode_step decode_end
decode_loop tree zero r s = decode_end s
decode_loop tree (suc fuel) r s = elim (BitReader.next r) [
  | none ↦ decode_end s
  | some (bit, r') ↦ elim (decode_step tree s bit) [
    | none ↦ none
    | some s' ↦ decode_loop tree fuel r' s'
  ]
]

unfoldable pub decode_huffman : Bytes → Option Bytes
unfolding decode_loop huffman_tree BitReader.new
decode_huffman input =
    let r = BitReader.new input none in decode_loop huffman_tree r.total_bits r initial
