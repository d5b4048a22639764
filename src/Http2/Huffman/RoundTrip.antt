-- ===== src/Http2/Huffman/RoundTrip.antt =====
-- `decode_huffman` on what `write_hpack_string_huffman` wrote (servente-http2/src/hpack.rs).
use servente.Common.{
  ℕ, zero, suc, ◌*◌, ◌≤◌, ◌≡◌, refl, ap, ◌∙◌, arith, Option, none, some, [], ◌∷◌, Bytes, length,
  All, Option-cases, inl, inr,
}
use servente.Common.Bits.{IsByte}
use servente.Common.Utf8.{IsUtf8}
use servente.Common.BitString.{Bits, bytes_bits, length-bytes_bits}
use servente.Http2.BitReader
use servente.Http2.BitReader.{BitReader}
use servente.Http2.BitReader.View.{IsValid, view, next-nil, next-cons, new-IsValid, view-new}
use servente.Http2.Huffman.Tree.{HuffmanTree, huffman_tree}
use servente.Http2.Huffman.Decode.{
  DecodeState, initial, decode_step, decode_end, decode_loop, decode_huffman,
}
use servente.Http2.Huffman.Prefix.{decode_bits, decode_bits-string_bits, decode_end-padding}
use servente.Http2.Huffman.Written.{payload, payload_bits}

abbrev end_of : Option DecodeState → Option Bytes
end_of none = none
end_of (some s) = decode_end s

-- The loop over the reader is the loop over the bits that the reader has left.
decode_loop-decode_bits :
    (tree : HuffmanTree) (bits : Bits) (fuel : ℕ) (r : BitReader) (s : DecodeState)
    → IsValid r
    → view r ≡ bits
    → length bits ≤ fuel
    → decode_loop tree fuel r s ≡ end_of (decode_bits tree bits s)
unfolding decode_loop decode_bits
decode_loop-decode_bits tree [] zero r s v e h = refl
decode_loop-decode_bits tree [] (suc fuel) r s v e h = rw (next-nil r v e, decode_loop)
decode_loop-decode_bits tree (b ∷ bits) zero r s v e h = absurd (omega arith)
decode_loop-decode_bits tree (b ∷ bits) (suc fuel) r s v e h =
    let n = next-cons r b bits v e in
    elim (Option-cases (decode_step tree s b)) [
      | inl d ↦ rw (n.steps, decode_loop) (rw (d, decode_bits))
      | inr (s', d) ↦
          rw (n.steps, decode_loop)
            (rw (d, decode_bits)
              (decode_loop-decode_bits tree bits fuel n.reader s' n.valid n.left (omega arith)))
    ]

-- Decoding is a function of the bits of the input alone.
decode_huffman-decode_bits :
    (input : Bytes)
    → decode_huffman input ≡ end_of (decode_bits huffman_tree (bytes_bits input) initial)
unfolding decode_huffman
decode_huffman-decode_bits input =
    decode_loop-decode_bits huffman_tree (bytes_bits input) (length input * 8)
      (BitReader.new input none) initial (new-IsValid input) (view-new input)
      (omega (arith, length-bytes_bits input))

-- Every text is read back from its Huffman octets, whatever its bytes are.
pub decode_huffman-payload :
    (value : Bytes) → All IsByte value → IsUtf8 value → decode_huffman (payload value) ≡ some value
decode_huffman-payload value bytes utf8 =
    let (k, small, bits) = payload_bits value in
    decode_huffman-decode_bits (payload value)
    ∙ ap (λ (l : Bits). end_of (decode_bits huffman_tree l initial)) bits
    ∙ ap end_of (decode_bits-string_bits value [] k bytes small)
    ∙ decode_end-padding value k small
    ∙ utf8
