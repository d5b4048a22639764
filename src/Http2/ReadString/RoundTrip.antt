-- ===== src/Http2/ReadString/RoundTrip.antt =====
-- `read_string` (servente-http2/src/lib.rs) on what `write_hpack_string_huffman` wrote.
use servente.Common.{
  ℕ, ◌^◌, ◌<◌, ◌≡◌, refl, sym, ap, ◌∙◌, arith, bit_and, true, [], ◌∷◌, ◌++◌, append-nil,
  append_assoc, Bytes, length, length-append, drop, All, ◌==◌,
}
use servente.Common.Bits.{IsByte, and_80}
use servente.Common.Utf8.{IsUtf8}
use servente.Common.Result.{ok}
use servente.Http2.Transit.{HeadersInTransit}
use servente.Http2.Transit.View.{
  rest, advance, advance-advance, rest-advance, rest-advance_append, read_u8-cons,
}
use servente.Http2.Hpack.Number.{write_hpack_number}
use servente.Http2.Hpack.Number.RoundTrip.{read_integer-write_hpack_number}
use servente.Http2.Huffman.{write_hpack_string_huffman, calculate_string_length_in_huffman_bytes}
use servente.Http2.Huffman.RoundTrip.{decode_huffman-payload}
use servente.Http2.Huffman.Written.{payload, write_hpack_string_huffman-payload, length-payload}
use servente.Http2.ReadString.{read_octets, read_string}

-- With enough octets left, the loop takes exactly these.
pub read_octets-append :
    (xs vec more : Bytes) (h : HeadersInTransit)
    → rest h ≡ xs ++ more
    → read_octets (length xs) vec h ≡ ok (vec ++ xs, advance h (length xs))
unfolding read_octets
read_octets-append [] vec more h e = ground (arith, append-nil vec)
read_octets-append (x ∷ xs) vec more h e =
    rw (read_u8-cons h x (xs ++ more) e, read_octets)
      (read_octets-append xs (vec ++ x ∷ []) more (advance h 1) (rest-advance h 1 ∙ ap (drop 1) e)
        ∙ ap (λ (v : Bytes). ok (v, advance (advance h 1) (length xs)))
            (append_assoc vec (x ∷ []) xs)
        ∙ ap (λ (g : HeadersInTransit). ok (vec ++ x ∷ xs, g)) (advance-advance h 1 (length xs))
        ∙ ground arith)

-- A text is read back from its Huffman form, and the cursor stops behind it.
pub read_string-write_hpack_string_huffman :
    (value : Bytes) (h : HeadersInTransit) (more : Bytes)
    → All IsByte value
    → IsUtf8 value
    → calculate_string_length_in_huffman_bytes value < 2 ^ 64
    → rest h ≡ write_hpack_string_huffman value ++ more
    → read_string h ≡ ok (value, advance h (length (write_hpack_string_huffman value)))
unfolding read_string
read_string-write_hpack_string_huffman value h more bytes utf8 small e =
    let len = calculate_string_length_in_huffman_bytes value in
    let number : Bytes = write_hpack_number len 7 0x80 in
    let octets : Bytes = payload value in
    let shape = write_hpack_string_huffman-payload value in
    let first : rest h ≡ number ++ (octets ++ more) =
      e ∙ ap (λ (l : Bytes). l ++ more) shape ∙ append_assoc number octets more in
    let (b, r1, byte, high, r2) =
      read_integer-write_hpack_number len 7 0x80 h (octets ++ more) (omega arith) (omega arith) refl
        small first in
    let h2 : HeadersInTransit = advance h (length number) in
    let r3 : read_octets len [] h2 ≡ ok (octets, advance h2 (length octets)) =
      ap (λ (n : ℕ). read_octets n [] h2) (sym (length-payload value))
      ∙ read_octets-append octets [] more h2
          (rest-advance_append h number (octets ++ more) first) in
    let flag : (bit_and b 0x80 == 0x80) ≡ true = ground (arith, and_80 b byte) in
    let end : advance h2 (length octets) ≡ advance h (length (write_hpack_string_huffman value)) =
      advance-advance h (length number) (length octets)
      ∙ ap (advance h) (sym (length-append number octets) ∙ ap (length {0}) (sym shape)) in
    rw (r1, r2, r3, flag, decode_huffman-payload value bytes utf8)
      (ap (λ (g : HeadersInTransit). ok (value, g)) end)
