-- ===== src/Http2/Huffman/Written.antt =====
-- The bits that `write_hpack_string_huffman` (servente-http2/src/hpack.rs) writes.
use servente.Common.{
  ℕ, zero, suc, ◌+◌, ◌-◌, ◌*◌, ◌/◌, ◌%◌, ◌^◌, ◌<◌, bit_and, bit_or, false, ◌≡◌, refl, sym, ap, ◌∙◌,
  arith, true, [], ◌∷◌, ◌++◌, append-nil, append_assoc, Bytes, ◌==◌, if◌then◌else◌, length,
  length-append, replicate, Bool, Bool-cases, Option-cases, inl, inr,
}
use servente.Common.BitString.{Bits, code_bits, bytes_bits, length-code_bits, length-bytes_bits}
use servente.Http2.BitReader3
use servente.Http2.BitReader3.{BitReader3}
use servente.Http2.BitWriter
use servente.Http2.BitWriter.{BitWriter}
use servente.Http2.BitWriter.View.{
  IsValid, view, new-IsValid, view-new, push-IsValid, view-push, view-finish,
}
use servente.Http2.Hpack.Number.{write_hpack_number}
use servente.Http2.Huffman.Encode.{
  huffman_entry, sum_lengths, calculate_string_length_in_huffman_bytes, push_code, push_string,
  write_hpack_string_huffman,
}
use servente.Http2.Huffman.Prefix.{symbol_bits, string_bits}

-- From a position with `k` bits to go, the loop pushes these bits.
push_code_lem :
    (k code bits position : ℕ) (w : BitWriter)
    → position + k ≡ bits
    → IsValid w
    → (let w' = push_code k (record { code = code; bits = bits; bit_position = position }) w in
        IsValid w' × (view w' ≡ view w ++ code_bits code k))
unfolding push_code
push_code_lem zero code bits position w e v = (v, sym (append-nil (view w)))
push_code_lem (suc k) code bits position w e v =
    let more : (position == bits) ≡ false = ground arith in
    let at : bits - 1 - position ≡ k = omega arith in
    let bit = bit_and (code / 2 ^ k) 1 == 1 in
    let (v', rest) =
      push_code_lem k code bits (position + 1) (BitWriter.push w bit) (omega arith)
        (push-IsValid w bit v) in
    rw (more, at, push_code)
      (
        v',
        rest
            ∙ ap (λ (l : Bits). l ++ code_bits code k) (view-push w bit v)
            ∙ append_assoc (view w) (bit ∷ []) (code_bits code k),
      )

push_string_lem :
    (bytes : Bytes) (w : BitWriter)
    → IsValid w
    → IsValid (push_string bytes w) × (view (push_string bytes w) ≡ view w ++ string_bits bytes)
unfolding push_string symbol_bits
push_string_lem [] w v = (v, sym (append-nil (view w)))
push_string_lem (b ∷ bs) w v =
    let e = huffman_entry b in
    let (v', here) = push_code_lem e.length_in_bits e.code e.length_in_bits 0 w (omega arith) v in
    let (v'', later) = push_string_lem bs _ v' in
    (v'', later ∙ ap (λ (l : Bits). l ++ string_bits bs) here ∙ append_assoc (view w) _ _)

-- What was written before the string stays in front.
abbrev onto : Bytes → BitWriter → BitWriter
onto front w = record w { written = front ++ w.written }

push-onto :
    (front : Bytes) (w : BitWriter) (bit : Bool)
    → BitWriter.push (onto front w) bit ≡ onto front (BitWriter.push w bit)
unfolding BitWriter.push
push-onto front w bit = elim (Bool-cases (w.bit_position == 0)) [
  | inl last ↦ rw last (λ i. record {
    written =
        append_assoc front w.written
          (bit_or w.current_byte ((if bit then 1 else 0) * 2 ^ w.bit_position % 256) ∷ []) i;
    current_byte = 0;
    bit_position = 7;
  })
  | inr inner ↦ rw inner
]

push_code-onto :
    (k : ℕ) (front : Bytes) (r : BitReader3) (w : BitWriter)
    → push_code k r (onto front w) ≡ onto front (push_code k r w)
unfolding push_code
push_code-onto zero front r w = refl
push_code-onto (suc k) front r w = elim (Option-cases (BitReader3.next r)) [
  | inl e ↦ rw (e, push_code)
  | inr ((bit, r'), e) ↦
      rw (e, push_code)
        (ap (push_code k r') (push-onto front w bit)
          ∙ push_code-onto k front r' (BitWriter.push w bit))
]

push_string-onto :
    (bytes front : Bytes) (w : BitWriter)
    → push_string bytes (onto front w) ≡ onto front (push_string bytes w)
unfolding push_string
push_string-onto [] front w = refl
push_string-onto (b ∷ bs) front w =
    let e = huffman_entry b in
    let r = BitReader3.new e.code e.length_in_bits in
    ap (push_string bs) (push_code-onto e.length_in_bits front r w)
    ∙ push_string-onto bs front (push_code e.length_in_bits r w)

finish-onto :
    (front : Bytes) (w : BitWriter) → BitWriter.finish (onto front w) ≡ front ++ BitWriter.finish w
unfolding BitWriter.finish
finish-onto front w = elim (Bool-cases (w.bit_position == 7)) [
  | inl whole ↦ rw whole
  | inr part ↦ rw part (append_assoc front w.written _)
]

-- The octets of the string alone, behind its length.
unfoldable pub payload : Bytes → Bytes
unfolding push_string BitWriter.finish BitWriter.new
payload value = BitWriter.finish (push_string value (BitWriter.new []))

pub write_hpack_string_huffman-payload :
    (value : Bytes)
    → write_hpack_string_huffman value
      ≡ write_hpack_number (calculate_string_length_in_huffman_bytes value) 7 0x80 ++ payload value
unfolding write_hpack_string_huffman payload
write_hpack_string_huffman-payload value =
    let number = write_hpack_number (calculate_string_length_in_huffman_bytes value) 7 0x80 in
    ap (λ (front : Bytes). BitWriter.finish (push_string value (BitWriter.new front)))
      (sym (append-nil number))
    ∙ ap BitWriter.finish (push_string-onto value number (BitWriter.new []))
    ∙ finish-onto number (push_string value (BitWriter.new []))

pub payload_bits :
    (value : Bytes)
    → (k : ℕ) × (k < 8) × (bytes_bits (payload value) ≡ string_bits value ++ replicate k true)
unfolding payload
payload_bits value =
    let (v, pushed) = push_string_lem value (BitWriter.new []) (new-IsValid []) in
    let (k, small, bits) = view-finish (push_string value (BitWriter.new [])) v in
    (
      k,
      small,
      bits
          ∙ ap (λ (l : Bits). l ++ replicate k true)
              (pushed ∙ ap (λ (l : Bits). l ++ string_bits value) (view-new [])),
    )

length-string_bits : (value : Bytes) → length (string_bits value) ≡ sum_lengths value
unfolding sum_lengths symbol_bits
length-string_bits [] = refl
length-string_bits (b ∷ bs) =
    let e = huffman_entry b in
    omega (
      arith,
      length-append (symbol_bits b) (string_bits bs),
      length-code_bits e.code e.length_in_bits,
      length-string_bits bs,
    )

pub length-replicate : (k : ℕ) → length (replicate k true) ≡ k
length-replicate zero = refl
length-replicate (suc k) = ap suc (length-replicate k)

-- The length that is written in front of the octets is their number.
pub length-payload :
    (value : Bytes) → length (payload value) ≡ calculate_string_length_in_huffman_bytes value
unfolding calculate_string_length_in_huffman_bytes
length-payload value =
    let (k, small, bits) = payload_bits value in
    let sum : 8 * length (payload value) ≡ sum_lengths value + k = omega (
      arith,
      length-bytes_bits (payload value),
      ap (length {0}) bits,
      length-append (string_bits value) (replicate k true),
      length-string_bits value,
      length-replicate k,
    ) in
    ground (arith, sum)
