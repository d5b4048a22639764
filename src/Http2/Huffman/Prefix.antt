-- ===== src/Http2/Huffman/Prefix.antt =====
-- The code is a prefix code: read from the start of a symbol, the bits of its code give the symbol
-- and nothing before. (`HUFFMAN_CODE` and `decode_huffman` of servente-http2/src/hpack.rs.)
use servente.Common.{
  ℕ, ◌+◌, ◌-◌, ◌^◌, ◌<◌, ◌≡◌, refl, sym, ap, ◌∙◌, arith, Bool, true, false, ◌&&◌, Option, none,
  some, [], ◌∷◌, ◌++◌, append_assoc, Bytes, bytes_eq, bytes_eq_iff, ◌==◌, if◌then◌else◌, replicate,
  All, append-nil, Option-cases, inl, inr, ◌*◌, ◌%◌, bit_or,
}
use servente.Common.Bits.{IsByte, all_below, all_below_sound}
use servente.Common.BitString.{Bits, code_bits}
use servente.Http2.Huffman.Tree.{
  HuffmanTree, HuffmanValue, end_of_stream, symbol, huffman_tree, lookup_code,
}
use servente.Http2.Huffman.Encode.{huffman_entry}
use servente.Http2.Huffman.Decode.{DecodeState, initial, decode_bit, decode_step, decode_end}
use servente.Common.Utf8.{from_utf8}

-- The loop of `decode_huffman` over a list of bits.
unfoldable pub decode_bits : HuffmanTree → Bits → DecodeState → Option DecodeState
decode_bits tree [] s = some s
decode_bits tree (b ∷ bs) s = elim (decode_step tree s b) [
  | none ↦ none
  | some s' ↦ decode_bits tree bs s'
]

-- What was put out before stands in front of the output, and changes nothing else.
abbrev pub behind : Bytes → DecodeState → DecodeState
behind out s = record s { output = out ++ s.output }

abbrev pub map_state : (DecodeState → DecodeState) → Option DecodeState → Option DecodeState
map_state f none = none
map_state f (some s) = some (f s)

decode_step-behind :
    (tree : HuffmanTree) (out : Bytes) (s : DecodeState) (b : Bool)
    → decode_step tree (behind out s) b ≡ map_state (behind out) (decode_step tree s b)
unfolding decode_step decode_bit
decode_step-behind tree out s b = split (lookup_code tree (s.bit_length + 1) number) refl
  where
    number : ℕ
    number = let shifted = s.current_number * 2 % 2 ^ 32 in if b then bit_or shifted 1 else shifted

    split :
        (o : Option HuffmanValue)
        → lookup_code tree (s.bit_length + 1) number ≡ o
        → decode_step tree (behind out s) b ≡ map_state (behind out) (decode_step tree s b)
    split none e = ground (arith, e)
    split (some end_of_stream) e = ground (arith, e)
    split (some (symbol sym)) e = ground (arith, e, append_assoc out s.output (sym ∷ []))

decode_bits-behind :
    (tree : HuffmanTree) (out : Bytes) (bs : Bits) (s : DecodeState)
    → decode_bits tree bs (behind out s) ≡ map_state (behind out) (decode_bits tree bs s)
unfolding decode_bits
decode_bits-behind tree out [] s = refl
decode_bits-behind tree out (b ∷ bs) s = elim (Option-cases (decode_step tree s b)) [
  | inl e ↦ rw (decode_step-behind tree out s b, e, decode_bits)
  | inr (s', e) ↦
      rw (decode_step-behind tree out s b, e, decode_bits) (decode_bits-behind tree out bs s')
]

decode_bits-append :
    (tree : HuffmanTree) (xs bs : Bits) (s : DecodeState) {t : DecodeState}
    → decode_bits tree xs s ≡ some t
    → decode_bits tree (xs ++ bs) s ≡ decode_bits tree bs t
unfolding decode_bits
decode_bits-append tree [] bs s h = ground arith
decode_bits-append tree (x ∷ xs) bs s h = elim (Option-cases (decode_step tree s x)) [
  | inl e ↦ cc (rw (e, decode_bits) at h)
  | inr (s', e) ↦ rw (e, decode_bits) (decode_bits-append tree xs bs s' (rw (e, decode_bits) at h))
]

-- A state with this output, current number and length.
abbrev pub state : Bytes → ℕ → ℕ → DecodeState
state out n k = record { output = out; current_number = n; bit_length = k }

is_state : DecodeState → Option DecodeState → Bool
is_state t none = false
is_state t (some s) =
    bytes_eq s.output t.output
    && s.current_number == t.current_number
    && s.bit_length == t.bit_length

is_state→eq : (t : DecodeState) (o : Option DecodeState) → is_state t o ≡ true → o ≡ some t
unfolding is_state
is_state→eq t none h = cc
is_state→eq t (some s) h = ground (arith, bytes_eq_iff s.output t.output)

unfoldable pub symbol_bits : ℕ → Bits
symbol_bits sym = let e = huffman_entry sym in code_bits e.code e.length_in_bits

codes_table :
    (let tree = huffman_tree in
      all_below 256
        (λ sym. is_state (state (sym ∷ []) 0 0) (decode_bits tree (symbol_bits sym) initial)))
    ≡ true
unfolding all_below is_state decode_bits decode_step huffman_tree symbol_bits huffman_entry
codes_table = refl

padding_table :
    all_below 8
      (λ k. is_state (state [] (2 ^ k - 1) k) (decode_bits huffman_tree (replicate k true) initial))
    ≡ true
unfolding all_below is_state decode_bits decode_step huffman_tree
padding_table = refl

-- From a state with nothing pending, the bits of a list put that state behind what was put out.
decode_bits-fresh :
    (out : Bytes) (bs : Bits) (t : DecodeState)
    → decode_bits huffman_tree bs initial ≡ some t
    → decode_bits huffman_tree bs (state out 0 0) ≡ some (behind out t)
decode_bits-fresh out bs t h =
    ap (λ (o : Bytes). decode_bits huffman_tree bs (state o 0 0)) (sym (append-nil out))
    ∙ decode_bits-behind huffman_tree out bs initial
    ∙ rw h

decode_bits-symbol :
    (b : ℕ) (out : Bytes) (bs : Bits)
    → b < 256
    → decode_bits huffman_tree (symbol_bits b ++ bs) (state out 0 0)
      ≡ decode_bits huffman_tree bs (state (out ++ b ∷ []) 0 0)
decode_bits-symbol b out bs h = decode_bits-append huffman_tree (symbol_bits b) bs (state out 0 0) (
    decode_bits-fresh out (symbol_bits b) (state (b ∷ []) 0 0) (
      is_state→eq (state (b ∷ []) 0 0) (decode_bits huffman_tree (symbol_bits b) initial) (
        all_below_sound 256
          (λ b. is_state (state (b ∷ []) 0 0) (decode_bits huffman_tree (symbol_bits b) initial)) b
          codes_table h)))

-- The bits of a string, code after code.
abbrev pub string_bits : Bytes → Bits
string_bits [] = []
string_bits (b ∷ bs) = symbol_bits b ++ string_bits bs

-- The codes of a string, and fewer than eight ones behind them, decode to the string.
pub decode_bits-string_bits :
    (bytes out : Bytes) (k : ℕ)
    → All IsByte bytes
    → k < 8
    → decode_bits huffman_tree (string_bits bytes ++ replicate k true) (state out 0 0)
      ≡ some (state (out ++ bytes) (2 ^ k - 1) k)
decode_bits-string_bits [] out k h hk =
    decode_bits-fresh out (replicate k true) (state [] (2 ^ k - 1) k) (
      is_state→eq (state [] (2 ^ k - 1) k) (decode_bits huffman_tree (replicate k true) initial) (
        all_below_sound 8
          (λ k.
            is_state (state [] (2 ^ k - 1) k) (decode_bits huffman_tree (replicate k true) initial))
          k padding_table hk))
decode_bits-string_bits (b ∷ bs) out k (hb, hbs) hk =
    ap (λ (l : Bits). decode_bits huffman_tree l (state out 0 0))
      (append_assoc (symbol_bits b) (string_bits bs) (replicate k true))
    ∙ decode_bits-symbol b out (string_bits bs ++ replicate k true) hb
    ∙ decode_bits-string_bits bs (out ++ b ∷ []) k hbs hk
    ∙ ap (λ (o : Bytes). some (state o (2 ^ k - 1) k)) (append_assoc out (b ∷ []) bs)

-- Such a state ends with the text that was put out.
pub decode_end-padding :
    (bytes : Bytes) (k : ℕ) → k < 8 → decode_end (state bytes (2 ^ k - 1) k) ≡ from_utf8 bytes
unfolding decode_end
decode_end-padding bytes k h = ground arith
