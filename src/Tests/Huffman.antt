-- ===== src/Tests/Huffman.antt =====
-- Runs of the Huffman code, with the inputs of the source's tests.
use servente.Common.{◌≡◌, refl, some, none, [], ◌∷◌, codes}
use servente.Http2.Huffman.{write_hpack_string_huffman, decode_huffman}

encode_no_cache :
    write_hpack_string_huffman (codes "no-cache")
    ≡ 0x86 ∷ 0xa8 ∷ 0xeb ∷ 0x10 ∷ 0x64 ∷ 0x9c ∷ 0xbf ∷ []
unfolding write_hpack_string_huffman
encode_no_cache = refl

decode_no_cache :
    decode_huffman (0xa8 ∷ 0xeb ∷ 0x10 ∷ 0x64 ∷ 0x9c ∷ 0xbf ∷ []) ≡ some (codes "no-cache")
unfolding decode_huffman
decode_no_cache = refl

-- Padding with a zero, and a whole byte of padding.
decode_bad_padding : decode_huffman (0xa8 ∷ 0xeb ∷ 0x10 ∷ 0x64 ∷ 0x9c ∷ 0xbe ∷ []) ≡ none
unfolding decode_huffman
decode_bad_padding = refl

decode_long_padding : decode_huffman (0x07 ∷ 0xff ∷ 0xff ∷ []) ≡ none
unfolding decode_huffman
decode_long_padding = refl
