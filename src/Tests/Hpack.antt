-- ===== src/Tests/Hpack.antt =====
-- The theorems on numbers, strings and bits of HPACK, at concrete inputs.
use servente.Common.{ℕ, ◌-◌, ◌/◌, ◌^◌, ◌<◌, ◌≡◌, refl, arith, bit_and, some, [], ◌∷◌, codes, length}
use servente.Common.Result.{ok}
use servente.Common.Utf8.{from_utf8}
use servente.Http2.BitReader.{BitReader}
use servente.Http2.BitReader.View as ReaderView
use servente.Http2.BitReader.View.{Steps, next-cons}
use servente.Http2.BitWriter.{BitWriter}
use servente.Http2.BitWriter.View as WriterView
use servente.Http2.BitWriter.View.{view-push, view-finish}
use servente.Http2.Hpack.Number.{write_hpack_number}
use servente.Http2.Hpack.Number.RoundTrip.{read_integer-write_hpack_number}
use servente.Http2.Huffman.{
  decode_huffman, write_hpack_string_huffman, calculate_string_length_in_huffman_bytes,
}
use servente.Http2.Huffman.RoundTrip.{decode_huffman-payload}
use servente.Http2.Huffman.Written.{payload}
use servente.Http2.ReadString.{read_string}
use servente.Http2.ReadString.RoundTrip.{read_string-write_hpack_string_huffman}
use servente.Http2.Transit.{HeadersInTransit, read_u8, read_integer}
use servente.Http2.Transit.View.{advance}

-- 1337 with a prefix of five bits, in two fragments.
abbrev number_block : HeadersInTransit
number_block = record { headers = (0x3f ∷ []) ∷ (0x9a ∷ 0x0a ∷ 0xff ∷ []) ∷ []; cursor = 0 }

read_integer-write_hpack_number_example :
    (b : ℕ) × (read_u8 number_block ≡ some (b, advance number_block 1))
    × (b < 256)
    × (b / 2 ^ 5 ≡ 0x20 / 2 ^ 5)
    × (read_integer (bit_and b (2 ^ 5 - 1)) 5 (advance number_block 1)
        ≡ some (1337, advance number_block (length (write_hpack_number 1337 5 0x20))))
unfolding write_hpack_number
read_integer-write_hpack_number_example =
    read_integer-write_hpack_number 1337 5 0x20 number_block (0xff ∷ []) (omega arith) (omega arith)
      refl (omega arith) refl

decode_huffman-payload_example : decode_huffman (payload (codes "hi")) ≡ some (codes "hi")
unfolding from_utf8
decode_huffman-payload_example =
    decode_huffman-payload (codes "hi") (omega arith, (omega arith, tt)) refl

abbrev string_block : HeadersInTransit
string_block = record {
  headers = (0x86 ∷ 0xa8 ∷ 0xeb ∷ []) ∷ (0x10 ∷ 0x64 ∷ 0x9c ∷ 0xbf ∷ 0x00 ∷ []) ∷ [];
  cursor = 0;
}

read_string-write_hpack_string_huffman_example :
    read_string string_block
    ≡ ok (
      codes "no-cache",
      advance string_block (length (write_hpack_string_huffman (codes "no-cache"))),
    )
unfolding write_hpack_string_huffman calculate_string_length_in_huffman_bytes from_utf8
read_string-write_hpack_string_huffman_example =
    read_string-write_hpack_string_huffman (codes "no-cache") string_block (0x00 ∷ [])
      (
        omega arith,
        (
          omega arith,
          (
            omega arith,
            (omega arith, (omega arith, (omega arith, (omega arith, (omega arith, tt))))),
          ),
        ),
      )
      refl (omega arith) refl

abbrev reader : BitReader
reader = record { buffer = 0xa5 ∷ []; byte_cursor = 0; bit_cursor = 7; total_bits = 8 }

abbrev reader_bits : ReaderView.IsValid reader
reader_bits = record { whole = refl; bit = omega arith }

abbrev read_out : BitReader
read_out = record { buffer = 0xa5 ∷ []; byte_cursor = 1; bit_cursor = 7; total_bits = 8 }

-- Two bits behind a byte.
abbrev writer : BitWriter
writer = record { written = 0x01 ∷ []; current_byte = 0x80; bit_position = 5 }

abbrev writer-IsValid : WriterView.IsValid writer
writer-IsValid = record { position = omega arith; byte = omega arith; clear = refl }
