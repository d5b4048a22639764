-- ===== src/Http2/Huffman.antt =====
-- The Huffman code of HPACK in servente-http2/src/hpack.rs: the table of codes, the tree that
mod Prefix
pub mod Written
pub mod RoundTrip
-- decoding looks symbols up in, encoding and decoding.
mod Table
mod Tree
mod Encode
mod Decode
pub use Table.{HuffmanEntry, huffman_eos_entry}
unfoldable pub use Table.{huffman_code}
pub use Tree.{HuffmanTree, HuffmanValue, end_of_stream, symbol}
unfoldable pub use Tree.{insert_code, insert_symbols, huffman_tree, lookup_code}
unfoldable pub use Encode.{
  huffman_entry, sum_lengths, calculate_string_length_in_huffman_bytes, push_code, push_string,
  write_hpack_string_huffman,
}
pub use Decode.{DecodeState, initial}
unfoldable pub use Decode.{decode_bit, decode_step, decode_end, decode_loop, decode_huffman}
