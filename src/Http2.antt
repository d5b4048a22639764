-- ===== src/Http2.antt =====
-- The HTTP/2 implementation, servente-http2.
pub mod Transit
pub mod Hpack
pub mod BitReader
pub mod BitReader3
pub mod BitWriter
pub mod Huffman
pub mod Errors
pub mod ReadString
pub mod Validate
pub mod Sink
pub mod Decode
pub mod Frame
pub mod Streams
