-- ===== src/Http2/Hpack.antt =====
-- HPACK, servente-http2/src/hpack.rs.
pub mod Number
pub mod StaticTable
pub mod DynamicTable
pub mod Compress
