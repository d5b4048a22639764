-- ===== src/Http1.antt =====
-- The HTTP/1 implementation, servente-http1.
pub mod Stream
pub mod Read
pub mod Transfer
pub mod Wire
pub mod Exchange
