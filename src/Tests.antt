-- ===== src/Tests.antt =====
-- Runs of the code at concrete inputs, and applications of the theorems to them.
mod Huffman
mod Http
mod Hpack
mod Streams
mod Table
mod Decode
mod Frame
mod Compress
mod Read
mod Transfer
mod Handling
mod Resources
mod Served
mod Paths
mod Exchange
