-- ===== src/Resources.antt =====
-- The files that are served, of servente-resources/src.
pub mod Compression
pub mod Exclude
pub mod Permissions
pub mod Cache
