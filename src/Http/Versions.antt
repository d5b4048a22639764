-- ===== src/Http/Versions.antt =====
-- `ContentEncodedVersions::get_version` of servente-resources/src/compression.rs.
use servente.Common.{Option, none, some, Bytes}
use servente.Http.HeaderValue.{ContentCoding, brotli, gzip}

-- `none` is the panic of an `unwrap`.
unfoldable pub get_version :
    Bytes → Option Bytes → Option Bytes → Option ContentCoding → Option Bytes
get_version uncompressed brotli_version gzip_version (some brotli) = brotli_version
get_version uncompressed brotli_version gzip_version (some gzip) = gzip_version
get_version uncompressed brotli_version gzip_version none = some uncompressed
