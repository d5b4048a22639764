-- ===== src/Handling/Server.antt =====
-- What the handling of a request uses of the world around: the crates httpdate and urlencoding, the clock, the
-- files and the memory cache as they are while the request is handled, and the pages that are built in.
use servente.Common.{ℕ, Bool, Option, Bytes}
use servente.Resources.Cache.{Metadata}
use servente.Resources.Compression.{ContentEncodedVersions}

pub record Server : Type 0 where
  pub http_date : ℕ → Bytes
  pub parse_http_date : Bytes → Option ℕ
  pub decode : Bytes → Option Bytes
  pub now : ℕ
  pub current_dir : Option Bytes
  -- `std::fs::metadata` and `exists` of a path.
  pub metadata : Bytes → Option Metadata
  pub exists : Bytes → Bool
  -- The descriptor of a file that opens, and its metadata.
  pub open_file : Bytes → Option (ℕ × Option Metadata)
  pub modified : ℕ → Option ℕ
  -- `FILE_CACHE.get`
  pub cached : Bytes → Option ContentEncodedVersions
  pub welcome_html : Bytes
  pub welcome_html_nl : Bytes
  pub has_http2 : Bool
  pub has_http3 : Bool
  pub has_convert_markdown : Bool
  pub has_debug_assertions : Bool
