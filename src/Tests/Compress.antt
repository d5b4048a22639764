-- ===== src/Tests/Compress.antt =====
-- The theorems on the compression of responses, at concrete inputs.
use servente.Common.{ℕ, [], Bytes, codes}
use servente.Http.HeaderName.{accept_encoding}
use servente.Http.HeaderValue
use servente.Http2.Hpack.Compress
use servente.Http2.Hpack.Compress.Candidate.{Fits, find_header-Fits}
use servente.Http2.Hpack.StaticTable.{static_table}

abbrev date : ℕ → Bytes
date time = []

find_header-Fits_example :
    Fits date accept_encoding
      (HeaderValue.string (codes "GZIP, Deflate"))
      (codes "GZIP, Deflate")
      static_table
      (Compress.find_header date accept_encoding
        (HeaderValue.string (codes "GZIP, Deflate"))
        (codes "GZIP, Deflate"))
find_header-Fits_example =
    find_header-Fits date accept_encoding (HeaderValue.string (codes "GZIP, Deflate"))
      (codes "GZIP, Deflate")
