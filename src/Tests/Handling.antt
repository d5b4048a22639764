-- ===== src/Tests/Handling.antt =====
-- Media types of files, and the trimming of texts.
use servente.Common.{◌≡◌, refl, codes}
use servente.Common.Trim.{trim}
use servente.Http.MediaType.{from_path, octet_stream, javascript}

from_path_upper : from_path (codes "/app.min.JS") ≡ javascript
unfolding from_path
from_path_upper = refl

from_path_unknown : from_path (codes "/readme") ≡ octet_stream
unfolding from_path
from_path_unknown = refl

trim_both : trim (codes "  bytes=0-499, -500 ") ≡ codes "bytes=0-499, -500"
unfolding trim
trim_both = refl
