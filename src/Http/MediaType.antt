-- ===== src/Http/MediaType.antt =====
-- The media types of servente-resources/src/media_type.rs, and that of a file by its extension.
use servente.Common.{◌==◌, Option, none, some, List, [], ◌∷◌, ◌++◌, Bytes, codes, if◌then◌else◌}
use servente.Common.Ascii.{eq_ignore_ascii_case}
use servente.Http.HeaderValue
use servente.Http.HeaderValue.{MediaType}

abbrev pub octet_stream : MediaType
octet_stream = HeaderValue.common (codes "application/octet-stream")

abbrev pub cascading_style_sheets : MediaType
cascading_style_sheets = HeaderValue.common (codes "text/css; charset=utf-8")

abbrev pub html : MediaType
html = HeaderValue.common (codes "text/html; charset=utf-8")

abbrev pub javascript : MediaType
javascript = HeaderValue.common (codes "text/javascript; charset=utf-8")

abbrev pub markdown : MediaType
markdown = HeaderValue.common (codes "text/markdown; charset=utf-8")

abbrev pub plain_text : MediaType
plain_text = HeaderValue.common (codes "text/plain; charset=utf-8")

abbrev pub yaml : MediaType
yaml = HeaderValue.common (codes "text/yaml; charset=utf-8")

abbrev pub json : MediaType
json = HeaderValue.common (codes "application/json; charset=utf-8")

abbrev pub pdf : MediaType
pdf = HeaderValue.common (codes "application/pdf")

abbrev pub zip : MediaType
zip = HeaderValue.common (codes "application/zip")

abbrev pub gzip : MediaType
gzip = HeaderValue.common (codes "application/gzip")

abbrev pub bzip2 : MediaType
bzip2 = HeaderValue.common (codes "application/x-bzip2")

abbrev pub xz : MediaType
xz = HeaderValue.common (codes "application/x-xz")

abbrev pub tar : MediaType
tar = HeaderValue.common (codes "application/x-tar")

abbrev pub xml : MediaType
xml = HeaderValue.common (codes "application/xml; charset=utf-8")

abbrev pub atom : MediaType
atom = HeaderValue.common (codes "application/atom+xml; charset=utf-8")

abbrev pub rss : MediaType
rss = HeaderValue.common (codes "application/rss+xml; charset=utf-8")

abbrev pub gif : MediaType
gif = HeaderValue.common (codes "image/gif")

abbrev pub ico : MediaType
ico = HeaderValue.common (codes "image/x-icon")

abbrev pub jpeg : MediaType
jpeg = HeaderValue.common (codes "image/jpeg")

abbrev pub png : MediaType
png = HeaderValue.common (codes "image/png")

abbrev pub svg : MediaType
svg = HeaderValue.common (codes "image/svg+xml")

abbrev pub webp : MediaType
webp = HeaderValue.common (codes "image/webp")

abbrev pub mp3 : MediaType
mp3 = HeaderValue.common (codes "audio/mpeg")

abbrev pub wav : MediaType
wav = HeaderValue.common (codes "audio/wav")

abbrev pub ogg_audio : MediaType
ogg_audio = HeaderValue.common (codes "audio/ogg")

abbrev pub mp4 : MediaType
mp4 = HeaderValue.common (codes "video/mp4")

abbrev pub webm : MediaType
webm = HeaderValue.common (codes "video/webm")

abbrev pub ogg_video : MediaType
ogg_video = HeaderValue.common (codes "video/ogg")

abbrev pub quicktime : MediaType
quicktime = HeaderValue.common (codes "video/quicktime")

abbrev pub mpeg : MediaType
mpeg = HeaderValue.common (codes "video/mpeg")

abbrev pub avi : MediaType
avi = HeaderValue.common (codes "video/x-msvideo")

abbrev pub flv : MediaType
flv = HeaderValue.common (codes "video/x-flv")

abbrev pub wmv : MediaType
wmv = HeaderValue.common (codes "video/x-ms-wmv")

abbrev pub woff : MediaType
woff = HeaderValue.common (codes "font/woff")

abbrev pub woff2 : MediaType
woff2 = HeaderValue.common (codes "font/woff2")

abbrev pub ttf : MediaType
ttf = HeaderValue.common (codes "font/ttf")

abbrev pub otf : MediaType
otf = HeaderValue.common (codes "font/otf")

abbrev pub eot : MediaType
eot = HeaderValue.common (codes "font/eot")

abbrev pub sfnt : MediaType
sfnt = HeaderValue.common (codes "font/sfnt")

abbrev pub svg_font : MediaType
svg_font = HeaderValue.common (codes "font/svg")

abbrev pub media_type_by_extension : List (Bytes × MediaType)
media_type_by_extension =
    (codes "css", cascading_style_sheets)
    ∷ (codes "htm", html)
    ∷ (codes "html", html)
    ∷ (codes "js", javascript)
    ∷ (codes "md", markdown)
    ∷ (codes "txt", plain_text)
    ∷ (codes "yaml", yaml)
    ∷ (codes "json", json)
    ∷ (codes "pdf", pdf)
    ∷ (codes "zip", zip)
    ∷ (codes "gz", gzip)
    ∷ (codes "bz2", bzip2)
    ∷ (codes "xz", xz)
    ∷ (codes "tar", tar)
    ∷ (codes "xml", xml)
    ∷ (codes "atom", atom)
    ∷ (codes "rss", rss)
    ∷ (codes "gif", gif)
    ∷ (codes "ico", ico)
    ∷ (codes "jpeg", jpeg)
    ∷ (codes "jpg", jpeg)
    ∷ (codes "png", png)
    ∷ (codes "svg", svg)
    ∷ (codes "webp", webp)
    ∷ (codes "mp3", mp3)
    ∷ (codes "wav", wav)
    ∷ (codes "ogg", ogg_audio)
    ∷ (codes "mp4", mp4)
    ∷ (codes "webm", webm)
    ∷ (codes "ogv", ogg_video)
    ∷ (codes "mov", quicktime)
    ∷ (codes "mpeg", mpeg)
    ∷ (codes "avi", avi)
    ∷ (codes "flv", flv)
    ∷ (codes "wmv", wmv)
    ∷ (codes "woff", woff)
    ∷ (codes "woff2", woff2)
    ∷ (codes "ttf", ttf)
    ∷ (codes "otf", otf)
    ∷ (codes "eot", eot)
    ∷ (codes "sfnt", sfnt)
    ∷ (codes "svgf", svg_font)
    ∷ []

-- `get` of the crate phf's map, whose keys are the same if they differ in the case of ASCII letters only.
unfoldable pub find_extension : Bytes → List (Bytes × MediaType) → Option MediaType
unfolding eq_ignore_ascii_case
find_extension extension [] = none
find_extension extension ((key, found) ∷ entries) =
    let later = find_extension extension entries in
    if eq_ignore_ascii_case key extension then some found else later

unfoldable pub from_extension : Bytes → MediaType
unfolding find_extension
from_extension extension = elim (find_extension extension media_type_by_extension) [
  | some found ↦ found
  | none ↦ octet_stream
]

-- The last part of `rsplit` at a full stop, which is the whole text where there is none.
unfoldable pub last_part : Bytes → Bytes → Bytes
last_part part [] = part
last_part part (b ∷ text) = last_part (if b == b'.' then [] else part ++ b ∷ []) text

unfoldable pub from_path : Bytes → MediaType
unfolding from_extension last_part
from_path path = from_extension (last_part [] path)
