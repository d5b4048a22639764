-- ===== src/Http/SecFetchDest.antt =====
-- `SecFetchDest` of servente-http/src/header_value/sec_fetch_dest.rs.
use servente.Common.{Option, none, some, Bytes, bytes_eq, codes, if◌then◌else◌, ◌≡◌, refl}

pub data SecFetchDest : Type 0 where
  audio audio_worklet document embed empty font frame iframe image manifest : SecFetchDest
  object paint_worklet report script service_worker shared_worker style : SecFetchDest
  track video worker xslt : SecFetchDest

unfoldable pub parse : Bytes → Option SecFetchDest
parse value =
    if bytes_eq value (codes "audio")
    then some audio
    else if bytes_eq value (codes "audioworklet")
    then some audio_worklet
    else if bytes_eq value (codes "document")
    then some document
    else if bytes_eq value (codes "embed")
    then some embed
    else if bytes_eq value (codes "empty")
    then some empty
    else if bytes_eq value (codes "font")
    then some font
    else if bytes_eq value (codes "frame")
    then some frame
    else if bytes_eq value (codes "iframe")
    then some iframe
    else if bytes_eq value (codes "image")
    then some image
    else if bytes_eq value (codes "manifest")
    then some manifest
    else if bytes_eq value (codes "object")
    then some object
    else if bytes_eq value (codes "paintworklet")
    then some paint_worklet
    else if bytes_eq value (codes "report")
    then some report
    else if bytes_eq value (codes "script")
    then some script
    else if bytes_eq value (codes "serviceworker")
    then some service_worker
    else if bytes_eq value (codes "sharedworker")
    then some shared_worker
    else if bytes_eq value (codes "style")
    then some style
    else if bytes_eq value (codes "track")
    then some track
    else if bytes_eq value (codes "video")
    then some video
    else if bytes_eq value (codes "worker")
    then some worker
    else if bytes_eq value (codes "xslt")
    then some xslt
    else none

unfoldable pub as_str : SecFetchDest → Bytes
as_str audio = codes "audio"
as_str audio_worklet = codes "audioworklet"
as_str document = codes "document"
as_str embed = codes "embed"
as_str empty = codes "empty"
as_str font = codes "font"
as_str frame = codes "frame"
as_str iframe = codes "iframe"
as_str image = codes "image"
as_str manifest = codes "manifest"
as_str object = codes "object"
as_str paint_worklet = codes "paintworklet"
as_str report = codes "report"
as_str script = codes "script"
as_str service_worker = codes "serviceworker"
as_str shared_worker = codes "sharedworker"
as_str style = codes "style"
as_str track = codes "track"
as_str video = codes "video"
as_str worker = codes "worker"
as_str xslt = codes "xslt"

-- `parse` reads back every destination from its text.
pub parse-as_str : (d : SecFetchDest) → parse (as_str d) ≡ some d
unfolding parse as_str
parse-as_str audio = refl
parse-as_str audio_worklet = refl
parse-as_str document = refl
parse-as_str embed = refl
parse-as_str empty = refl
parse-as_str font = refl
parse-as_str frame = refl
parse-as_str iframe = refl
parse-as_str image = refl
parse-as_str manifest = refl
parse-as_str object = refl
parse-as_str paint_worklet = refl
parse-as_str report = refl
parse-as_str script = refl
parse-as_str service_worker = refl
parse-as_str shared_worker = refl
parse-as_str style = refl
parse-as_str track = refl
parse-as_str video = refl
parse-as_str worker = refl
parse-as_str xslt = refl
