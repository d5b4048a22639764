-- ===== src/Resources/Compression.antt =====
-- `ContentEncodedVersions` of servente-resources/src/compression.rs: a file with its compressed versions,
-- and the choice between them. Weights are `f32`, whose constants, reading and comparisons are parameters.
pub mod Laws
use servente.Common.{
  ℕ, ltb, leb, Bool, true, false, not, ◌&&◌, ◌||◌, Option, none, some, List, [], ◌∷◌, ◌++◌, Bytes,
  bytes_eq, codes, length, drop, if◌then◌else◌,
}
use servente.Common.Trim.{trim}
use servente.Http.HeaderValue.{ContentCoding, MediaType, brotli, gzip}
use servente.Http.Range.{split}
use servente.Http.RequestTarget.{starts_with}
use servente.Http.Versions.{get_version}

-- The texts of a file, without the details of the cache.
pub record FileVersions : Type 0 where
  pub modified_date : Option ℕ
  pub media_type : Option MediaType
  pub uncompressed : Bytes
  pub brotli_text : Option Bytes
  pub gzip_text : Option Bytes

-- The rendered version of a Markdown file has no details itself.
pub data CachedFileDetails : Type 0 where
  without_details : CachedFileDetails
  document : List Bytes → CachedFileDetails
  markdown : FileVersions → CachedFileDetails

pub record ContentEncodedVersions : Type 0 where
  pub versions : FileVersions
  pub cache_details : Option CachedFileDetails

unfoldable pub should_compress_file : Bytes → Bool
unfolding starts_with
should_compress_file uncompressed =
    not (starts_with uncompressed (0xff ∷ 0xd8 ∷ 0xff ∷ []))
    && not (starts_with uncompressed (0x89 ∷ b'P' ∷ b'N' ∷ b'G' ∷ 0x0d ∷ 0x0a ∷ 0x1a ∷ 0x0a ∷ []))

-- `ContentCoding::encode` is the work of two crates, which always gives a text.
unfoldable pub create : (ContentCoding → Bytes → Bytes) → Bytes → FileVersions
unfolding should_compress_file
create encode uncompressed =
    let compressed : ContentCoding → Option Bytes = λ coding.
      if should_compress_file uncompressed then some (encode coding uncompressed) else none in
    record {
      modified_date = none;
      media_type = none;
      uncompressed = uncompressed;
      brotli_text = compressed brotli;
      gzip_text = compressed gzip;
    }

unfoldable pub version_text : FileVersions → Option ContentCoding → Option Bytes
unfolding get_version
version_text v coding = get_version v.uncompressed v.brotli_text v.gzip_text coding

-- By the lengths of the uncompressed text and of the two versions.
unfoldable pub smallest_of : Bytes → Option Bytes → Option Bytes → Option ContentCoding
smallest_of plain none none = none
smallest_of plain none (some g) = if ltb (length g) (length plain) then some gzip else none
smallest_of plain (some b) none = if ltb (length b) (length plain) then some brotli else none
smallest_of plain (some b) (some g) =
    if ltb (length g) (length plain)
    then if leb (length b) (length g) then some brotli else some gzip
    else if ltb (length b) (length plain)
    then some brotli
    else none

unfoldable pub determine_smallest_file_size : FileVersions → Option ContentCoding
unfolding smallest_of
determine_smallest_file_size v = smallest_of v.uncompressed v.brotli_text v.gzip_text

-- `map_or(usize::MAX, |v| v.len()) > n`, for lengths below `usize::MAX`.
unfoldable pub is_longer : Option Bytes → ℕ → Bool
is_longer none n = true
is_longer (some text) n = ltb n (length text)

unfoldable pub is_some : {A : Type 0} → Option A → Bool
is_some none = false
is_some (some a) = true

-- `trim_start_matches("q=")`, which takes two bytes in each round.
unfoldable pub trim_weight : Bytes → Bytes
trim_weight [] = []
trim_weight (a ∷ []) = a ∷ []
trim_weight (a ∷ b ∷ text) =
    let rest = trim_weight text in if bytes_eq (a ∷ b ∷ []) (codes "q=") then rest else a ∷ b ∷ text

module _ {Weight : Type 0} (one zero : Weight) (parse_f32 : Bytes → Option Weight)
    (is_greater is_equal : Weight → Weight → Bool) where
  pub record Qualities : Type 0 where
    pub all_quality : Weight
    pub brotli_quality : Option Weight
    pub gzip_quality : Option Weight

  unfoldable pub weight_of : List Bytes → Weight
  unfolding trim_weight
  weight_of parts =
      let text : Bytes = elim parts [ q ∷ _ ↦ trim_weight q | [] ↦ codes "1.0" ] in
      elim (parse_f32 text) [ some weight ↦ weight | none ↦ one ]

  -- The quality of a coding, which is none at all where there is no such version.
  unfoldable pub offered : Option Bytes → Weight → Weight
  offered (some text) quality = quality
  offered none quality = zero

  -- One `encoding` of the header field.
  unfoldable pub read_encoding : FileVersions → Bytes → List Bytes → Qualities → Qualities
  unfolding weight_of offered trim
  read_encoding v encoding parts qualities =
      let quality = weight_of parts in
      let name = trim encoding in
      if bytes_eq name (codes "*")
      then record qualities { all_quality = quality }
      else if bytes_eq name (codes "br")
      then record qualities { brotli_quality = some (offered v.brotli_text quality) }
      else if bytes_eq name (codes "gzip")
      then record qualities { gzip_quality = some (offered v.gzip_text quality) }
      else qualities

  unfoldable pub read_encodings : FileVersions → List Bytes → Qualities → Qualities
  unfolding read_encoding split
  read_encodings v [] qualities = qualities
  read_encodings v (encoding ∷ encodings) qualities = elim (split b';' encoding) [
    | [] ↦ read_encodings v encodings qualities
    | name ∷ parts ↦ read_encodings v encodings (read_encoding v name parts qualities)
  ]

  -- The choice by the qualities of brotli and gzip.
  unfoldable pub best_of :
      FileVersions → Weight → Option Weight → Option Weight → Option ContentCoding
  unfolding determine_smallest_file_size is_some
  best_of v all_quality none none =
      if is_greater all_quality zero then determine_smallest_file_size v else none
  best_of v all_quality (some b) (some g) =
      if is_equal g b
      then determine_smallest_file_size v
      else if is_greater g b
      then if is_some v.gzip_text then some gzip else some brotli
      else if is_some v.brotli_text
      then some brotli
      else some gzip
  best_of v all_quality (some b) none = if is_some v.brotli_text then some brotli else none
  best_of v all_quality none (some g) =
      if is_some v.gzip_text && is_greater g zero then some gzip else none

  unfoldable pub determine_best_version_from_accept_encoding :
      FileVersions → Bytes → Option ContentCoding
  unfolding is_longer is_some split read_encodings best_of
  determine_best_version_from_accept_encoding v accept_encoding =
      let plain = length v.uncompressed in
      let qualities =
        read_encodings v (split b',' accept_encoding)
          (record { all_quality = one; brotli_quality = none; gzip_quality = none }) in
      if is_longer v.gzip_text plain && is_longer v.brotli_text plain
      then none
      else if not (is_some v.gzip_text) && not (is_some v.brotli_text)
      then none
      else best_of v qualities.all_quality qualities.brotli_quality qualities.gzip_quality
