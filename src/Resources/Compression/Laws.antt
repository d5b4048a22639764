-- ===== src/Resources/Compression/Laws.antt =====
-- What the choice of a version comes to.
use servente.Common.{
  ◌≤◌, arith, ◌≡◌, ◌≢◌, inl, inr, Bool, true, false, Option, none, some, Bytes, length, Bool-cases,
}
use servente.Http.HeaderValue.{ContentCoding}
use servente.Http.Versions.{get_version}
use servente.Resources.Compression.{
  FileVersions, smallest_of, determine_smallest_file_size, best_of, is_some, version_text,
  determine_best_version_from_accept_encoding,
}

-- A choice of a version that is there.
abbrev pub Has : FileVersions → Option ContentCoding → Type 0
Has v coding = version_text v coding ≢ none

smallest_of-Has :
    (plain : Bytes) (b g : Option Bytes) → get_version plain b g (smallest_of plain b g) ≢ none
unfolding smallest_of get_version
smallest_of-Has plain none none = ground arith
smallest_of-Has plain none (some g) = ground arith
smallest_of-Has plain (some b) none = ground arith
smallest_of-Has plain (some b) (some g) = ground arith

smallest-Has : (v : FileVersions) → Has v (determine_smallest_file_size v)
unfolding determine_smallest_file_size version_text
smallest-Has v = smallest_of-Has v.uncompressed v.brotli_text v.gzip_text

-- The lengths of the versions that are there.
pub record Fits (plain : Bytes) (b g : Option Bytes) (text : Bytes) : Type 0 where
  pub of_plain : length text ≤ length plain
  pub of_brotli : (t : Bytes) → b ≡ some t → length text ≤ length t
  pub of_gzip : (t : Bytes) → g ≡ some t → length text ≤ length t

smallest_of-Fits :
    (plain : Bytes) (b g : Option Bytes) (text : Bytes)
    → get_version plain b g (smallest_of plain b g) ≡ some text
    → Fits plain b g text
unfolding smallest_of get_version
smallest_of-Fits plain none none text h = record {
  of_plain = ground arith;
  of_brotli = λ t e. ground arith;
  of_gzip = λ t e. ground arith;
}
smallest_of-Fits plain none (some g) text h = record {
  of_plain = ground arith;
  of_brotli = λ t e. ground arith;
  of_gzip = λ t e. ground arith;
}
smallest_of-Fits plain (some b) none text h = record {
  of_plain = ground arith;
  of_brotli = λ t e. ground arith;
  of_gzip = λ t e. ground arith;
}
smallest_of-Fits plain (some b) (some g) text h = record {
  of_plain = ground arith;
  of_brotli = λ t e. ground arith;
  of_gzip = λ t e. ground arith;
}

-- The version that determine_smallest_file_size gives is no longer than the uncompressed text and no longer
-- than either compressed version that is there.
pub determine_smallest_file_size-Fits :
    (v : FileVersions) (text : Bytes)
    → version_text v (determine_smallest_file_size v) ≡ some text
    → Fits v.uncompressed v.brotli_text v.gzip_text text
unfolding determine_smallest_file_size version_text
determine_smallest_file_size-Fits v text h =
    smallest_of-Fits v.uncompressed v.brotli_text v.gzip_text text h

module _ {Weight : Type 0} (one zero : Weight) (parse_f32 : Bytes → Option Weight)
    (is_greater is_equal : Weight → Weight → Bool) where
  best_of-Has :
      (v : FileVersions) (all : Weight) (b g : Option Weight)
      → (is_some v.gzip_text ≡ false → is_some v.brotli_text ≡ true)
      → Has v (best_of one zero parse_f32 is_greater is_equal v all b g)
  unfolding best_of is_some version_text get_version
  best_of-Has v all none none h = ground (arith, smallest-Has v)
  best_of-Has v all none (some g) h = ground arith
  best_of-Has v all (some b) none h = ground arith
  best_of-Has v all (some b) (some g) h = ground (arith, smallest-Has v)

  -- The coding that is chosen for an Accept-Encoding is one of which there is a version, so that get_version
  -- does not panic on it; whatever the reading and the comparisons of weights give.
  pub determine_best_version-Has :
      (v : FileVersions) (accept_encoding : Bytes)
      → version_text v (
          determine_best_version_from_accept_encoding one zero parse_f32 is_greater is_equal v
            accept_encoding)
        ≢ none
  unfolding determine_best_version_from_accept_encoding version_text get_version is_some
  determine_best_version-Has v accept_encoding = elim (Bool-cases (is_some v.gzip_text)) [
    | inl e ↦ ground (arith, best_of-Has v _ _ _ (λ (p : is_some v.gzip_text ≡ false). cc))
    | inr e ↦ elim (Bool-cases (is_some v.brotli_text)) [
      | inl e' ↦ ground (arith, best_of-Has v _ _ _ (λ (p : is_some v.gzip_text ≡ false). e'))
      | inr e' ↦ ground arith
    ]
  ]
