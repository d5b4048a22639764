-- ===== src/Tests/Resources.antt =====
-- The theorems on versions, extensions, permissions and the cache of files, at concrete inputs.
use servente.Common.{
  ℕ, ◌≡◌, ◌≢◌, ◌↔◌, refl, arith, ltb, ◌==◌, true, false, none, some, [], ◌∷◌, ◌++◌, Bytes, codes,
}
use servente.Common.Ascii.{to_ascii_lowercase}
use servente.Common.Decimal.{parse_usize}
use servente.Http.HeaderValue.{ContentCoding, gzip}
use servente.Resources.Compression.{
  FileVersions, version_text, determine_smallest_file_size,
  determine_best_version_from_accept_encoding,
}
use servente.Resources.Compression.Laws.{
  Fits, determine_smallest_file_size-Fits, determine_best_version-Has,
}
use servente.Resources.Exclude.{is_file_allowed_to_be_served}
use servente.Resources.Exclude.Denied.{IsOneOf, denied, is_file_allowed_to_be_served_iff}
use servente.Resources.Cache.{
  started, claimed, finished, busy, claim, System, spawn, run, set_task, init, Reach, here, later,
  find_entry, is_file_being_cached,
}
use servente.Resources.Cache.Invariant.{IsExclusive, Reach-IsExclusive}
use servente.Resources.Cache.Abandoned.{Reach-abandoned}

abbrev versions : FileVersions
versions = record {
  modified_date = none;
  media_type = none;
  uncompressed = codes "abcdef";
  brotli_text = some (codes "abcd");
  gzip_text = some (codes "abc");
}

determine_best_version-Has_example :
    version_text versions (
      determine_best_version_from_accept_encoding {Weight = ℕ} 1 0 parse_usize
        (λ a b. ltb b a)
        ◌==◌
        versions
        (codes "br;q=0, gzip"))
    ≢ none
determine_best_version-Has_example =
    determine_best_version-Has {Weight = ℕ} 1 0 parse_usize (λ a b. ltb b a) ◌==◌ versions
      (codes "br;q=0, gzip")

best_is_gzip :
    determine_best_version_from_accept_encoding {Weight = ℕ} 1 0 parse_usize
      (λ a b. ltb b a)
      ◌==◌
      versions
      (codes "br;q=0, gzip")
    ≡ some gzip
unfolding determine_best_version_from_accept_encoding parse_usize
best_is_gzip = refl

determine_smallest_file_size-Fits_example :
    Fits versions.uncompressed versions.brotli_text versions.gzip_text (codes "abc")
unfolding version_text determine_smallest_file_size
determine_smallest_file_size-Fits_example =
    determine_smallest_file_size-Fits versions (codes "abc") refl

is_file_allowed_to_be_served_iff_example :
    (is_file_allowed_to_be_served (codes "/a.b/key" ++ b'.' ∷ codes "PEM") ≡ false)
    ↔ IsOneOf denied (to_ascii_lowercase (codes "PEM"))
is_file_allowed_to_be_served_iff_example =
    is_file_allowed_to_be_served_iff (codes "/a.b/key") (codes "PEM")
      (omega arith, (omega arith, (omega arith, tt)))

abbrev encode : ContentCoding → Bytes → Bytes
encode coding octets = octets

abbrev html_of : Bytes → Bytes
html_of text = text

abbrev path : Bytes
path = codes "/srv/a.html"

-- A task that has entered its file.
abbrev entered : System
entered = record {
  cache = record { file_cache = []; being_cached = path ∷ [] };
  pc = set_task (set_task init.pc 0 (started path)) 0 (claimed path);
}

reach_entered : Reach encode html_of true init entered
unfolding is_file_allowed_to_be_served is_file_being_cached
reach_entered = later (later here (spawn 0 path refl)) (run 0 (claim refl refl))

Reach-IsExclusive_example : IsExclusive entered.cache entered.pc
Reach-IsExclusive_example = Reach-IsExclusive encode html_of true reach_entered

-- The task has ended since its file did not open, and another one has found the file busy.
abbrev tried_again : System
tried_again = record {
  cache = entered.cache;
  pc = set_task (set_task (set_task entered.pc 0 finished) 1 (started path)) 1 finished;
}

reach_tried_again :
    Reach encode html_of true (record entered { pc = set_task entered.pc 0 finished }) tried_again
unfolding is_file_allowed_to_be_served is_file_being_cached
reach_tried_again = later (later here (spawn 1 path refl)) (run 1 (busy refl refl))

Reach-abandoned_example : find_entry path tried_again.cache.file_cache ≡ none
unfolding find_entry
Reach-abandoned_example =
    Reach-abandoned encode html_of true 0 path reach_entered refl refl reach_tried_again
