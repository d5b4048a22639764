-- ===== src/Resources/Cache.antt =====
-- The memory cache of files, of servente-resources/src/cache.rs. The tasks that `maybe_cache_file` starts run
-- at the same time as the events that take files out of the cache; each access to the cache and to the map of
-- the files that are being cached is one step. A path is its text. The crate stretto's cache may refuse an
-- entry and may drop one at any time.
pub mod Invariant
pub mod Abandoned
use servente.Common.{
  ℕ, ◌≡◌, leb, ◌==◌, Bool, true, false, not, ◌&&◌, ◌||◌, Option, none, some, List, [], ◌∷◌, ◌++◌,
  Bytes, bytes_eq, codes, if◌then◌else◌,
}
use servente.Http.HeaderValue.{ContentCoding}
use servente.Http.MediaType.{html}
use servente.Resources.Compression.{
  FileVersions, CachedFileDetails, markdown, ContentEncodedVersions, create,
}
use servente.Resources.Exclude.{is_file_allowed_to_be_served}
use servente.Resources.Permissions.{is_executable}

abbrev pub file_cache_maximum_size : ℕ
file_cache_maximum_size = 50000000

pub record Metadata : Type 0 where
  pub is_file : Bool
  pub is_dir : Bool
  pub mode : ℕ
  pub len : ℕ
  pub modified : Option ℕ

unfoldable pub is_file_appropriate_for_caching : Metadata → Bool
unfolding is_executable
is_file_appropriate_for_caching metadata =
    if not metadata.is_file
    then false
    else if is_executable metadata.mode
    then false
    else leb metadata.len file_cache_maximum_size

-- `FILE_CACHE` and `FILE_CACHE_CHECK_FILE_EXISTENCE`.
pub record Cache : Type 0 where
  pub file_cache : List (Bytes × ContentEncodedVersions)
  pub being_cached : List Bytes

unfoldable pub has_path : Bytes → List Bytes → Bool
has_path path [] = false
has_path path (p ∷ paths) = bytes_eq p path || has_path path paths

unfoldable pub remove_path : Bytes → List Bytes → List Bytes
remove_path path [] = []
remove_path path (p ∷ paths) =
    let kept = remove_path path paths in if bytes_eq p path then kept else p ∷ kept

unfoldable pub remove_entry :
    Bytes → List (Bytes × ContentEncodedVersions) → List (Bytes × ContentEncodedVersions)
remove_entry path [] = []
remove_entry path ((p, v) ∷ entries) =
    let kept = remove_entry path entries in if bytes_eq p path then kept else (p, v) ∷ kept

unfoldable pub find_entry :
    Bytes → List (Bytes × ContentEncodedVersions) → Option ContentEncodedVersions
find_entry path [] = none
find_entry path ((p, v) ∷ entries) = if bytes_eq p path then some v else find_entry path entries

-- One lock around the test and the entry: whether the file was being cached, and the map behind.
unfoldable pub is_file_being_cached : Bytes → Cache → Bool × Cache
unfolding has_path
is_file_being_cached path c =
    if has_path path c.being_cached
    then (true, c)
    else (false, record c { being_cached = path ∷ c.being_cached })

-- `insert_with_ttl` of a cache that takes the entry.
unfoldable pub insert_entry : Bytes → ContentEncodedVersions → Cache → Cache
unfolding remove_entry
insert_entry path v c = record c { file_cache = (path, v) ∷ remove_entry path c.file_cache }

unfoldable pub stop_caching : Bytes → Cache → Cache
unfolding remove_path
stop_caching path c = record c { being_cached = remove_path path c.being_cached }

unfoldable pub remove_file_from_cache : Bytes → Cache → Cache
unfolding remove_entry
remove_file_from_cache path c = record c { file_cache = remove_entry path c.file_cache }

-- `ends_with` of the standard library.
unfoldable pub ends_with : Bytes → Bytes → Bool
ends_with [] suffix = bytes_eq [] suffix
ends_with (b ∷ text) suffix = bytes_eq (b ∷ text) suffix || ends_with text suffix

-- Where the task of a file stands: before its first step, with the file entered into the map, with its
-- metadata and octets read, with the entry put into the cache, and at its end.
pub data Pc : Type 0 where
  started claimed : (path : Bytes) → Pc
  read_file : (path : Bytes) → Option ℕ → Bytes → Pc
  stored : (path : Bytes) → Pc
  finished : Pc

-- The cache and the tasks, of which those that have not been started are at their end.
pub record System : Type 0 where
  pub cache : Cache
  pub pc : ℕ → Pc

abbrev pub set_task : (ℕ → Pc) → ℕ → Pc → ℕ → Pc
set_task pc i p j = if i == j then p else pc j

-- The file that a task has entered into the map.
abbrev pub holder : Pc → Option Bytes
holder (started path) = none
holder (claimed path) = some path
holder (read_file path modified_date octets) = some path
holder (stored path) = some path
holder finished = none

-- An empty cache and no tasks.
abbrev pub init : System
init = record { cache = record { file_cache = []; being_cached = [] }; pc = λ i. finished }

-- The conversion of `servente-generator`, which a crate does, is a parameter.
module _ (encode : ContentCoding → Bytes → Bytes) (convert_to_html : Bytes → Bytes)
    (has_convert_markdown : Bool) where
  unfoldable pub maybe_convert_markdown_htmlized :
      Bytes → ContentEncodedVersions → ContentEncodedVersions
  unfolding ends_with create
  maybe_convert_markdown_htmlized path cached = elim cached.cache_details [
    | some details ↦ cached
    | none ↦
        if ends_with path (codes ".md")
        then record cached {
          cache_details = some (
              markdown (record (create encode (convert_to_html cached.versions.uncompressed)) {
                media_type = some html;
                modified_date = cached.versions.modified_date;
              }));
        }
        else cached
  ]

  -- What is put into the cache for the octets of a file.
  unfoldable pub cached_file : Bytes → Option ℕ → Bytes → ContentEncodedVersions
  unfolding create maybe_convert_markdown_htmlized
  cached_file path modified_date octets =
      let cached : ContentEncodedVersions = record {
        versions = record (create encode octets) { modified_date = modified_date };
        cache_details = none;
      } in
      if has_convert_markdown then maybe_convert_markdown_htmlized path cached else cached

  -- A step of a task. The file may fail to open and may be anything when it is read.
  pub data Move (c : Cache) : Pc → Cache → Pc → Type 0 where
    denied :
        {path : Bytes}
        → is_file_allowed_to_be_served path ≡ false
        → Move c (started path) c finished
    busy :
        {path : Bytes} {c' : Cache}
        → is_file_allowed_to_be_served path ≡ true
        → is_file_being_cached path c ≡ (true, c')
        → Move c (started path) c' finished
    claim :
        {path : Bytes} {c' : Cache}
        → is_file_allowed_to_be_served path ≡ true
        → is_file_being_cached path c ≡ (false, c')
        → Move c (started path) c' (claimed path)
    not_opened not_measured : {path : Bytes} → Move c (claimed path) c finished
    inappropriate :
        {path : Bytes} (metadata : Metadata)
        → is_file_appropriate_for_caching metadata ≡ false
        → Move c (claimed path) c finished
    read_to_end :
        {path : Bytes} (metadata : Metadata) (octets : Bytes)
        → is_file_appropriate_for_caching metadata ≡ true
        → Move c (claimed path) c (read_file path metadata.modified octets)
    insert :
        {path octets : Bytes} {modified_date : Option ℕ}
        → Move c
            (read_file path modified_date octets)
            (insert_entry path (cached_file path modified_date octets) c)
            (stored path)
    not_inserted :
        {path octets : Bytes} {modified_date : Option ℕ}
        → Move c (read_file path modified_date octets) c (stored path)
    stop : {path : Bytes} → Move c (stored path) (stop_caching path c) finished

  pub data Step (s : System) : System → Type 0 where
    -- `maybe_cache_file` for a request, at the start and for an event of the watcher.
    spawn :
        (i : ℕ) (path : Bytes)
        → s.pc i ≡ finished
        → Step s (record s { pc = set_task s.pc i (started path) })
    run :
        (i : ℕ) {c : Cache} {p : Pc}
        → Move s.cache (s.pc i) c p
        → Step s (record { cache = c; pc = set_task s.pc i p })
    -- `remove_files_from_cache`, or the end of an entry's time.
    remove_file : (path : Bytes) → Step s (record s { cache = remove_file_from_cache path s.cache })

  pub data Reach (s : System) : System → Type 0 where
    here : Reach s s
    later : {t u : System} → Reach s t → Step t u → Reach s u
