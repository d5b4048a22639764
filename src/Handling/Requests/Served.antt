-- ===== src/Handling/Requests/Served.antt =====
-- Which files on the disk answer a request.
use mathlib.Core.Path.{subst}
use servente.Common.{
  ◌==◌, ℕ, ◌≡◌, refl, inl, inr, arith, Bool, true, false, not, ◌||◌, Option, none, some, Bytes,
  bytes_eq, codes, Bool-cases, Option-cases, if◌then◌else◌,
}
use servente.Handling.Files.{
  check_not_modified_at, check_not_modified, not_modified_since, not_modified_response,
  cached_response, serve_version, served_version, serve_file_from_cache, file_response,
  serve_file_from_disk, serve_file,
}
use servente.Handling.Paths.{join}
use servente.Handling.Requests.{serve_index, is_directory, is_regular}
use servente.Handling.Server.{Server}
use servente.Http.HeaderMap
use servente.Http.HeaderMap.Setters.{format_system_time_as_weak_etag}
use servente.Http.HeaderName.{if_modified_since, if_none_match}
use servente.Http.HeaderValue.{as_str_no_convert, parse_date_time}
use servente.Http.Lists.{Weights}
use servente.Http.Request.{Request, BodyKind, file}
use servente.Http.Response.{Response, with_status_and_string_body}
use servente.Resources.Cache.{Metadata}
use servente.Resources.Compression.{FileVersions, CachedFileDetails}
use servente.Resources.Exclude.{is_file_allowed_to_be_served}
use servente.Resources.Permissions.{is_executable}

-- A regular file that opens, may be served by its extension and is not executable.
pub record IsServable (s : Server) (path : Bytes) (handle len : ℕ) : Type 0 where
  pub metadata : Metadata
  pub opened : s.open_file path ≡ some (handle, some metadata)
  pub length : metadata.len ≡ len
  pub is_allowed : is_file_allowed_to_be_served path ≡ true
  pub is_file : metadata.is_file ≡ true
  pub is_not_executable : is_executable metadata.mode ≡ false

module _ (s : Server) (At : Bytes → Type 0) where
  -- A body that is a file is one at such a path.
  abbrev pub IsSafeBody : Option BodyKind → Type 0
  IsSafeBody (some (file handle len)) = (path : Bytes) × At path × IsServable s path handle len
  IsSafeBody _ = Unit {0}

  abbrev pub IsSafe : Option Response → Type 0
  IsSafe none = Unit {0}
  IsSafe (some response) = IsSafeBody response.body

  file_response-IsSafe :
      (path : Bytes) (handle : ℕ) (metadata : Metadata)
      → At path
      → s.open_file path ≡ some (handle, some metadata)
      → is_file_allowed_to_be_served path ≡ true
      → IsSafe (file_response s path handle metadata)
  unfolding file_response
  file_response-IsSafe path handle metadata at opened allowed =
      elim (Bool-cases (not metadata.is_file || is_executable metadata.mode)) [
        | inl e ↦ rw (file_response, e) tt
        | inr e ↦
            rw (file_response, e)
              (
                path,
                at,
                record {
                  metadata = metadata;
                  opened = opened;
                  length = refl;
                  is_allowed = allowed;
                  is_file = ground arith;
                  is_not_executable = ground arith;
                },
              )
      ]

  serve_file_from_disk-IsSafe : (path : Bytes) → At path → IsSafe (serve_file_from_disk s path)
  unfolding serve_file_from_disk
  serve_file_from_disk-IsSafe path at = elim (Bool-cases (is_file_allowed_to_be_served path)) [
    | inr e ↦ rw (serve_file_from_disk, e) tt
    | inl e ↦ elim (Option-cases (s.open_file path)) [
      | inl e' ↦ rw (serve_file_from_disk, e, e') tt
      | inr ((handle, none), e') ↦ rw (serve_file_from_disk, e, e') tt
      | inr ((handle, some metadata), e') ↦
          rw (serve_file_from_disk, e, e') (file_response-IsSafe path handle metadata at e' e)
    ]
  ]

  pub IsSafe-if :
      (b : Bool) (x y : Option Response) → IsSafe x → IsSafe y → IsSafe (if b then x else y)
  IsSafe-if true x y h h' = h
  IsSafe-if false x y h h' = h'

  pub IsSafeBody-if :
      (b : Bool) (x y : Response)
      → IsSafeBody x.body
      → IsSafeBody y.body
      → IsSafeBody ((if b then x else y).body)
  IsSafeBody-if true x y h h' = h
  IsSafeBody-if false x y h h' = h'

  since-IsSafe :
      (request : Request) (path : Bytes) (date : ℕ)
      → IsSafe (not_modified_since s request path date)
  unfolding not_modified_since not_modified_response with_status_and_string_body
  since-IsSafe request path date =
      elim (Option-cases (HeaderMap.get request.headers if_modified_since)) [
        | inl e ↦ rw (not_modified_since, e) tt
        | inr (value, e) ↦ elim (Option-cases (parse_date_time s.parse_http_date value)) [
          | inl e' ↦ rw (not_modified_since, e, e') tt
          | inr (since, e') ↦
              rw (not_modified_since, e, e') (IsSafe-if (date == since) _ none tt tt)
        ]
      ]

  check_not_modified-IsSafe :
      (request : Request) (path : Bytes) (date : ℕ)
      → IsSafe (check_not_modified s request path date)
  unfolding check_not_modified not_modified_response with_status_and_string_body
  check_not_modified-IsSafe request path date =
      elim (Option-cases (HeaderMap.get request.headers if_none_match)) [
        | inl e ↦ rw (check_not_modified, e) (since-IsSafe request path date)
        | inr (value, e) ↦ elim (Option-cases (as_str_no_convert value)) [
          | inl e' ↦ rw (check_not_modified, e, e') (since-IsSafe request path date)
          | inr (text, e') ↦
              rw (check_not_modified, e, e')
                (IsSafe-if (bytes_eq text (format_system_time_as_weak_etag date)) _ _ tt
                  (since-IsSafe request path date))
        ]
      ]

  at-IsSafe :
      (request : Request) (path : Bytes) (date : Option ℕ)
      → IsSafe (check_not_modified_at s request path date)
  unfolding check_not_modified_at
  at-IsSafe request path none = tt
  at-IsSafe request path (some date) = check_not_modified-IsSafe request path date

  module _ {Weight : Type 0} (w : Weights Weight) (parse_f32 : Bytes → Option Weight) where
    version-IsSafe :
        (request : Request) (path : Bytes) (v : FileVersions) (details : Option CachedFileDetails)
        → IsSafeBody ((serve_version s w parse_f32 request path v details).body)
    unfolding serve_version cached_response
    version-IsSafe request path v details =
        let safe = at-IsSafe request path v.modified_date in
        elim (Option-cases (check_not_modified_at s request path v.modified_date)) [
          | inl e ↦ rw (serve_version, e) tt
          | inr (response, e) ↦ rw (serve_version, e) (subst IsSafe e safe)
        ]

    cache-IsSafe :
        (request : Request) (path : Bytes)
        → IsSafe (serve_file_from_cache s w parse_f32 request path)
    unfolding serve_file_from_cache
    cache-IsSafe request path = elim (Option-cases (s.cached path)) [
      | inl e ↦ rw (serve_file_from_cache, e) tt
      | inr (cached, e) ↦
          rw (serve_file_from_cache, e)
            (version-IsSafe request path
              (served_version s.has_convert_markdown cached.versions cached.cache_details).0
              (served_version s.has_convert_markdown cached.versions cached.cache_details).1)
    ]

    pub serve_file-IsSafe :
        (request : Request) (path : Bytes)
        → At path
        → IsSafe (serve_file s w parse_f32 request path)
    unfolding serve_file
    serve_file-IsSafe request path at =
        let safe = cache-IsSafe request path in
        elim (Option-cases (serve_file_from_cache s w parse_f32 request path)) [
          | inl e ↦ rw (serve_file, e) (serve_file_from_disk-IsSafe path at)
          | inr (response, e) ↦ rw (serve_file, e) (subst IsSafe e safe)
        ]

    pub serve_index-IsSafe :
        (request : Request) (path : Bytes)
        → At (join path (codes "index.html"))
        → IsSafe (serve_index s w parse_f32 request path)
    unfolding serve_index
    serve_index-IsSafe request path at =
        IsSafe-if (not (is_directory s (s.metadata path))) none _ tt (
          IsSafe-if (not (is_regular s (s.metadata (join path (codes "index.html"))))) none _ tt
            (serve_file-IsSafe request (join path (codes "index.html")) at))
