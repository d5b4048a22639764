-- ===== src/Handling/Files.antt =====
-- The files that answer a request, of servente-http-handling/src/lib.rs.
use servente.Common.{
  ℕ, ◌==◌, Bool, not, ◌||◌, Option, none, some, List, [], ◌∷◌, Bytes, bytes_eq, codes,
  if◌then◌else◌,
}
use servente.Http.HeaderMap
use servente.Http.HeaderMap.{HeaderMap, append_or_override}
use servente.Http.HeaderMap.Setters.{format_system_time_as_weak_etag, set_last_modified}
use servente.Http.HeaderName.{
  HeaderName, accept_encoding, cache_status, content_encoding, content_type, etag,
  if_modified_since, if_none_match, last_modified, link,
}
use servente.Http.HeaderValue.{HeaderValue, ContentCoding, as_str_no_convert, parse_date_time}
use servente.Http.Lists.{Weights}
use servente.Http.MediaType.{from_path}
use servente.Http.Request.{Request, BodyKind}
use servente.Http.Response.{Response, with_status, with_status_and_string_body}
use servente.Http.StatusCode.{not_modified}
use servente.Http.StatusCode
use servente.Handling.Handlers.{append_value}
use servente.Handling.Server.{Server}
use servente.Resources.Cache.{Metadata}
use servente.Resources.Compression.{
  FileVersions, CachedFileDetails, document, markdown, determine_best_version_from_accept_encoding,
}
use servente.Resources.Exclude.{is_file_allowed_to_be_served}
use servente.Resources.Permissions.{is_executable}

unfoldable pub media_type_of_path : Bytes → HeaderValue
unfolding from_path
media_type_of_path path = HeaderValue.media_type (from_path path)

-- A response without content that names the media type and one field of the request.
unfoldable pub not_modified_response : Bytes → HeaderName → HeaderValue → Response
unfolding with_status_and_string_body append_or_override media_type_of_path
not_modified_response path name value =
    let response = with_status_and_string_body not_modified (BodyKind.string []) in
    record response {
      headers =
          append_or_override
            (append_or_override response.headers content_type (media_type_of_path path)) name value;
    }

-- The text of a header field, if it has one that needs no conversion.
unfoldable pub field_text : HeaderMap → HeaderName → Option Bytes
unfolding HeaderMap.get as_str_no_convert
field_text m name = elim (HeaderMap.get m name) [
  | none ↦ none
  | some value ↦ as_str_no_convert value
]

-- The version of a Markdown file that is served, and the details of a file that is none.
unfoldable pub served_version :
    Bool → FileVersions → Option CachedFileDetails → FileVersions × Option CachedFileDetails
served_version has_convert_markdown v (some (markdown html_rendered)) =
    if has_convert_markdown then (html_rendered, none) else (v, some (markdown html_rendered))
served_version has_convert_markdown v details = (v, details)

module _ (s : Server) where
  -- The second test of `check_not_modified`: the date of the request is the file's, to the second.
  unfoldable pub not_modified_since : Request → Bytes → ℕ → Option Response
  unfolding HeaderMap.get parse_date_time not_modified_response
  not_modified_since request path modified_date =
      elim (HeaderMap.get request.headers if_modified_since) [
        | none ↦ none
        | some value ↦ elim (parse_date_time s.parse_http_date value) [
          | none ↦ none
          | some date ↦
              if modified_date == date
              then some (not_modified_response path last_modified value)
              else none
        ]
      ]

  -- The first, of an entity tag, which passes on to the second.
  unfoldable pub check_not_modified : Request → Bytes → ℕ → Option Response
  unfolding HeaderMap.get as_str_no_convert not_modified_response not_modified_since
      format_system_time_as_weak_etag
  check_not_modified request path modified_date =
      elim (HeaderMap.get request.headers if_none_match) [
        | none ↦ not_modified_since request path modified_date
        | some value ↦ elim (as_str_no_convert value) [
          | none ↦ not_modified_since request path modified_date
          | some text ↦
              if bytes_eq text (format_system_time_as_weak_etag modified_date)
              then some (not_modified_response path etag value)
              else not_modified_since request path modified_date
        ]
      ]

  unfoldable pub check_not_modified_at : Request → Bytes → Option ℕ → Option Response
  unfolding check_not_modified
  check_not_modified_at request path none = none
  check_not_modified_at request path (some modified_date) =
      check_not_modified request path modified_date

  unfoldable pub append_links : List Bytes → HeaderMap → HeaderMap
  unfolding append_value
  append_links [] m = m
  append_links (link_preload ∷ more) m =
      append_links more (append_value s.http_date m link (HeaderValue.string link_preload))

  unfoldable pub with_details : Option CachedFileDetails → HeaderMap → HeaderMap
  unfolding append_links
  with_details (some (document link_preloads)) m = append_links link_preloads m
  with_details _ m = m

  unfoldable pub set_modified : Option ℕ → HeaderMap → HeaderMap
  unfolding set_last_modified
  set_modified none m = m
  set_modified (some modified_date) m = set_last_modified m modified_date

  -- A file that may be served also starts a task that may put it into the cache.
  unfoldable pub file_response : Bytes → ℕ → Metadata → Option Response
  unfolding is_executable set_modified append_or_override media_type_of_path with_status
  file_response path handle metadata =
      if not metadata.is_file || is_executable metadata.mode
      then none
      else some (record (with_status StatusCode.ok) {
        headers =
            append_or_override (set_modified metadata.modified HeaderMap.empty) content_type
              (media_type_of_path path);
        body = some (BodyKind.file handle metadata.len);
      })

  unfoldable pub serve_file_from_disk : Bytes → Option Response
  unfolding is_file_allowed_to_be_served file_response
  serve_file_from_disk path =
      if not (is_file_allowed_to_be_served path) then none else elim (s.open_file path) [
        | none ↦ none
        | some (handle, none) ↦ none
        | some (handle, some metadata) ↦ file_response path handle metadata
      ]

  module _ {Weight : Type 0} (w : Weights Weight) (parse_f32 : Bytes → Option Weight) where
    -- The coding that a request accepts and that the file is small in.
    unfoldable pub encoding_for : Request → FileVersions → Option ContentCoding
    unfolding field_text determine_best_version_from_accept_encoding
    encoding_for request v = elim (field_text request.headers accept_encoding) [
      | none ↦ none
      | some text ↦
          determine_best_version_from_accept_encoding w.whole w.nothing parse_f32
            (λ a b. w.is_less b a) w.is_equal v text
    ]

    unfoldable pub with_coding : Option ContentCoding → HeaderMap → HeaderMap
    unfolding append_or_override
    with_coding none m = m
    with_coding (some coding) m =
        append_or_override m content_encoding (HeaderValue.content_coding coding)

    -- A file of the cache that has been modified.
    unfoldable pub cached_response :
        Request → Bytes → FileVersions → Option CachedFileDetails → Response
    unfolding encoding_for with_coding append_or_override media_type_of_path set_modified
        with_details with_status
    cached_response request path v details =
        let encoding = encoding_for request v in
        let media_type : HeaderValue = elim v.media_type [
          | some media_type ↦ HeaderValue.media_type media_type
          | none ↦ media_type_of_path path
        ] in
        let typed =
          append_or_override (with_coding encoding HeaderMap.empty) content_type media_type in
        let hit =
          append_or_override typed cache_status
            (HeaderValue.static_string (codes "ServenteCache; hit; detail=MEMORY")) in
        record (with_status StatusCode.ok) {
          headers = with_details details (set_modified v.modified_date hit);
          body = some (BodyKind.cached_bytes v.uncompressed v.brotli_text v.gzip_text encoding);
        }

    unfoldable pub serve_version :
        Request → Bytes → FileVersions → Option CachedFileDetails → Response
    unfolding check_not_modified_at cached_response
    serve_version request path v details =
        elim (check_not_modified_at request path v.modified_date) [
          | some not_modified_answer ↦ not_modified_answer
          | none ↦ cached_response request path v details
        ]

    unfoldable pub serve_file_from_cache : Request → Bytes → Option Response
    unfolding served_version serve_version
    serve_file_from_cache request path = elim (s.cached path) [
      | none ↦ none
      | some cached ↦
          let (v, details) =
            served_version s.has_convert_markdown cached.versions cached.cache_details in
          some (serve_version request path v details)
    ]

    unfoldable pub serve_file : Request → Bytes → Option Response
    unfolding serve_file_from_cache serve_file_from_disk
    serve_file request path = elim (serve_file_from_cache request path) [
      | some response ↦ some response
      | none ↦ serve_file_from_disk path
    ]
