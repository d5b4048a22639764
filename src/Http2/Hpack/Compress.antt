-- ===== src/Http2/Hpack/Compress.antt =====
-- `compress_status_code` and `Compressor` of servente-http2/src/hpack.rs.
pub mod Candidate
use servente.Common.{
  ℕ, ◌+◌, ◌-◌, ◌/◌, ◌%◌, bit_or, Bool, true, false, ◌&&◌, ◌||◌, Option, none, some, List, [], ◌∷◌,
  ◌++◌, Bytes, codes, bytes_eq, ◌==◌, if◌then◌else◌,
}
use servente.Common.Ascii.{eq_ignore_ascii_case}
use servente.Http.HeaderName.{
  HeaderName, header_name_eq, to_string_h1, to_string_lowercase, class, cgi_extension,
  connection_specific, other_class,
}
use servente.Http.HeaderValue
use servente.Http.HeaderValue.{
  HeaderValue, shared_string, static_string, string, content_coding, content_range, date_time,
  media_type, sec_fetch_dest, size, as_str_may_convert, common, custom, range, unsatisfied,
  ContentCoding, brotli, gzip, MediaType, ContentRangeHeaderValue,
}
use servente.Http.Response.{Response}
use servente.Http.SecFetchDest
use servente.Http.StatusCode.{StatusCode, discriminant}
use servente.Http2.Hpack.Number.{write_hpack_number}
use servente.Http2.Hpack.StaticTable.{StaticTableEntry, static_table}
use servente.Http2.Huffman.{write_hpack_string_huffman}

-- The `for` loop over the enumerated table, from an index on. Two status codes are the same if
-- their discriminants are.
unfoldable pub find_status : StatusCode → ℕ → List StaticTableEntry → Option ℕ
unfolding discriminant
find_status code idx [] = none
find_status code idx (StaticTableEntry.status s ∷ entries) =
    let later = find_status code (idx + 1) entries in
    if discriminant s == discriminant code then some idx else later
find_status code idx (_ ∷ entries) = find_status code (idx + 1) entries

-- The octets that it appends to `data`.
unfoldable pub compress_status_code : StatusCode → Bytes
unfolding find_status static_table discriminant write_hpack_number write_hpack_string_huffman
compress_status_code code = elim (find_status code 0 static_table) [
  | some idx ↦ bit_or 0x80 idx ∷ []
  | none ↦
      let n = discriminant code in
      write_hpack_number 8 4 0
      ++ write_hpack_string_huffman
          ((b'0' + n / 100) ∷ (b'0' + n % 100 / 10) ∷ (b'0' + n % 10) ∷ [])
]

pub data CompressIndexCandidate : Type 0 where
  no_index : CompressIndexCandidate
  fully_indexed name_indexed : ℕ → CompressIndexCandidate

unfoldable pub is_no_index : CompressIndexCandidate → Bool
is_no_index no_index = true
is_no_index _ = false

-- `header_name == name || header_name.to_string_h1().eq_ignore_ascii_case(name.to_string_h1())`
unfoldable pub same_name : HeaderName → HeaderName → Bool
unfolding header_name_eq to_string_h1 eq_ignore_ascii_case
same_name header_name name =
    header_name_eq header_name name
    || eq_ignore_ascii_case (to_string_h1 header_name) (to_string_h1 name)

-- The derived equality of header values, with a static string, which all values of the table are.
unfoldable pub equals_static : Bytes → HeaderValue → Bool
equals_static s (static_string t) = bytes_eq s t
equals_static s _ = false

unfoldable pub value_eq : HeaderValue → HeaderValue → Bool
unfolding equals_static
value_eq (static_string s) value = equals_static s value
value_eq _ value = false

module _ (http_date : ℕ → Bytes) where
  -- `value == header_value || value.as_str_may_convert().eq_ignore_ascii_case(header_value_as_str)`
  unfoldable pub same_value : HeaderValue → HeaderValue → Bytes → Bool
  unfolding value_eq as_str_may_convert eq_ignore_ascii_case
  same_value value header_value header_value_as_str =
      value_eq value header_value
      || eq_ignore_ascii_case (as_str_may_convert http_date value) header_value_as_str

  -- The loop of `find_header`, from an index on.
  unfoldable pub find_header_loop :
      HeaderName
      → HeaderValue
      → Bytes
      → ℕ
      → CompressIndexCandidate
      → List StaticTableEntry
      → CompressIndexCandidate
  unfolding same_name same_value is_no_index
  find_header_loop name value text index candidate [] = candidate
  find_header_loop name value text index candidate (StaticTableEntry.header n ∷ entries) =
      find_header_loop name value text (index + 1)
        (if is_no_index candidate && same_name name n then name_indexed index else candidate)
        entries
  find_header_loop name value text index candidate
        (StaticTableEntry.header_with_value n v ∷ entries) =
      let later =
        find_header_loop name value text (index + 1)
          (if same_name name n then name_indexed index else candidate) entries in
      if same_name name n && same_value v value text then fully_indexed index else later
  find_header_loop name value text index candidate (_ ∷ entries) =
      find_header_loop name value text (index + 1) candidate entries

  unfoldable pub find_header : HeaderName → HeaderValue → Bytes → CompressIndexCandidate
  unfolding find_header_loop static_table
  find_header name value text = find_header_loop name value text 0 no_index static_table

  -- What the `match` on the candidate appends.
  unfoldable pub compress_field : CompressIndexCandidate → HeaderName → Bytes → Bytes
  unfolding to_string_lowercase write_hpack_string_huffman write_hpack_number
  compress_field no_index name text =
      0x00
      ∷ (write_hpack_string_huffman (to_string_lowercase name) ++ write_hpack_string_huffman text)
  compress_field (name_indexed index) name text =
      write_hpack_number index 4 0 ++ write_hpack_string_huffman text
  compress_field (fully_indexed index) name text = write_hpack_number index 7 0x80

  -- The loop over the header fields.
  unfoldable pub compress_headers : List (HeaderName × HeaderValue) → Bytes
  unfolding class as_str_may_convert find_header compress_field
  compress_headers [] = []
  compress_headers ((name, value) ∷ headers) =
      let text = as_str_may_convert http_date value in
      let field : Bytes = elim (class name) [
        | connection_specific ↦ []
        | _ ↦ compress_field (find_header name value text) name text
      ] in
      field ++ compress_headers headers

  unfoldable pub compress : Response → Bytes
  unfolding compress_status_code compress_headers
  compress response =
      compress_status_code response.status ++ compress_headers response.headers.headers
