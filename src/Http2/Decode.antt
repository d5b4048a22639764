-- ===== src/Http2/Decode.antt =====
-- `decode_hpack_sink` of servente-http2/src/hpack.rs, a function for each of the representations
-- of a field, and the decoding of the header section and of the trailer section.
pub mod Monad
pub mod Keeps
pub mod Sections
pub mod Fuel
use servente.Common.{
  ℕ, zero, suc, ◌+◌, bit_and, Bool, true, false, not, ◌&&◌, Option, none, some, Bytes, ltb, ◌==◌,
  if◌then◌else◌,
}
use servente.Common.Result.{Result, ok, err, map_err, ok_or}
use servente.Http.HeaderName.{HeaderName, from_string}
use servente.Http.HeaderValue
use servente.Http.HeaderValue.{HeaderValue}
use servente.Http.Method.{Method}
use servente.Http.Request.{Request, http2}
use servente.Http.RequestTarget
use servente.Http2.Errors.{
  DecompressionError, lookup_error, dynamic_table_update_not_first, dynamic_table_update_too_large,
  no_path, no_method, no_scheme, invalid_request_target,
}
use servente.Http2.Transit.{HeadersInTransit, read_u8, remaining}
use servente.Http2.Hpack.DynamicTable
use servente.Http2.Hpack.DynamicTable.{
  DynamicTable, DynamicTableEntry, authority, header, method, path, scheme,
}
use servente.Http2.Validate.{
  validate_header, validate_header_name, validate_header_value, validate_path,
}
use servente.Http2.Sink
use servente.Http2.Sink.{
  HpackDecodeSink, HpackDecodeSinkHeaders, into_request, headers_sink, trailers_sink,
}
use servente.Http2.Decode.Monad.{
  Decoding, Decoder, ◌>>=◌, ◌>>◌, lift, integer, string, change_table, with_table, with_sink,
}

module _ (http_date : ℕ → Bytes) where
  module _ {S : Type 0} (sink : HpackDecodeSink S) where
    abbrev insert : DynamicTableEntry → Decoder S (Unit {0})
    insert entry = change_table (λ t. DynamicTable.insert http_date t entry)

    abbrev lookup : ℕ → Option Bytes → Decoder S DynamicTableEntry
    lookup index value = with_table (λ t. map_err lookup_error (DynamicTable.get t index value))

    abbrev add_header : HeaderName → HeaderValue → Decoder S (Unit {0})
    add_header name value = with_sink (λ s. sink.add_header s name value)

    -- The entry of an indexed field.
    unfoldable pub emit : DynamicTableEntry → Decoder S (Unit {0})
    emit (authority s) = with_sink (λ d. sink.set_authority d s)
    emit (header name value) = add_header name value
    emit (method m) = with_sink (λ d. sink.set_method d m)
    emit (path s) = with_sink (λ d. sink.set_path d s)
    emit (scheme s) = with_sink (λ d. sink.set_scheme d s)

    -- 6.1
    unfoldable pub indexed_field : ℕ → Decoder S (Unit {0})
    unfolding emit integer DynamicTable.get
    indexed_field first_octet = do
      index ← integer (bit_and first_octet 0x7f) 7
      entry ← lookup index none
      emit entry

    -- A name and a value as strings, with their checks.
    unfoldable pub new_name : (Bytes → HeaderValue) → Decoder S (HeaderName × HeaderValue)
    unfolding string validate_header_name validate_header_value validate_header from_string
    new_name to_value = do
      name ← string
      lift (validate_header_name name)
      value ← string
      lift (validate_header_value value)
      lift (validate_header (from_string name) (to_value value))
      lift (ok (from_string name, to_value value))

    -- 6.2.1
    unfoldable pub incremental_new_name : Decoder S (Unit {0})
    unfolding new_name DynamicTable.insert
    incremental_new_name = do
      (name, value) ← new_name HeaderValue.shared_string
      insert (header name value)
      add_header name value

    unfoldable pub insert_and_emit : DynamicTableEntry → Decoder S (Unit {0})
    unfolding emit DynamicTable.insert validate_path
    insert_and_emit (path s) = do lift (validate_path s); insert (path s); emit (path s)
    insert_and_emit (authority s) = insert (authority s) >> emit (authority s)
    insert_and_emit (header name value) = insert (header name value) >> emit (header name value)
    insert_and_emit (method m) = insert (method m) >> emit (method m)
    insert_and_emit (scheme s) = insert (scheme s) >> emit (scheme s)

    unfoldable pub incremental_indexed_name : ℕ → Decoder S (Unit {0})
    unfolding insert_and_emit integer string DynamicTable.get
    incremental_indexed_name first_octet = do
      index ← integer (bit_and first_octet 0x3f) 6
      value ← string
      entry ← lookup index (some value)
      insert_and_emit entry

    -- 6.3
    unfoldable pub table_size_update : Bool → ℕ → Decoder S (Unit {0})
    unfolding integer DynamicTable.size_update
    table_size_update is_first first_octet = do
      max_size ← integer (bit_and first_octet 0x1f) 5
      if not is_first then lift (err dynamic_table_update_not_first) else lift (ok tt)
      with_table
          (λ t. if ltb t.max_size max_size then err dynamic_table_update_too_large else ok tt)
      change_table (λ t. DynamicTable.size_update t max_size)

    -- 6.2.3 and 6.2.2, a new name
    unfoldable pub literal_new_name : Decoder S (Unit {0})
    unfolding new_name
    literal_new_name = do (name, value) ← new_name HeaderValue.string; add_header name value

    unfoldable pub check_and_emit : DynamicTableEntry → Decoder S (Unit {0})
    unfolding emit validate_header validate_path
    check_and_emit (header name value) = lift (validate_header name value) >> add_header name value
    check_and_emit (path s) = lift (validate_path s) >> emit (path s)
    check_and_emit (authority s) = emit (authority s)
    check_and_emit (method m) = emit (method m)
    check_and_emit (scheme s) = emit (scheme s)

    unfoldable pub indexed_name : ℕ → Decoder S DynamicTableEntry
    unfolding integer string validate_header_value DynamicTable.get
    indexed_name first_octet = do
      index ← integer (bit_and first_octet 0x0f) 4
      value ← string
      lift (validate_header_value value)
      lookup index (some value)

    unfoldable pub never_indexed_name : ℕ → Decoder S (Unit {0})
    unfolding indexed_name check_and_emit
    never_indexed_name first_octet = indexed_name first_octet >>= check_and_emit

    -- Without indexing, a scheme goes into the table all the same.
    unfoldable pub without_indexing : DynamicTableEntry → Decoder S (Unit {0})
    unfolding insert_and_emit check_and_emit
    without_indexing (scheme s) = insert_and_emit (scheme s)
    without_indexing (authority s) = check_and_emit (authority s)
    without_indexing (header name value) = check_and_emit (header name value)
    without_indexing (method m) = check_and_emit (method m)
    without_indexing (path s) = check_and_emit (path s)

    unfoldable pub without_indexing_name : ℕ → Decoder S (Unit {0})
    unfolding indexed_name without_indexing
    without_indexing_name first_octet = indexed_name first_octet >>= without_indexing

    -- One round of the loop, behind its first octet.
    unfoldable pub decode_field : Bool → ℕ → Decoder S (Unit {0})
    unfolding indexed_field incremental_new_name incremental_indexed_name table_size_update
        literal_new_name never_indexed_name without_indexing_name
    decode_field is_first first_octet =
        if bit_and first_octet 0x80 == 0x80
        then indexed_field first_octet
        else if bit_and first_octet 0x40 == 0x40
        then (if first_octet == 0x40
            then incremental_new_name
            else incremental_indexed_name first_octet)
        else if bit_and first_octet 0x20 == 0x20
        then table_size_update is_first first_octet
        else if bit_and first_octet 0x10 == 0x10
        then (if first_octet == 0x10 then literal_new_name else never_indexed_name first_octet)
        else if first_octet == 0
        then literal_new_name
        else without_indexing_name first_octet

    -- The `while let` loop. Each round reads an octet, so `remaining` rounds and one are enough.
    unfoldable pub decode_fields : ℕ → Bool → Decoder S (Unit {0})
    unfolding decode_field
    decode_fields zero is_first d = (ok tt, d)
    decode_fields (suc fuel) is_first d = elim (read_u8 d.request) [
      | none ↦ (ok tt, d)
      | some (first_octet, h) ↦
          (decode_field is_first first_octet >> decode_fields fuel false) (record d { request = h })
    ]

    unfoldable pub decode_hpack_sink : Decoder S (Unit {0})
    unfolding decode_fields
    decode_hpack_sink d = decode_fields (remaining d.request + 1) true d

  unfoldable pub decode_hpack_header_section :
      HeadersInTransit → DynamicTable → Result DecompressionError Request × DynamicTable
  unfolding decode_hpack_sink headers_sink into_request
  decode_hpack_header_section request table =
      let (r, d) =
        (decode_hpack_sink (headers_sink http_date) >>= λ u d. (into_request d.sink, d))
          (record { request = request; dynamic_table = table; sink = Sink.default }) in
      (r, d.dynamic_table)

  -- The request is changed in place, also where a later field fails.
  unfoldable pub decode_hpack_tailer_section :
      HeadersInTransit
      → DynamicTable
      → Request
      → Result DecompressionError (Unit {0}) × DynamicTable × Request
  unfolding decode_hpack_sink trailers_sink
  decode_hpack_tailer_section headers_in_transit table request =
      let (r, d) =
        decode_hpack_sink (trailers_sink http_date)
          (record { request = headers_in_transit; dynamic_table = table; sink = request }) in
      (r, d.dynamic_table, d.sink)
