-- ===== src/Http2/Errors.antt =====
-- The errors of HPACK decoding, in servente-http2/src/hpack.rs.
use servente.Http.HeaderMap.{HeaderMapInsertionError}

pub data DynamicTableLookupError : Type 0 where
  invalid_index out_of_bounds : DynamicTableLookupError
  pseudo_header_without_value pseudo_header_status : DynamicTableLookupError

pub data DecompressionError : Type 0 where
  lookup_error : DynamicTableLookupError → DecompressionError
  no_path no_method no_scheme unexpected_end_of_file : DecompressionError
  dynamic_table_update_too_large dynamic_table_update_not_first : DecompressionError
  duplicate_authority duplicate_method duplicate_path duplicate_scheme : DecompressionError
  pseudo_after_regular_fields pseudo_in_trailer_section : DecompressionError
  empty_path : DecompressionError
  field_name_empty field_name_invalid_non_visible_ascii : DecompressionError
  field_name_invalid_ascii_space field_name_invalid_uppercase : DecompressionError
  field_name_start_with_colon_non_pseudo_field : DecompressionError
  field_name_extended_ascii_unicode : DecompressionError
  field_value_contains_nul field_value_contains_carriage_return : DecompressionError
  field_value_contains_line_feed field_value_starts_with_whitespace : DecompressionError
  field_value_ends_with_whitespace : DecompressionError
  connection_specific_header_field te_header_not_trailers : DecompressionError
  invalid_request_target : DecompressionError
  header_map_insertion_error : HeaderMapInsertionError → DecompressionError
  invalid_utf8 : DecompressionError
