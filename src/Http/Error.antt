-- ===== src/Http/Error.antt =====
-- The errors of reading a request, servente-http/src/error.rs. The error of the standard library's I/O
-- has no content here, and a panic stops the task.
use servente.Http.HeaderMap.{HeaderMapInsertionError}

pub data HttpParseError : Type 0 where
  header_does_not_contain_colon header_too_large invalid_content_length : HttpParseError
  invalid_crlf invalid_http_version invalid_request_target method_too_large : HttpParseError
  request_target_too_large token_contains_delimiter : HttpParseError
  token_contains_non_visible_ascii token_contains_whitespace token_empty : HttpParseError
  field_value_contains_invalid_characters invalid_octet_in_method : HttpParseError
  invalid_octet_in_request_target invalid_http2_pri_upgrade_body : HttpParseError
  header_map_insertion_error : HeaderMapInsertionError → HttpParseError

pub data Error : Type 0 where
  parse_error : HttpParseError → Error
  other panic : Error
