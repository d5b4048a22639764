-- ===== src/Http/HeaderName.antt =====
-- The names of header fields, servente-http/src/header_name.rs.
mod Defs
mod Text
mod Parse
pub mod RoundTrip
pub mod Case
pub use Defs.*
unfoldable pub use Defs.{HeaderName-discrete, header_name_eq}
unfoldable pub use Text.{to_string_h1, to_string_lowercase}
unfoldable pub use Parse.{
  string_to_header_name_map, find_ignore_case, from_string, is_cgi_extension_field, class,
}
pub use Parse.{HeaderNameClass, cgi_extension, connection_specific, other_class}
