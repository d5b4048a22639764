-- ===== src/Http.antt =====
-- The vocabulary of HTTP, servente-http.
pub mod HeaderName
pub mod Method
pub mod StatusCode
pub mod SecFetchDest
pub mod HeaderValue
pub mod HeaderMap
pub mod Lists
pub mod RequestTarget
pub mod Request
pub mod Response
pub mod Error
pub mod Syntax
pub mod Range
pub mod Versions
pub mod MediaType
