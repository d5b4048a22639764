-- ===== src/Lib.antt =====
-- Servente, a web server: the HTTP vocabulary of the crate servente-http and the crate servente-http2,
-- its header compression HPACK, its frames, and its connections with their streams; the exchanges of the
-- crate servente-http1; the answers to requests of servente-http-handling, the files of
-- servente-resources with their cache, and the CGI scripts of servente-cgi.
--
-- A connection's reader puts the fragments of a HEADERS frame and of its CONTINUATION frames into a
-- `HeadersInTransit` (servente-http2/src/lib.rs). `decode_hpack_header_section` and
-- `decode_hpack_tailer_section` (servente-http2/src/hpack.rs) read it field by field with the static
-- and the dynamic table, check the fields, and hand them to a sink, which builds the request from the
-- types of servente-http.
--
-- `handle_client` reads frames and hands each to `handle_frame`, which keeps the states of the streams
-- and starts a task for each whole request; a task decodes the header block and answers, and the loop
-- sends the answer through the compressor. An error ends the connection or resets the stream.
--
-- `handle_exchange` of HTTP/1 reads a request, hands it to `handle_request` of servente-http-handling,
-- and sends the response, until an error ends the connection or the preface of HTTP/2 hands it on.
-- `handle_request` asks the handlers, then the files below wwwroot, from the memory cache or the disk, or
-- gives the welcome page, and passes the response through the middleware, of which CGI is one.
--
-- The files:
-- Common: tests, lists, bytes, bits, decimal numbers, ASCII and UTF-8 text, Rust's `Result`; Trim for
--   `str::trim`, HashMap for hash maps, and Exec for code that changes a state and may fail, with its
--   Hoare triples.
-- Http/HeaderName: servente-http/src/header_name.rs; Defs has the names, Text their texts, Parse the
--   reading of a name, RoundTrip and Case its theorems.
-- Http/Response, Http/Method, Http/StatusCode, Http/HeaderMap, Http/RequestTarget, Http/Request: the
--   files of servente-http/src of these names.
-- Http/HeaderValue, Http/SecFetchDest: servente-http/src/header_value.
-- Http/Error, Http/Syntax: servente-http/src/error.rs and servente-http/src/syntax.rs.
-- Http1/Stream, Http1/Read: servente-http1/src/read.rs; Stream has the reader and the functions on bytes
--   and lines, Read those on requests.
-- Http1/Transfer: `send_response` and what it calls, of servente-http1/src/lib.rs.
-- Http/Range, Http/Versions: servente-http/src/range.rs, and `get_version` of
--   servente-resources/src/compression.rs.
-- Http1/Wire, Http1/Exchange: `handle_exchange`, `handle_pri_method` and the loop of `process_socket`, of
--   servente-http1/src/lib.rs; Order has requests one behind another, Upgrade the preface of HTTP/2.
-- Http/Lists: servente-http/src/header_value/lists.rs; Laws has the best match of a list, Written the lists that
--   a client writes.
-- Http/MediaType: servente-resources/src/media_type.rs. Handling: the last steps of a response, of
--   servente-http-handling/src/lib.rs and responses.rs; Handling/Paths, Handling/Files, Handling/Welcome,
--   Handling/Requests: the paths, the files, the welcome page and `handle_request` of the same lib.rs;
--   Handling/Handlers: handler.rs; Handling/Server has the parameters that they share. Requests/Served and
--   Requests/Answered follow a file through the steps of an answer.
-- Resources/Compression, Resources/Exclude, Resources/Permissions, Resources/Cache: compression.rs,
--   exclude.rs, fs.rs and cache.rs of servente-resources/src.
-- Cgi: servente-cgi/src/lib.rs.
-- Http2/Transit, Http2/ReadString: `HeadersInTransit` and its reading of integers and strings.
-- Http2/Hpack: the writing of numbers, the static table, the dynamic table.
-- Http2/BitReader, Http2/BitReader3, Http2/BitWriter, Http2/Huffman: the bit streams and the Huffman
--   code, with its table, its tree, encoding and decoding.
-- Http2/Validate, Http2/Sink, Http2/Decode, Http2/Errors: the checks of fields, the two sinks, the
--   decoding of a block and its errors. Decode/Keeps has what every step of the decoding keeps.
-- Http2/Frame: the frames of servente-http2/src/lib.rs and their sending; Frame/Read has
--   `Connection::read_frame` with a function for each type of frame.
-- Http2/Hpack/Compress: `Compressor` and `compress_status_code` of servente-http2/src/hpack.rs.
-- Http2/Streams: `Connection`, its streams and its loops, of servente-http2/src/lib.rs. Send has the
--   responses, Receive the handlers of frames, Task the task of a request, Client the preface and the
--   loops. Moves is the state machine of a stream, Follows what each handler does to the streams.
-- Tests: runs of the code and the theorems at concrete inputs.
--
-- A text and a list of octets are a list of numbers below 256. Integers keep their width: a `usize`
-- has 64 bits and wraps around as in a release build. Code that changes an object in place gives the
-- new one; the decoder's state (block, dynamic table, sink) is passed on through errors too. The text
-- of a date is the crate httpdate's and `from_utf8_lossy` the standard library's, parameters both. A hash map is the list of its entries.
--
-- Fuel: a loop that reads octets has as many rounds as there are octets left, and one more; one that
-- takes entries out of a table, one more than the table's entries; the bit loops, one for each bit.
--
-- An HTTP/1 reader is the list of the pieces in which the bytes come, and its reads do what the crate
-- tokio documents. The loops of HTTP/1 add a byte to a
-- text in each round, up to its maximum length, or take one from the stream.
--
-- The octets that an HTTP/2 client sends are a list, at whose end a read fails; the writer never fails. What
-- `tokio::select!` takes in each round is a list of events: the timer, a frame, or the result of a
-- request, which may be anything. A frame is read whole, though the timer may drop a read in the
-- source. The reads of a file, the debug text of an error and the answer of servente-http-handling to a
-- request are parameters. The rounds of the loop over CONTINUATION frames are one more than the octets
-- to come.
--
-- The tasks that put files into the cache take their steps in any order, as a relation on the cache and
-- the places of the tasks. The weights of lists are numbers of a type that is a parameter, with the
-- operations of `f32` that the code uses. The clock, the files, the current directory, the decoding of
-- URLs, the texts of dates, the compression and the process of a script are parameters, which do not
-- change while a request is answered. An exchange is told whether its reads came too late.
--
-- Not modelled: the accepting of sockets and TLS, the watching of the file system and the walk over a
-- directory at the start, HTTP/3 and certificates, which are I/O and other crates; the conversion of
-- CommonMark, a parameter of the cache; the test client.
pub mod Common
pub mod Http
pub mod Http1
pub mod Handling
pub mod Resources
pub mod Cgi
pub mod Http2
mod Tests
