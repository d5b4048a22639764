-- ===== src/Http2/Streams/Send.antt =====
-- Sending a response: `Connection::send_data_frame_from_slice` and `send_response` of
-- servente-http2/src/lib.rs.
use servente.Common.{
  ℕ, zero, suc, ◌+◌, ◌==◌, true, Option, none, some, List, [], ◌∷◌, ◌++◌, Bytes, length, take, drop,
}
use servente.Common.Exec.{◌>>=◌, ◌>>◌, return, raise, raise_if, modify, with_state}
use servente.Http.Versions.{get_version}
use servente.Common.Result.{ok_or, Result, ok, err}
use servente.Http.HeaderMap.{append_or_override}
use servente.Http.HeaderName.{content_length}
use servente.Http.HeaderValue
use servente.Http.HeaderValue.{ContentCoding, brotli, gzip}
use servente.Http.Request.{BodyKind, bytes, cached_bytes, file, static_string, string}
use servente.Http.Response.{Response}
use servente.Http2.Hpack.Compress.{compress}
use servente.Http2.Frame.{data_frame, headers, send_frame_header}
use servente.Http2.Frame.Read.{ConnectionError, Failure, error, panic}
use servente.Http2.Streams.{Handler, closed, put_stream, send}

-- A version that is not there panics.
abbrev version_or_panic : Option Bytes → Result Failure Bytes
version_or_panic version = ok_or version panic

-- `slice::chunks` of the standard library, for a size that is not 0: as many rounds as octets are enough.
unfoldable pub chunks_loop : ℕ → ℕ → Bytes → List Bytes
chunks_loop fuel size [] = []
chunks_loop zero size (x ∷ data_left) = []
chunks_loop (suc fuel) size (x ∷ data_left) =
    take size (x ∷ data_left) ∷ chunks_loop fuel size (drop size (x ∷ data_left))

unfoldable pub chunks : ℕ → Bytes → List Bytes
unfolding chunks_loop
chunks size octets = chunks_loop (length octets) size octets

-- The `for` loop over the chunks, with the octets sent so far.
unfoldable pub send_chunks : ℕ → ℕ → ℕ → List Bytes → Handler (Unit {0})
unfolding send
send_chunks total stream_id sent [] = return tt
send_chunks total stream_id sent (chunk ∷ more) = do
  send (data_frame (sent + length chunk == total) stream_id chunk)
  send_chunks total stream_id (sent + length chunk) more

-- By the maximum size; `chunks` panics if it is 0.
unfoldable pub send_slice : ℕ → Bytes → ℕ → Handler (Unit {0})
unfolding send_chunks chunks
send_slice stream_id octets size = do
  raise_if (size == 0) panic
  send_chunks (length octets) stream_id 0 (chunks size octets)

unfoldable pub send_data_frame_from_slice : ℕ → Bytes → Handler (Unit {0})
unfolding send_slice
send_data_frame_from_slice stream_id octets =
    with_state (λ s. send_slice stream_id octets s.connection.maximum_payload_size)

-- The length that the `match` on the body gives.
unfoldable pub body_length : Option BodyKind → Result Failure ℕ
unfolding get_version
body_length none = ok 0
body_length (some (bytes octets)) = ok (length octets)
body_length (some (cached_bytes uncompressed brotli_version gzip_version coding)) =
    elim (version_or_panic (get_version uncompressed brotli_version gzip_version coding)) [
      | ok version ↦ ok (length version)
      | err e ↦ err e
    ]
body_length (some (file handle len)) = ok len
body_length (some (string octets)) = ok (length octets)
body_length (some (static_string octets)) = ok (length octets)

unfoldable pub lift : {A : Type 0} → Result Failure A → Handler A
lift r s = (r, s)

-- The parameters are `httpdate`, and what the reads of a file give with a buffer of a size: octets,
-- `None` where the read fails, and the end of the file behind the last.
module _ (http_date : ℕ → Bytes) (file_reads : ℕ → ℕ → List (Option Bytes)) where
  -- The `loop` over the reads, each with a header of its own.
  unfoldable pub send_file : ℕ → List (Option Bytes) → Handler (Unit {0})
  unfolding send send_frame_header
  send_file stream_id [] = send (data_frame true stream_id [])
  send_file stream_id (none ∷ reads) = raise (error ConnectionError.io)
  send_file stream_id (some octets ∷ reads) = do
    modify (λ s. record s {
      output = s.output ++ send_frame_header 0x00 0x00 stream_id (length octets) ++ octets;
    })
    send_file stream_id reads

  -- `vec![0, buffer_length]` is a buffer of two octets.
  unfoldable pub send_body : ℕ → Option BodyKind → Handler (Unit {0})
  unfolding send_data_frame_from_slice get_version lift send_file
  send_body stream_id none = return tt
  send_body stream_id (some (bytes octets)) = send_data_frame_from_slice stream_id octets
  send_body stream_id (some (cached_bytes uncompressed brotli_version gzip_version coding)) = do
    version ← lift (version_or_panic (get_version uncompressed brotli_version gzip_version coding))
    send_data_frame_from_slice stream_id version
  send_body stream_id (some (file handle len)) = send_file stream_id (file_reads handle 2)
  send_body stream_id (some (string octets)) = send_data_frame_from_slice stream_id octets
  send_body stream_id (some (static_string octets)) = send_data_frame_from_slice stream_id octets

  unfoldable pub send_response : ℕ → Response → Handler (Unit {0})
  unfolding body_length lift send put_stream send_body compress append_or_override
  send_response stream_id response = do
    length_of_body ← lift (body_length response.body)
    let headed = record response {
      headers =
          append_or_override response.headers content_length (HeaderValue.size length_of_body);
    }
    send (headers true (length_of_body == 0) stream_id (compress http_date headed))
    send_body stream_id response.body
    put_stream stream_id closed
