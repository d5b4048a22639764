-- ===== src/Http1/Transfer.antt =====
-- The sending of a response: `determine_transfer_strategy`, `send_response` and the `transfer_body`
-- functions of servente-http1/src/lib.rs. The state is what has been written, and writing never fails.
pub mod Length
use servente.Common.{
  ℕ, zero, suc, ◌+◌, ◌-◌, ◌%◌, ◌^◌, ◌==◌, ltb, Bool, true, false, Option, none, some, List, [], ◌∷◌,
  ◌++◌, Bytes, codes, length, take, if◌then◌else◌,
}
use servente.Common.Exec.{Exec, ◌>>=◌, ◌>>◌, return, raise, modify}
use servente.Common.Result
use servente.Common.Result.{Result, ok, err, ok_or}
use servente.Http.Error.{Error, other, panic}
use servente.Http.HeaderMap.{HeaderMap, append_or_override}
use servente.Http.HeaderMap.Setters.{hex_digits, set_content_length, set_content_range}
use servente.Http.HeaderName.{HeaderName, to_string_h1, transfer_encoding}
use servente.Http.HeaderValue
use servente.Http.HeaderValue.{HeaderValue, append_to_message, ContentCoding, brotli, gzip}
use servente.Http.Range
use servente.Http.Range.{Range, full, start_point_to_end, points, suffix, first_and_only}
use servente.Http.Request.{BodyKind, bytes, cached_bytes, file, static_string, string}
use servente.Http.Response.{Response}
use servente.Http.StatusCode
use servente.Http.StatusCode.{informational, partial_content, discriminant}
use servente.Http.Versions.{get_version}

pub data TransferStrategy : Type 0 where
  chunked_transfer full_transfer : TransferStrategy
  ranges_transfer : List Range → TransferStrategy

abbrev pub transfer_encoding_threshold : ℕ
transfer_encoding_threshold = 1000000000000000000

-- A difference of two `u64` in a release build.
abbrev pub wrapping_sub : ℕ → ℕ → ℕ
wrapping_sub a b = (a + 2 ^ 64 - b) % 2 ^ 64

-- The start and the end of a Content-Range, by the only range and the size of the file.
unfoldable pub content_range_of : ℕ → Range → ℕ × ℕ
content_range_of file_size full = (0, wrapping_sub file_size 1)
content_range_of file_size (points start end) = (start, end)
content_range_of file_size (start_point_to_end start) = (start, wrapping_sub file_size 1)
content_range_of file_size (suffix n) = (wrapping_sub file_size n, wrapping_sub file_size 1)

unfoldable pub with_length : Response → ℕ → TransferStrategy × Response
unfolding set_content_length
with_length response n =
    (full_transfer, record response { headers = set_content_length response.headers n })

unfoldable pub with_range : Response → ℕ → ℕ × ℕ → List Range → TransferStrategy × Response
unfolding set_content_range
with_range response file_size (start, end) ranges = (
  ranges_transfer ranges,
  record response {
    status = partial_content;
    headers = set_content_range response.headers (HeaderValue.range start end (some file_size));
  },
)

-- A file without ranges.
unfoldable pub file_strategy : Response → ℕ → TransferStrategy × Response
unfolding with_length append_or_override
file_strategy response file_size =
    if ltb transfer_encoding_threshold file_size
    then (
      chunked_transfer,
      record response {
        headers =
            append_or_override response.headers transfer_encoding
              (HeaderValue.static_string (codes "chunked"));
      },
    )
    else with_length response file_size

-- `todo!` panics where there is not exactly one range.
unfoldable pub range_strategy :
    Response → ℕ → List Range → Option Range → Result Error (TransferStrategy × Response)
unfolding with_range content_range_of
range_strategy response file_size ranges none = err panic
range_strategy response file_size ranges (some range) =
    ok (with_range response file_size (content_range_of file_size range) ranges)

unfoldable pub strategy_of :
    Response → Option BodyKind → Option (List Range) → Result Error (TransferStrategy × Response)
unfolding with_length file_strategy range_strategy first_and_only StatusCode.class get_version
strategy_of response none ranges = ok (elim (StatusCode.class response.status) [
  | informational ↦ (full_transfer, response)
  | _ ↦ with_length response 0
])
strategy_of response (some (file handle file_size)) none = ok (file_strategy response file_size)
strategy_of response (some (file handle file_size)) (some ranges) =
    range_strategy response file_size ranges (first_and_only ranges)
strategy_of response (some (cached_bytes uncompressed brotli_version gzip_version coding)) ranges =
    Result.◌>>=◌ (ok_or (get_version uncompressed brotli_version gzip_version coding) panic)
      (λ version. ok (with_length response (length version)))
strategy_of response (some (bytes octets)) ranges = ok (with_length response (length octets))
strategy_of response (some (static_string text)) ranges = ok (with_length response (length text))
strategy_of response (some (string text)) ranges = ok (with_length response (length text))

unfoldable pub determine_transfer_strategy :
    Response → Option (List Range) → Result Error (TransferStrategy × Response)
unfolding strategy_of
determine_transfer_strategy response ranges = strategy_of response response.body ranges

abbrev pub Writer : Type 0
Writer = Exec Error Bytes (Unit {0})

unfoldable pub write_all : Bytes → Writer
write_all octets = modify (λ output. output ++ octets)

unfoldable pub lift : {A : Type 0} → Result Error A → Exec Error Bytes A
lift r output = (r, output)

-- The reads of a file: octets, or `none` for a read that fails, and the end of the file behind the last.
unfoldable pub transfer_body_chunked : List (Option Bytes) → Writer
unfolding write_all hex_digits
transfer_body_chunked [] = write_all (codes "0\r\n\r\n")
transfer_body_chunked (none ∷ reads) = raise other
transfer_body_chunked (some octets ∷ reads) = do
  write_all (hex_digits (length octets + 1) (length octets) ++ codes "\r\n")
  write_all octets
  write_all (codes "\r\n")
  transfer_body_chunked reads

-- The front buffer is written when the back buffer has been read, which may fail first.
unfoldable pub transfer_front : Bytes → List (Option Bytes) → Writer
unfolding write_all
transfer_front front [] = write_all front
transfer_front front (none ∷ reads) = raise other
transfer_front front (some back ∷ reads) = write_all front >> transfer_front back reads

unfoldable pub transfer_body_full : List (Option Bytes) → Writer
unfolding transfer_front
transfer_body_full [] = return tt
transfer_body_full (none ∷ reads) = raise other
transfer_body_full (some front ∷ reads) = transfer_front front reads

-- The loop to the end of the file.
unfoldable pub transfer_to_end : List (Option Bytes) → Writer
unfolding write_all
transfer_to_end [] = return tt
transfer_to_end (none ∷ reads) = raise other
transfer_to_end (some octets ∷ reads) = write_all octets >> transfer_to_end reads

-- The loop over what remains.
unfoldable pub transfer_remaining : ℕ → List (Option Bytes) → Writer
unfolding write_all
transfer_remaining remaining [] = return tt
transfer_remaining remaining (none ∷ reads) = if remaining == 0 then return tt else raise other
transfer_remaining remaining (some octets ∷ reads) = if remaining == 0 then return tt else (do
  write_all (take remaining octets)
  transfer_remaining (remaining - length octets) reads)

-- The parameters are the reads of a file from an offset with a buffer of a size, and its length.
module _ (file_reads : ℕ → ℕ → ℕ → List (Option Bytes)) (file_end : ℕ → ℕ) where
  -- A range that is not full; a full one ends the loop.
  unfoldable pub transfer_body_ranges : ℕ → List Range → Writer
  unfolding transfer_body_full transfer_to_end transfer_remaining
  transfer_body_ranges handle [] = return tt
  transfer_body_ranges handle (full ∷ ranges) = transfer_body_full (file_reads handle 0 8192)
  transfer_body_ranges handle (start_point_to_end start ∷ ranges) = do
    transfer_to_end (file_reads handle start 8192)
    transfer_body_ranges handle ranges
  transfer_body_ranges handle (points start end ∷ ranges) = do
    transfer_remaining (wrapping_sub end start) (file_reads handle start 8192)
    transfer_body_ranges handle ranges
  transfer_body_ranges handle (suffix n ∷ ranges) = do
    transfer_remaining n (file_reads handle (wrapping_sub (file_end handle) n) 8192)
    transfer_body_ranges handle ranges

  unfoldable pub transfer_file : ℕ → TransferStrategy → Writer
  unfolding transfer_body_full transfer_body_chunked transfer_body_ranges
  transfer_file handle full_transfer = transfer_body_full (file_reads handle 0 8192)
  transfer_file handle chunked_transfer = transfer_body_chunked (file_reads handle 0 16384)
  transfer_file handle (ranges_transfer ranges) = transfer_body_ranges handle ranges

  -- `ContentCoding::encode`, which two crates do and which always gives a text, is a parameter.
  module _ (http_date : ℕ → Bytes) (encode : ContentCoding → Bytes → Bytes) where
    -- A version that is not there is compressed on the fly.
    unfoldable pub cached_version :
        Bytes → Option Bytes → Option Bytes → Option ContentCoding → Bytes
    cached_version uncompressed (some version) gzip_version (some brotli) = version
    cached_version uncompressed none gzip_version (some brotli) = encode brotli uncompressed
    cached_version uncompressed brotli_version (some version) (some gzip) = version
    cached_version uncompressed brotli_version none (some gzip) = encode gzip uncompressed
    cached_version uncompressed brotli_version gzip_version none = uncompressed

    unfoldable pub write_body : Option BodyKind → TransferStrategy → Writer
    unfolding write_all transfer_file cached_version
    write_body none strategy = return tt
    write_body (some (file handle file_size)) strategy = transfer_file handle strategy
    write_body (some (bytes octets)) strategy = write_all octets
    write_body (some (cached_bytes uncompressed brotli_version gzip_version coding)) strategy =
        write_all (cached_version uncompressed brotli_version gzip_version coding)
    write_body (some (static_string text)) strategy = write_all text
    write_body (some (string text)) strategy = write_all text

    -- The loop over the header fields.
    unfoldable pub push_fields : List (HeaderName × HeaderValue) → Bytes → Bytes
    unfolding to_string_h1 append_to_message
    push_fields [] response_text = response_text
    push_fields ((name, value) ∷ headers) response_text = push_fields headers (
        append_to_message http_date value (response_text ++ to_string_h1 name ++ codes ": ")
        ++ codes "\r\n")

    unfoldable pub response_head : Response → Bytes
    unfolding push_fields StatusCode.to_string
    response_head response =
        push_fields response.headers.headers
          (codes "HTTP/1.1 " ++ StatusCode.to_string response.status ++ codes "\r\n")
        ++ codes "\r\n"

    unfoldable pub send_response : Response → Option (List Range) → Writer
    unfolding determine_transfer_strategy lift write_all response_head write_body
    send_response response ranges = do
      (strategy, planned) ← lift (determine_transfer_strategy response ranges)
      write_all (response_head planned)
      write_body planned.body strategy
