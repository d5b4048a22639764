-- ===== src/Http2/Decode/Sections.antt =====
-- The header section and the trailer section of servente-http2/src/hpack.rs: what the decoding of
-- one leaves as it was.
use servente.Common.{ℕ, ◌≡◌, refl, arith, Bytes}
use servente.Common.Result.{ok, map_err, >>=-eq-ok}
use servente.Http.HeaderMap
use servente.Http.HeaderMap.{HeaderMap}
use servente.Http.HeaderName.{HeaderName}
use servente.Http.HeaderValue.{HeaderValue}
use servente.Http.Request.{Request}
use servente.Http2.Errors.{header_map_insertion_error}
use servente.Http2.Transit.{HeadersInTransit}
use servente.Http2.Hpack.DynamicTable.{DynamicTable}
use servente.Http2.Sink.{add_trailer, trailers_sink}
use servente.Http2.Decode.{decode_hpack_tailer_section}
use servente.Http2.Decode.Keeps.{IsKept, decode_hpack_sink-Keeps}

-- All of a request but its header fields.
pub record HasSameHead (request request' : Request) : Type 0 where
  pub method : request'.method ≡ request.method
  pub target : request'.target ≡ request.target
  pub version : request'.version ≡ request.version
  pub body : request'.body ≡ request.body

module _ (http_date : ℕ → Bytes) where
  HasSameHead-add_trailer :
      (first r s : Request) (n : HeaderName) (v : HeaderValue)
      → add_trailer http_date r n v ≡ ok s
      → HasSameHead first r
      → HasSameHead first s
  unfolding add_trailer
  HasSameHead-add_trailer first r s n v e p =
      let (headers, last, q) =
        >>=-eq-ok (map_err header_map_insertion_error (HeaderMap.append http_date r.headers n v)) _
          e in
      record {
        method = ground arith;
        target = ground arith;
        version = ground arith;
        body = ground arith;
      }

  HasSameHead-IsKept :
      (first : Request) → IsKept http_date (trailers_sink http_date) (λ d. HasSameHead first d.sink)
  unfolding trailers_sink
  HasSameHead-IsKept first = record {
    reads = λ d h later p. p;
    inserts = λ d e p. p;
    updates = λ d size p. p;
    adds_header = λ d n v s e p. HasSameHead-add_trailer first d.sink s n v e p;
    sets_authority = λ d b s e p. cc;
    sets_method = λ d m s e p. cc;
    sets_path = λ d b s e p. cc;
    sets_scheme = λ d b s e p. cc;
  }

  -- The decoding of a trailer section, whether it succeeds or fails, leaves the method, the target,
  -- the version and the body of the request as they are.
  pub decode_hpack_tailer_section-HasSameHead :
      (h : HeadersInTransit) (t : DynamicTable) (request : Request)
      → (let (r, t', request') = decode_hpack_tailer_section http_date h t request in
          HasSameHead request request')
  unfolding decode_hpack_tailer_section
  decode_hpack_tailer_section-HasSameHead h t request =
      let same : HasSameHead request request = record {
        method = refl;
        target = refl;
        version = refl;
        body = refl;
      } in
      (decode_hpack_sink-Keeps http_date (trailers_sink http_date) _
          (HasSameHead-IsKept request)).keeps
        (record { request = h; dynamic_table = t; sink = request }) same
