-- ===== src/Http2/Streams/Follows/Responses.antt =====
-- The sending of responses, of servente-http2/src/lib.rs.
use servente.Common.{ℕ, ◌+◌, refl, Bool, Option, none, some, List, [], ◌∷◌, Bytes, length}
use servente.Common.HashMap.{map_get}
use servente.Common.Exec.{
  Keeps, Leads-bind, Leads-return, Leads-raise, Leads-modify, Leads-with_state, Leads-weaken,
  Leads-raise_if,
}
use servente.Common.Result.{Result, ok, err}
use servente.Http.Request.{BodyKind, bytes, cached_bytes, file, static_string, string}
use servente.Http.Response.{Response}
use servente.Http2.Errors.{DecompressionError}
use servente.Http2.Frame.Read.{Failure}
use servente.Http2.Streams.{ConnectionState, RequestInTransit, closed, put_stream}
use servente.Http2.Streams.Send.{
  send_chunks, send_slice, send_data_frame_from_slice, chunks, lift, send_file, send_body,
  send_response,
}
use servente.Http2.Streams.Task.{RequestError, data_sum_does_not_equal_content_length}
use servente.Http2.Streams.Client.{respond_with, join_request, handle_client_inner_join}
use servente.Http2.Streams.Moves.{close}
use servente.Http2.Streams.Follows.{IsStable, Keeps-send}

module _ (P : ConnectionState → Type 0) (h : IsStable P) where
  Keeps-send_chunks :
      (total stream_id sent : ℕ) (parts : List Bytes)
      → Keeps P (send_chunks total stream_id sent parts)
  unfolding send_chunks
  Keeps-send_chunks total stream_id sent [] = Leads-return P P P _ (λ s p. p)
  Keeps-send_chunks total stream_id sent (chunk ∷ more) =
      Leads-bind P P P P _ _ (Keeps-send P h.blind _)
        (λ u. Keeps-send_chunks total stream_id (sent + length chunk) more)

  Keeps-send_data_frame_from_slice :
      (stream_id : ℕ) (octets : Bytes) → Keeps P (send_data_frame_from_slice stream_id octets)
  unfolding send_data_frame_from_slice send_slice
  Keeps-send_data_frame_from_slice stream_id octets =
      Leads-with_state P P P (λ s. s.connection.maximum_payload_size) (send_slice stream_id octets)
        (λ size.
          Leads-weaken _
            (Leads-bind P P P P _ _ (Leads-raise_if P P _ _ (λ s p. p))
              (λ u. Keeps-send_chunks (length octets) stream_id 0 (chunks size octets)))
            (λ s p. p.0) (λ s p. p))

  Keeps-lift : {A : Type 0} (r : Result Failure A) → Keeps P (lift r)
  unfolding lift
  Keeps-lift (ok a) = record { leads = λ s p. p }
  Keeps-lift (err e) = record { leads = λ s p. p }

  Keeps-close : (stream_id : ℕ) → Keeps P (put_stream stream_id closed)
  unfolding put_stream
  Keeps-close stream_id = Leads-modify P P P _ (λ s p. h.moved s stream_id closed close p)

  module _ (http_date : ℕ → Bytes) (file_reads : ℕ → ℕ → List (Option Bytes)) where
    Keeps-send_file :
        (stream_id : ℕ) (reads : List (Option Bytes))
        → Keeps P (send_file http_date file_reads stream_id reads)
    unfolding send_file
    Keeps-send_file stream_id [] = Keeps-send P h.blind _
    Keeps-send_file stream_id (none ∷ reads) = Leads-raise P P P _ (λ s p. p)
    Keeps-send_file stream_id (some octets ∷ reads) =
        Leads-bind P P P P _ _ (Leads-modify P P P _ (λ s p. h.blind.others s _ refl refl p))
          (λ u. Keeps-send_file stream_id reads)

    Keeps-send_body :
        (stream_id : ℕ) (body : Option BodyKind)
        → Keeps P (send_body http_date file_reads stream_id body)
    unfolding send_body
    Keeps-send_body stream_id none = Leads-return P P P _ (λ s p. p)
    Keeps-send_body stream_id (some (bytes octets)) =
        Keeps-send_data_frame_from_slice stream_id octets
    Keeps-send_body stream_id
          (some (cached_bytes uncompressed brotli_version gzip_version coding)) =
        Leads-bind P P P P _ _ (Keeps-lift _) (Keeps-send_data_frame_from_slice stream_id)
    Keeps-send_body stream_id (some (file handle len)) = Keeps-send_file stream_id _
    Keeps-send_body stream_id (some (string octets)) =
        Keeps-send_data_frame_from_slice stream_id octets
    Keeps-send_body stream_id (some (static_string octets)) =
        Keeps-send_data_frame_from_slice stream_id octets

    pub Keeps-send_response :
        (stream_id : ℕ) (response : Response)
        → Keeps P (send_response http_date file_reads stream_id response)
    unfolding send_response
    Keeps-send_response stream_id response = Leads-bind P P P P _ _ (Keeps-lift _) (λ n.
        Leads-bind P P P P _ _ (Keeps-send P h.blind _) (λ u.
          Leads-bind P P P P _ _ (Keeps-send_body stream_id response.body)
            (λ u. Keeps-close stream_id)))

    module _ (from_utf8_lossy : Bytes → Bytes) (debug_text : ℕ → DecompressionError → Bytes) where
      Keeps-respond_with :
          (stream_id : ℕ) (result : Result RequestError Response)
          → Keeps P (respond_with from_utf8_lossy debug_text http_date file_reads stream_id result)
      unfolding respond_with
      Keeps-respond_with stream_id (ok response) = Keeps-send_response stream_id response
      Keeps-respond_with stream_id (err data_sum_does_not_equal_content_length) =
          Leads-raise P P P _ (λ s p. p)
      Keeps-respond_with stream_id (err (RequestError.compression_error e)) =
          Leads-raise P P P _ (λ s p. p)

      Keeps-join_request :
          (stream_id : ℕ) (is_joined : Bool) (result : Result RequestError Response)
          (found : Option RequestInTransit)
          → Keeps P (
              join_request from_utf8_lossy debug_text http_date file_reads stream_id is_joined
                result found)
      unfolding join_request
      Keeps-join_request stream_id is_joined result none = Keeps-respond_with stream_id result
      Keeps-join_request stream_id is_joined result (some request) =
          Leads-bind P P P P _ _ (Leads-modify P P P _ (λ s p. h.blind.others s _ refl refl p))
            (λ u.
              Leads-bind P P P P _ _ (Leads-raise_if P P _ _ (λ s p. p))
                (λ u. Keeps-respond_with stream_id result))

      pub Keeps-handle_client_inner_join :
          (stream_id : ℕ) (is_joined : Bool) (result : Result RequestError Response)
          → Keeps P (
              handle_client_inner_join from_utf8_lossy debug_text http_date file_reads stream_id
                is_joined result)
      unfolding handle_client_inner_join
      Keeps-handle_client_inner_join stream_id is_joined result =
          Leads-with_state P P P (λ s. map_get stream_id s.requests)
            (join_request from_utf8_lossy debug_text http_date file_reads stream_id is_joined
              result)
            (λ found.
              Leads-weaken _ (Keeps-join_request stream_id is_joined result found) (λ s p. p.0)
                (λ s p. p))
