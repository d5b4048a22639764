-- ===== src/Http2/Streams/Follows/Preface.antt =====
-- The preface of a connection, of servente-http2/src/lib.rs.
use servente.Common.{ℕ, Option, none, List, Bytes}
use servente.Common.HashMap.{map_insert}
use servente.Common.Exec.{Keeps, Leads-bind, Leads-raise, Leads-modify}
use servente.Http2.Errors.{DecompressionError}
use servente.Http2.Frame.{
  Frame, data_frame, headers, go_away, window_update, reset_stream, settings, ping,
  settings_acknowledgement, continuation, unknown,
}
use servente.Http2.Streams.{ConnectionState, open_state, put_stream}
use servente.Http2.Streams.Client.{accept_preface, complete_preface}
use servente.Http2.Streams.Follows.{IsBlind, Keeps-send, Keeps-receive, Keeps-apply_settings}

module _ (P : ConnectionState → Type 0) (h : IsBlind P)
    (opened : (s : ConnectionState)
      → P s
      → P (record s { streams = map_insert 0 (open_state none) s.streams })) where
  Keeps-accept_preface : (frame : Frame) → Keeps P (accept_preface frame)
  unfolding accept_preface put_stream
  Keeps-accept_preface (settings values) =
      Leads-bind P P P P _ _ (Keeps-apply_settings P h values) (λ u.
        Leads-bind P P P P _ _ (Leads-modify P P P _ opened)
          (λ u. Keeps-send P h settings_acknowledgement))
  Keeps-accept_preface unknown = Leads-raise P P P _ (λ s p. p)
  Keeps-accept_preface (data_frame end_stream stream_id payload) = Leads-raise P P P _ (λ s p. p)
  Keeps-accept_preface (headers end_headers end_stream stream_id payload) =
      Leads-raise P P P _ (λ s p. p)
  Keeps-accept_preface (go_away last_stream_id error_code text) = Leads-raise P P P _ (λ s p. p)
  Keeps-accept_preface (window_update stream_id increment) = Leads-raise P P P _ (λ s p. p)
  Keeps-accept_preface (reset_stream stream_id error_code) = Leads-raise P P P _ (λ s p. p)
  Keeps-accept_preface (ping ack payload) = Leads-raise P P P _ (λ s p. p)
  Keeps-accept_preface settings_acknowledgement = Leads-raise P P P _ (λ s p. p)
  Keeps-accept_preface (continuation end_headers stream_id payload) = Leads-raise P P P _ (λ s p. p)

  pub Keeps-complete_preface :
      (from_utf8_lossy : Bytes → Bytes) (debug_text : ℕ → DecompressionError → Bytes)
      (http_date : ℕ → Bytes) (file_reads : ℕ → ℕ → List (Option Bytes))
      → Keeps P (complete_preface from_utf8_lossy debug_text http_date file_reads)
  unfolding complete_preface
  Keeps-complete_preface from_utf8_lossy debug_text http_date file_reads =
      Leads-bind P P P P _ _ (Keeps-send P h _)
        (λ u. Leads-bind P P P P _ _ (Keeps-receive P h from_utf8_lossy 0) Keeps-accept_preface)
