-- ===== src/Http2/Streams/Follows/Frames.antt =====
-- The handlers of frames, of servente-http2/src/lib.rs.
use servente.Common.{ℕ, ◌==◌, ltb, ◌≡◌, refl, Bool, true, false, Option, none, some, Bytes}
use servente.Common.HashMap.{map_get}
use servente.Common.Exec.{
  ◌>>=◌, raise_if, Leads, Keeps, Leads-bind, Leads-return, Leads-raise, Leads-modify,
  Leads-with_state, Leads-weaken, Leads-if, Leads-raise_if,
}
use servente.Http2.Frame.{
  Frame, go_away, window_update, reset_stream, ping, settings_acknowledgement, continuation,
  unknown,
}
use servente.Http2.Frame.Read.{Failure}
use servente.Http2.Streams.{
  StreamState, idle, open_state, half_closed_remote, closed, RequestInTransit, ConnectionState,
  Handler, client_may_send_headers,
}
use servente.Http2.Streams.Receive.{
  handle_request_invoke_to_background, data_on, handle_frame_data, reset_on,
  handle_frame_rst_stream, window_update_on, handle_frame_window_update, handle_trailers,
  handle_new_request, headers_on, handle_frame_headers, handle_frame, read_continuations,
}
use servente.Http2.Streams.Moves.{
  begin, receive_data, take_request, end_request, close, is_unused, is_closed, is_unused-is_closed,
  IsOwnRequest,
}
use servente.Http2.Streams.Follows.{
  IsStable, Knows, Knows-IsBlind, Leads-put_stream, Leads-final, Keeps-send, Keeps-apply_settings,
  Keeps-read_continuations,
}

module _ (P : ConnectionState → Type 0) (h : IsStable P) where
  Leads-invoke :
      (k : ℕ) (from : Option StreamState) (request : RequestInTransit)
      → is_closed from ≡ false
      → Leads (Knows P k from) P P (handle_request_invoke_to_background k request)
  unfolding handle_request_invoke_to_background
  Leads-invoke k from request not_closed =
      Leads-bind _ P P P _ _ (Leads-final P h k from half_closed_remote (end_request not_closed))
        (λ u. Leads-modify P P P _ (λ s p. h.blind.others s _ refl refl p))

  Leads-data_on :
      (end_stream : Bool) (k : ℕ) (payload : Bytes) (found : Option StreamState)
      → Leads (Knows P k found) P P (data_on end_stream k payload found)
  unfolding data_on is_closed
  Leads-data_on end_stream k payload (some (open_state (some request))) =
      let K : ConnectionState → Type 0 = Knows P k (some (open_state (some request))) in
      Leads-bind K K P P _ _ (Leads-raise_if K P _ _ (λ s p. p.0)) (λ u.
        Leads-bind K K P P _ _ (Leads-raise_if K P _ _ (λ s p. p.0)) (λ u.
          Leads-if K P P end_stream _ _ (Leads-invoke k _ _ refl)
            (Leads-final P h k _ _ (receive_data request payload))))
  Leads-data_on end_stream k payload (some (open_state none)) = Leads-raise _ P P _ (λ s p. p.0)
  Leads-data_on end_stream k payload none = Leads-raise _ P P _ (λ s p. p.0)
  Leads-data_on end_stream k payload (some idle) = Leads-raise _ P P _ (λ s p. p.0)
  Leads-data_on end_stream k payload (some half_closed_remote) = Leads-raise _ P P _ (λ s p. p.0)
  Leads-data_on end_stream k payload (some closed) = Leads-raise _ P P _ (λ s p. p.0)

  Keeps-handle_frame_data :
      (end_stream : Bool) (k : ℕ) (payload : Bytes)
      → Keeps P (handle_frame_data end_stream k payload)
  unfolding handle_frame_data
  Keeps-handle_frame_data end_stream k payload =
      Leads-bind P P P P _ _ (Leads-raise_if P P _ _ (λ s p. p)) (λ u.
        Leads-with_state P P P (λ s. map_get k s.streams) (data_on end_stream k payload)
          (Leads-data_on end_stream k payload))

  Leads-reset_on :
      (k : ℕ) (found : Option StreamState) → Leads (Knows P k found) P P (reset_on k found)
  unfolding reset_on
  Leads-reset_on k none = Leads-raise _ P P _ (λ s p. p.0)
  Leads-reset_on k (some idle) = Leads-raise _ P P _ (λ s p. p.0)
  Leads-reset_on k (some (open_state request)) = Leads-final P h k _ _ close
  Leads-reset_on k (some half_closed_remote) = Leads-final P h k _ _ close
  Leads-reset_on k (some closed) = Leads-final P h k _ _ close

  Keeps-handle_frame_rst_stream : (k : ℕ) → Keeps P (handle_frame_rst_stream k)
  unfolding handle_frame_rst_stream
  Keeps-handle_frame_rst_stream k =
      Leads-bind P P P P _ _ (Leads-raise_if P P _ _ (λ s p. p))
        (λ u. Leads-with_state P P P (λ s. map_get k s.streams) (reset_on k) (Leads-reset_on k))

  Keeps-window_update_on :
      (k : ℕ) (found : Option StreamState) → Leads (Knows P k found) P P (window_update_on found)
  unfolding window_update_on
  Keeps-window_update_on k none = Leads-raise _ P P _ (λ s p. p.0)
  Keeps-window_update_on k (some state) =
      Leads-weaken _ (Leads-raise_if P P _ _ (λ s p. p)) (λ s p. p.0) (λ s p. p)

  Keeps-handle_frame_window_update : (k n : ℕ) → Keeps P (handle_frame_window_update k n)
  unfolding handle_frame_window_update
  Keeps-handle_frame_window_update k n =
      Leads-if P P P (n == 0) _ _
        (Leads-if P P P (k == 0) _ _ (Leads-raise P P P _ (λ s p. p))
          (Leads-raise P P P _ (λ s p. p)))
        (Leads-with_state P P P (λ s. map_get k s.streams) window_update_on
          (Keeps-window_update_on k))

  module _ (from_utf8_lossy : Bytes → Bytes) (now : ℕ) where
    Leads-read_continuations :
        (k : ℕ) (from : Option StreamState)
        → Leads (Knows P k from) (Knows P k from) P (read_continuations from_utf8_lossy now)
    Leads-read_continuations k from =
        Leads-weaken _
          (Keeps-read_continuations _ (Knows-IsBlind P k from h.blind) from_utf8_lossy now)
          (λ s p. p) (λ s p. p.0)

    Leads-handle_trailers :
        (end_stream : Bool) (k : ℕ) (payload : Bytes) (request : RequestInTransit)
        → Leads
            (Knows P k (some (open_state (some request))))
            P
            P
            (handle_trailers from_utf8_lossy now end_stream k payload request)
    unfolding handle_trailers is_closed
    Leads-handle_trailers end_stream k payload request =
        let K : StreamState → ConnectionState → Type 0 = λ state. Knows P k (some state) in
        let Taken : ConnectionState → Type 0 = K (open_state none) in
        let Half : ConnectionState → Type 0 = K half_closed_remote in
        Leads-bind _ Taken P P _ _ (Leads-put_stream P h k _ _ (take_request request)) (λ u.
          Leads-bind Taken Taken P P _ _ (Leads-raise_if Taken P _ _ (λ s p. p.0)) (λ u.
            Leads-bind Taken Taken P P _ _ (Leads-raise_if Taken P _ _ (λ s p. p.0)) (λ u.
              Leads-bind Taken Half P P _ _ (Leads-put_stream P h k _ _ (end_request refl)) (λ u.
                Leads-bind Half Half P P _ _ (Leads-read_continuations k _) (λ payloads.
                  Leads-if Half P P end_stream _ _ (Leads-invoke k _ _ refl)
                    (Leads-return Half P P _ (λ s p. p.0)))))))

    Leads-handle_new_request :
        (end_stream : Bool) (k : ℕ) (payload : Bytes) (found : Option StreamState)
        → is_unused found ≡ true
        → Leads (Knows P k found) P P (handle_new_request from_utf8_lossy now end_stream k payload)
    unfolding handle_new_request IsOwnRequest
    Leads-handle_new_request end_stream k payload found unused =
        let K : ConnectionState → Type 0 = Knows P k found in
        Leads-bind K K P P _ _
          (Leads-with_state K K P (λ s. s.connection.highest_stream_id) (λ n. raise_if (ltb k n) _)
            (λ n. Leads-weaken _ (Leads-raise_if K P _ _ (λ s p. p.0)) (λ s p. p.0) (λ s p. p)))
          (λ u. Leads-bind K K P P _ _ (Leads-read_continuations k _) (λ payloads.
            Leads-if K P P end_stream _ _ (Leads-invoke k _ _ (is_unused-is_closed found unused))
              (Leads-final P h k _ _ (begin _ unused (refl, refl)))))

    -- Behind the test of the state, which ends the handler where the state does not permit HEADERS.
    Leads-permitted :
        (end_stream : Bool) (k : ℕ) (payload : Bytes) (found : Option StreamState) (e : Failure)
        → is_unused found ≡ true
        → Leads
            (Knows P k found)
            P
            P
            (raise_if false e >>= λ u. handle_new_request from_utf8_lossy now end_stream k payload)
    Leads-permitted end_stream k payload found e unused =
        let K : ConnectionState → Type 0 = Knows P k found in
        Leads-bind K K P P _ _ (Leads-raise_if K P _ _ (λ s p. p.0))
          (λ u. Leads-handle_new_request end_stream k payload found unused)

    Leads-forbidden :
        {A : Type 0} (k : ℕ) (found : Option StreamState) (e : Failure) (next : Handler A)
        → Leads (Knows P k found) P P (raise_if true e >>= λ u. next)
    unfolding raise_if ◌>>=◌
    Leads-forbidden k found e next = record { leads = λ s p. p.0 }

    Leads-headers_on :
        (end_stream : Bool) (k : ℕ) (payload : Bytes) (found : Option StreamState)
        → Leads (Knows P k found) P P (headers_on from_utf8_lossy now end_stream k payload found)
    unfolding headers_on client_may_send_headers is_unused
    Leads-headers_on end_stream k payload none =
        Leads-handle_new_request end_stream k payload _ refl
    Leads-headers_on end_stream k payload (some (open_state (some request))) =
        Leads-handle_trailers end_stream k payload request
    Leads-headers_on end_stream k payload (some idle) =
        Leads-permitted end_stream k payload (some idle) _ refl
    Leads-headers_on end_stream k payload (some (open_state none)) =
        Leads-permitted end_stream k payload (some (open_state none)) _ refl
    Leads-headers_on end_stream k payload (some half_closed_remote) = Leads-forbidden k _ _ _
    Leads-headers_on end_stream k payload (some closed) = Leads-forbidden k _ _ _

    Keeps-handle_frame_headers :
        (end_stream : Bool) (k : ℕ) (payload : Bytes)
        → Keeps P (handle_frame_headers from_utf8_lossy now end_stream k payload)
    unfolding handle_frame_headers
    Keeps-handle_frame_headers end_stream k payload =
        Leads-bind P P P P _ _ (Leads-raise_if P P _ _ (λ s p. p)) (λ u.
          Leads-with_state P P P (λ s. map_get k s.streams)
            (headers_on from_utf8_lossy now end_stream k payload)
            (Leads-headers_on end_stream k payload))

    pub Keeps-handle_frame : (frame : Frame) → Keeps P (handle_frame from_utf8_lossy now frame)
    unfolding handle_frame
    Keeps-handle_frame (Frame.data_frame end_stream stream_id payload) =
        Keeps-handle_frame_data end_stream stream_id payload
    Keeps-handle_frame (Frame.headers end_headers end_stream stream_id payload) =
        Keeps-handle_frame_headers end_stream stream_id payload
    Keeps-handle_frame (go_away last_stream_id error_code additional_debug_data) =
        Leads-raise P P P _ (λ s p. p)
    Keeps-handle_frame (reset_stream stream_id error_code) = Keeps-handle_frame_rst_stream stream_id
    Keeps-handle_frame (ping true payload) =
        Leads-modify P P P _ (λ s p. h.blind.others s _ refl refl p)
    Keeps-handle_frame (ping false payload) = Keeps-send P h.blind (ping true payload)
    Keeps-handle_frame (Frame.settings values) =
        Leads-bind P P P P _ _ (Keeps-apply_settings P h.blind values)
          (λ u. Keeps-send P h.blind settings_acknowledgement)
    Keeps-handle_frame (window_update stream_id window_size_increment) =
        Keeps-handle_frame_window_update stream_id window_size_increment
    Keeps-handle_frame settings_acknowledgement = Leads-return P P P _ (λ s p. p)
    Keeps-handle_frame (continuation end_headers stream_id payload) =
        Leads-return P P P _ (λ s p. p)
    Keeps-handle_frame unknown = Leads-return P P P _ (λ s p. p)
