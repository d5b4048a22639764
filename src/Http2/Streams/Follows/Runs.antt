-- ===== src/Http2/Streams/Follows/Runs.antt =====
-- The loops of `handle_client` of servente-http2/src/lib.rs, for whatever comes first in each round.
use servente.Common.{ℕ, refl, Option, List, [], ◌∷◌, Bytes}
use servente.Common.Exec.{
  Ends, ◌>>=◌, modify, Keeps, Leads-bind, Leads-raise, Leads-modify, Leads-with_state, Leads-weaken,
  Leads-if,
}
use servente.Common.Result.{Result, ok, err}
use servente.Http2.Errors.{DecompressionError}
use servente.Http2.Frame.Read.{
  io, connection_error, stream_error, Failure, ConnectionError, error, panic,
}
use servente.Http2.Streams.{closed, ConnectionState, put_stream, send}
use servente.Http2.Streams.Client.{
  timer_elapsed, timer_round, Phase, running, ended, Event, timer, frame_at, received,
  handle_failure, give_up, outcome, handle_event, handle_events, while_running,
}
use servente.Http2.Streams.Moves.{close}
use servente.Http2.Streams.Follows.{IsStable, Keeps-send, Keeps-receive}
use servente.Http2.Streams.Follows.Frames.{Keeps-handle_frame}
use servente.Http2.Streams.Follows.Responses.{Keeps-handle_client_inner_join}

pub record IsClockBlind (P : ConnectionState → Type 0) : Type 0 where
  pub counted : (s : ConnectionState) (n : ℕ) → P s → P (record s { pings_queued_up = n })

-- What an error makes of the state.
pub handle_failure-keeps :
    (P : ConnectionState → Type 0)
    → IsStable P
    → (e : Failure) (s : ConnectionState) → P s
    → P (let (phase, s') = handle_failure e s in s')
unfolding handle_failure give_up send put_stream ◌>>=◌ modify
handle_failure-keeps P h panic s p = p
handle_failure-keeps P h (error ConnectionError.closed) s p = p
handle_failure-keeps P h (error io) s p = p
handle_failure-keeps P h (error (connection_error code text)) s p = h.blind.others s _ refl refl p
handle_failure-keeps P h (error (stream_error code stream_id)) s p =
    h.moved _ stream_id closed close (h.blind.others s _ refl refl p)

pub outcome-keeps :
    {A : Type 0} (P : ConnectionState → Type 0)
    → IsStable P
    → (r : Result Failure A × ConnectionState) → Ends P P r
    → P (let (phase, s') = outcome r in s')
unfolding outcome
outcome-keeps P h (ok a, s) p = p
outcome-keeps P h (err e, s) p = handle_failure-keeps P h e s p

module _ (from_utf8_lossy : Bytes → Bytes) (debug_text : ℕ → DecompressionError → Bytes)
    (http_date : ℕ → Bytes) (file_reads : ℕ → ℕ → List (Option Bytes)) where
  abbrev run : List Event → ConnectionState → Phase × ConnectionState
  run = handle_events from_utf8_lossy debug_text http_date file_reads

  module _ (P : ConnectionState → Type 0) (h : IsStable P) where
    pub Keeps-frame_at :
        (now : ℕ)
        → Keeps P (handle_event from_utf8_lossy debug_text http_date file_reads (frame_at now))
    unfolding handle_event
    Keeps-frame_at now =
        Leads-bind P P P P _ _ (Keeps-receive P h.blind from_utf8_lossy now)
          (Keeps-handle_frame P h from_utf8_lossy now)

    Keeps-timer_elapsed : IsClockBlind P → Keeps P timer_elapsed
    unfolding timer_elapsed timer_round
    Keeps-timer_elapsed clock =
        Leads-with_state P P P (λ s. s.pings_queued_up) timer_round
          (λ n.
            Leads-weaken _
              (Leads-if P P P _ _ _
                (Leads-bind P P P P _ _ (Keeps-send P h.blind _)
                  (λ u. Leads-raise P P P _ (λ s p. p)))
                (Leads-bind P P P P _ _ (Keeps-send P h.blind _)
                  (λ u. Leads-modify P P P _ (λ s p. clock.counted s _ p))))
              (λ s p. p.0) (λ s p. p))

    Keeps-handle_event :
        IsClockBlind P
        → (event : Event)
        → Keeps P (handle_event from_utf8_lossy debug_text http_date file_reads event)
    unfolding handle_event
    Keeps-handle_event clock timer = Keeps-timer_elapsed clock
    Keeps-handle_event clock (frame_at now) = Keeps-frame_at now
    Keeps-handle_event clock (received stream_id is_joined result) =
        Keeps-handle_client_inner_join P h http_date file_reads from_utf8_lossy debug_text stream_id
          is_joined result

    pub handle_events-keeps :
        IsClockBlind P
        → (events : List Event) (s : ConnectionState) → P s
        → P (let (phase, s') = run events s in s')
    unfolding handle_events
    handle_events-keeps clock [] s p = p
    handle_events-keeps clock (event ∷ events) s p =
        onwards (handle_events-keeps clock events) _
          (outcome-keeps P h _ ((Keeps-handle_event clock event).leads s p))
      where
        onwards :
            ((t : ConnectionState) → P t → P (let (phase, t') = run events t in t'))
            → (r : Phase × ConnectionState) → P (let (phase, s') = r in s')
            → P (let (phase, s') = while_running (run events) r in s')
        onwards later (running, s') q = later s' q
        onwards later (ended, s') q = q
