-- ===== src/Http2/Streams/Timer.antt =====
-- The timer of `handle_client_inner` of servente-http2/src/lib.rs.
use servente.Common.{
  ℕ, suc, ◌+◌, ◌<◌, ltb, ltb→lt, ◌≡◌, refl, ◌∙◌, inl, inr, arith, true, false, Bool-cases, Option,
  List, [], ◌∷◌, Bytes,
}
use servente.Common.Exec.{Ends, ◌>>=◌, raise, modify, with_state}
use servente.Common.Result.{Result, ok, err}
use servente.Http2.Errors.{DecompressionError}
use servente.Http2.Frame.Read.{
  Failure, ConnectionError, error, panic, io, connection_error, stream_error,
}
use servente.Http2.Streams.{ConnectionState, new, send}
use servente.Http2.Streams.Client.{
  Phase, running, ended, Event, timer, frame_at, received, handle_event, handle_events,
  timer_elapsed, timer_round, while_running, outcome, handle_client, enter, preface_failure,
  give_up, handle_failure,
}
use servente.Http2.Streams.Follows.{IsStable}
use servente.Http2.Streams.Follows.Preface.{Keeps-complete_preface}
use servente.Http2.Streams.Follows.Runs.{Keeps-frame_at, outcome-keeps}
use servente.Http2.Streams.Follows.Responses.{Keeps-handle_client_inner_join}

abbrev pub count_timers : List Event → ℕ
count_timers [] = 0
count_timers (timer ∷ events) = suc (count_timers events)
count_timers (frame_at now ∷ events) = count_timers events
count_timers (received stream_id is_joined result ∷ events) = count_timers events

HasPings : ℕ → ConnectionState → Type 0
HasPings n s = s.pings_queued_up ≡ n

HasPings-IsStable : (n : ℕ) → IsStable (HasPings n)
unfolding HasPings
HasPings-IsStable n = record {
  blind = record { others = λ s s' e e' p. e' ∙ p };
  moved = λ s k to move p. p;
}

-- A timer that runs out behind three queued pings ends the loop, and an earlier one adds a ping.
timer_elapsed-late :
    (s : ConnectionState)
    → 2 < s.pings_queued_up
    → (let (phase, s') = outcome (timer_elapsed s) in phase) ≡ ended
unfolding timer_elapsed timer_round with_state outcome handle_failure ◌>>=◌ send modify raise
timer_elapsed-late s late = let test : ltb 2 s.pings_queued_up ≡ true = ground arith in rw test refl

timer_elapsed-early :
    (s : ConnectionState)
    → ltb 2 s.pings_queued_up ≡ false
    → (let (phase, s') = outcome (timer_elapsed s) in
        (phase ≡ running) × (s'.pings_queued_up ≡ s.pings_queued_up + 1))
unfolding timer_elapsed timer_round with_state outcome ◌>>=◌ send modify
timer_elapsed-early s early = rw early (refl, refl)

preface_failure-ended :
    (e : Failure) (s : ConnectionState) → (let (phase, s') = preface_failure e s in phase) ≡ ended
unfolding preface_failure give_up
preface_failure-ended panic s = refl
preface_failure-ended (error ConnectionError.closed) s = refl
preface_failure-ended (error io) s = refl
preface_failure-ended (error (connection_error code text)) s = refl
preface_failure-ended (error (stream_error code stream_id)) s = refl

module _ (from_utf8_lossy : Bytes → Bytes) (debug_text : ℕ → DecompressionError → Bytes)
    (http_date : ℕ → Bytes) (file_reads : ℕ → ℕ → List (Option Bytes)) where
  abbrev run : List Event → ConnectionState → Phase × ConnectionState
  run = handle_events from_utf8_lossy debug_text http_date file_reads

  onwards :
      (rounds : List Event) (n : ℕ)
      → ((t : ConnectionState)
          → t.pings_queued_up ≡ n
          → (let (phase, t') = run rounds t in phase) ≡ ended)
      → (r : Phase × ConnectionState) → (let (phase, s') = r in s'.pings_queued_up ≡ n)
      → (let (phase, s') = while_running (run rounds) r in phase) ≡ ended
  onwards rounds n later (running, s') q = later s' q
  onwards rounds n later (ended, s') q = refl

  stopped :
      (rounds : List Event) (r : Phase × ConnectionState)
      → (let (phase, s') = r in phase ≡ ended)
      → (let (phase, s') = while_running (run rounds) r in phase) ≡ ended
  stopped rounds (running, s') h = cc
  stopped rounds (ended, s') h = refl

  -- With the pings that are queued at the start, more than three rounds of the timer end the loop.
  pub handle_events-timers :
      (events : List Event) (s : ConnectionState)
      → 3 < s.pings_queued_up + count_timers events
      → s.pings_queued_up < 4
      → (let (phase, s') = run events s in phase) ≡ ended
  unfolding handle_events handle_event HasPings
  handle_events-timers [] s h small = absurd (omega arith)
  handle_events-timers (timer ∷ events) s h small = elim (Bool-cases (ltb 2 s.pings_queued_up)) [
    | inl late ↦ stopped events _ (timer_elapsed-late s (ltb→lt 2 s.pings_queued_up late))
    | inr early ↦
        let moved = timer_elapsed-early s early in
        let few : s.pings_queued_up < 3 = ground arith in
        onwards events (s.pings_queued_up + 1)
          (λ t e. handle_events-timers events t (omega arith) (omega arith)) _ moved.1
  ]
  handle_events-timers (frame_at now ∷ events) s h small =
      onwards events s.pings_queued_up
        (λ t e. handle_events-timers events t (omega arith) (omega arith)) _
        (outcome-keeps (HasPings s.pings_queued_up) (HasPings-IsStable _) _ (
          (Keeps-frame_at from_utf8_lossy debug_text http_date file_reads
              (HasPings s.pings_queued_up) (HasPings-IsStable _) now).leads
            s refl))
  handle_events-timers (received stream_id is_joined result ∷ events) s h small =
      onwards events s.pings_queued_up
        (λ t e. handle_events-timers events t (omega arith) (omega arith)) _
        (outcome-keeps (HasPings s.pings_queued_up) (HasPings-IsStable _) _ (
          (Keeps-handle_client_inner_join (HasPings s.pings_queued_up) (HasPings-IsStable _)
              http_date file_reads from_utf8_lossy debug_text stream_id is_joined result).leads
            s refl))

  -- Whatever the client sends, acknowledged pings included, and whatever comes in between, four
  -- rounds of the timer end the connection.
  pub handle_client-timers :
      (events : List Event) (input : Bytes)
      → 3 < count_timers events
      → (let (phase, s) =
            handle_client from_utf8_lossy debug_text http_date file_reads events input in
          phase)
        ≡ ended
  unfolding handle_client new HasPings
  handle_client-timers events input h = entered _ (
      (Keeps-complete_preface (HasPings 0) (IsStable.blind (HasPings-IsStable 0)) (λ s p. p)
          from_utf8_lossy debug_text http_date file_reads).leads
        (new input) refl)
    where
      entered :
          (r : Result Failure (Unit {0}) × ConnectionState)
          → Ends (HasPings 0) (HasPings 0) r
          → (let (phase, s) = enter (run events) r in phase) ≡ ended
      entered (ok u, s) p = handle_events-timers events s (omega (arith, p, h)) (omega (arith, p))
      entered (err e, s) p = preface_failure-ended e s
