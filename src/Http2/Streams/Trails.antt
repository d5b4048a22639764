-- ===== src/Http2/Streams/Trails.antt =====
-- The streams over a run of the loops of `handle_client` of servente-http2/src/lib.rs.
use servente.Common.{
  ℕ, ◌==◌, ◌≡◌, refl, sym, ◌∙◌, inl, inr, true, Bool-cases, Option, none, some, List, Bytes, ==_iff,
}
use servente.Common.HashMap.{map_get, map_insert, map_get-map_insert}
use servente.Http2.Errors.{DecompressionError}
use servente.Common.Exec.{Ends, modify}
use servente.Common.Result.{Result, ok, err}
use servente.Http2.Frame.Read.{
  Failure, ConnectionError, error, panic, io, connection_error, stream_error,
}
use servente.Http2.Streams.{StreamState, open_state, ConnectionState, new, send}
use servente.Http2.Streams.Follows.Preface.{Keeps-complete_preface}
use servente.Http2.Streams.Client.{
  Phase, Event, handle_events, handle_client, enter, preface_failure, give_up,
}
use servente.Http2.Streams.Moves.{
  Move, Trail, here, then_move, Trail-keeps, is_closed, Move-is_closed, IsTidy, Move-IsTidy,
}
use servente.Http2.Streams.Follows.{IsBlind, IsStable}
use servente.Http2.Streams.Follows.Runs.{IsClockBlind, handle_events-keeps}

-- Each stream of the second state is at the end of a trail of moves from the first.
unfoldable pub Follows : ConnectionState → ConnectionState → Type 0
Follows s s' = (k : ℕ) → Trail k (map_get k s.streams) (map_get k s'.streams)

-- A move of one stream leaves the others.
Trail-map_insert :
    (from : Option StreamState) (k j : ℕ) (to : StreamState) (m : List (ℕ × StreamState))
    → Move k (map_get k m) (some to)
    → Trail j from (map_get j m)
    → Trail j from (map_get j (map_insert k to m))
Trail-map_insert from k j to m move trail = elim (Bool-cases (k == j)) [
  | inl same ↦
      let e : k ≡ j = (==_iff k j).0 same in
      let found : map_get j (map_insert k to m) ≡ some to =
        map_get-map_insert k j to m ∙ rw same refl in
      rw found (then_move trail (rw (sym e) move))
  | inr other ↦
      let found : map_get j (map_insert k to m) ≡ map_get j m =
        map_get-map_insert k j to m ∙ rw other refl in
      rw found trail
]

Follows-IsStable : (s : ConnectionState) → IsStable (Follows s)
unfolding Follows
Follows-IsStable s = record {
  blind = record { others = λ t t' e e' follows k. rw e (follows k) };
  moved = λ t k to move follows j. Trail-map_insert _ k j to t.streams move (follows j);
}

Follows-IsClockBlind : (s : ConnectionState) → IsClockBlind (Follows s)
unfolding Follows
Follows-IsClockBlind s = record { counted = λ t n follows. follows }

AreTidy : ConnectionState → Type 0
AreTidy s = (k : ℕ) → IsTidy k (map_get k s.streams)

AreTidy-IsBlind : IsBlind AreTidy
unfolding AreTidy
AreTidy-IsBlind = record { others = λ s s' e e' p k. rw e (p k) }

AreTidy-opened :
    (s : ConnectionState)
    → AreTidy s
    → AreTidy (record s { streams = map_insert 0 (open_state none) s.streams })
unfolding AreTidy IsTidy
AreTidy-opened s p k = elim (Bool-cases (0 == k)) [
  | inl same ↦
      let found : map_get k (map_insert 0 (open_state none) s.streams) ≡ some (open_state none) =
        map_get-map_insert 0 k (open_state none) s.streams ∙ rw same refl in
      rw found tt
  | inr other ↦
      let found : map_get k (map_insert 0 (open_state none) s.streams) ≡ map_get k s.streams =
        map_get-map_insert 0 k (open_state none) s.streams ∙ rw other refl in
      rw found (p k)
]

preface_failure-AreTidy :
    (e : Failure) (s : ConnectionState)
    → AreTidy s
    → AreTidy (let (phase, s') = preface_failure e s in s')
unfolding preface_failure give_up send modify AreTidy
preface_failure-AreTidy panic s p = p
preface_failure-AreTidy (error ConnectionError.closed) s p = p
preface_failure-AreTidy (error io) s p = p
preface_failure-AreTidy (error (connection_error code text)) s p = p
preface_failure-AreTidy (error (stream_error code stream_id)) s p = p

module _ (from_utf8_lossy : Bytes → Bytes) (debug_text : ℕ → DecompressionError → Bytes)
    (http_date : ℕ → Bytes) (file_reads : ℕ → ℕ → List (Option Bytes)) where
  abbrev run : List Event → ConnectionState → Phase × ConnectionState
  run = handle_events from_utf8_lossy debug_text http_date file_reads

  -- Whatever comes first in each round, every stream goes through moves of the state machine only.
  pub handle_events-Follows :
      (events : List Event) (s : ConnectionState) → Follows s (let (phase, s') = run events s in s')
  unfolding Follows
  handle_events-Follows events s =
      handle_events-keeps from_utf8_lossy debug_text http_date file_reads (Follows s)
        (Follows-IsStable s) (Follows-IsClockBlind s) events s (λ k. here)

  -- A stream that is closed is closed after every sequence of events.
  pub handle_events-is_closed :
      (events : List Event) (s : ConnectionState) (k : ℕ)
      → is_closed (map_get k s.streams) ≡ true
      → is_closed (map_get k (let (phase, s') = run events s in s'.streams)) ≡ true
  unfolding Follows
  handle_events-is_closed events s k h =
      Trail-keeps (λ o. is_closed o ≡ true) (λ a b move. Move-is_closed move)
        (handle_events-Follows events s k) h

  pub handle_events-IsTidy :
      (events : List Event) (s : ConnectionState) (k : ℕ)
      → IsTidy k (map_get k s.streams)
      → IsTidy k (map_get k (let (phase, s') = run events s in s'.streams))
  unfolding Follows
  handle_events-IsTidy events s k h =
      Trail-keeps (IsTidy k) (λ a b move. Move-IsTidy move) (handle_events-Follows events s k) h

  -- Whatever a client sends and whatever comes first in each round, an open stream's request names
  -- that stream and has no trailers.
  pub handle_client-IsTidy :
      (events : List Event) (input : Bytes) (k : ℕ)
      → IsTidy k (
          map_get k (
            let (phase, s) =
              handle_client from_utf8_lossy debug_text http_date file_reads events input in
            s.streams))
  unfolding handle_client new AreTidy map_get IsTidy
  handle_client-IsTidy events input = entered _ (
      (Keeps-complete_preface AreTidy AreTidy-IsBlind AreTidy-opened from_utf8_lossy debug_text
          http_date file_reads).leads
        (new input) (λ k. tt))
    where
      entered :
          (r : Result Failure (Unit {0}) × ConnectionState)
          → Ends AreTidy AreTidy r
          → AreTidy (let (phase, s) = enter (run events) r in s)
      entered (ok u, s) p = λ k. handle_events-IsTidy events s k (p k)
      entered (err e, s) p = preface_failure-AreTidy e s p
