-- ===== src/Http2/Streams/Follows.antt =====
-- What the handlers of servente-http2/src/lib.rs do to the streams: for a predicate on the state that the
-- moves of a stream keep, each handler keeps it.
pub mod Frames
pub mod Responses
pub mod Preface
pub mod Runs
use servente.Common.{
  ℕ, zero, suc, ◌+◌, ◌==◌, ◌≡◌, refl, sym, ap, ◌∙◌, arith, Bool, true, false, not, Option, none,
  some, List, [], ◌∷◌, ◌++◌, Bytes, length, if◌then◌else◌,
}
use servente.Common.HashMap.{map_get, map_insert, map_get-map_insert}
use servente.Common.Exec.{
  Ends, Leads, Keeps, Leads-bind, Leads-return, Leads-modify, Leads-with_state, Leads-weaken,
}
use servente.Http2.Frame.{Frame, SettingKind}
use servente.Http2.Frame.Read.{Connection, Failure, read_frame}
use servente.Common.Result.{Result, ok, err}
use servente.Http2.Streams.{
  StreamState, RequestInTransit, ConnectionState, Handler, put_stream, send, apply_settings,
  receive,
}
use servente.Http2.Streams.Receive.{
  read_continuation, read_continuations_loop, read_continuations, continuation_payload,
}
use servente.Http2.Streams.Moves.{Move}

-- What does not touch the streams and the count of pings keeps it.
pub record IsBlind (P : ConnectionState → Type 0) : Type 0 where
  pub others :
      (s s' : ConnectionState)
      → s'.streams ≡ s.streams
      → s'.pings_queued_up ≡ s.pings_queued_up
      → P s
      → P s'

-- A move of one stream keeps it, too.
pub record IsStable (P : ConnectionState → Type 0) : Type 0 where
  pub blind : IsBlind P
  pub moved :
      (s : ConnectionState) (k : ℕ) (to : StreamState)
      → Move k (map_get k s.streams) (some to)
      → P s
      → P (record s { streams = map_insert k to s.streams })

-- The predicate with what is known of one stream.
abbrev pub Knows : (ConnectionState → Type 0) → ℕ → Option StreamState → ConnectionState → Type 0
Knows P k from s = P s × (map_get k s.streams ≡ from)

pub Knows-IsBlind :
    (P : ConnectionState → Type 0) (k : ℕ) (from : Option StreamState)
    → IsBlind P
    → IsBlind (Knows P k from)
Knows-IsBlind P k from h = record {
  others = λ s s' e e' p. (h.others s s' e e' p.0, ap (map_get k) e ∙ p.1);
}

map_get-here :
    (k : ℕ) (to : StreamState) (m : List (ℕ × StreamState))
    → map_get k (map_insert k to m) ≡ some to
map_get-here k to m =
    let same : (k == k) ≡ true = ground arith in map_get-map_insert k k to m ∙ rw same refl

pub Leads-put_stream :
    (P : ConnectionState → Type 0) (h : IsStable P) (k : ℕ) (from : Option StreamState)
    (to : StreamState)
    → Move k from (some to)
    → Leads (Knows P k from) (Knows P k (some to)) P (put_stream k to)
unfolding put_stream
Leads-put_stream P h k from to move =
    Leads-modify (Knows P k from) (Knows P k (some to)) P
      (λ s. record s { streams = map_insert k to s.streams })
      (λ s p. (h.moved s k to (rw p.1 move) p.0, map_get-here k to s.streams))

-- The same where nothing more is known of the stream.
pub Leads-final :
    (P : ConnectionState → Type 0) (h : IsStable P) (k : ℕ) (from : Option StreamState)
    (to : StreamState)
    → Move k from (some to)
    → Leads (Knows P k from) P P (put_stream k to)
unfolding put_stream
Leads-final P h k from to move =
    Leads-modify (Knows P k from) P P _ (λ s p. h.moved s k to (rw p.1 move) p.0)

module _ (P : ConnectionState → Type 0) (h : IsBlind P) where
  pub Keeps-send : (frame : Frame) → Keeps P (send frame)
  unfolding send
  Keeps-send frame = Leads-modify P P P _ (λ s p. h.others s _ refl refl p)

  pub Keeps-apply_settings : (values : List (SettingKind × ℕ)) → Keeps P (apply_settings values)
  unfolding apply_settings
  Keeps-apply_settings values = Leads-modify P P P _ (λ s p. h.others s _ refl refl p)

  module _ (from_utf8_lossy : Bytes → Bytes) (now : ℕ) where
    pub Keeps-receive : Keeps P (receive from_utf8_lossy)
    unfolding receive
    Keeps-receive = record {
      leads = λ s p. ends s p (read_frame from_utf8_lossy s.connection s.input);
    }
      where
        ends :
            (s : ConnectionState)
            → P s
            → (r : Result Failure Frame × Connection × Bytes)
            → Ends P P
                (let (frame, c, input) = r in (frame, record s { connection = c; input = input }))
        ends s p (ok frame, c, input) = h.others s _ refl refl p
        ends s p (err e, c, input) = h.others s _ refl refl p

    Keeps-read_continuation :
        (later : Handler (List Bytes)) (expected : Option ℕ)
        → Keeps P later
        → Keeps P (read_continuation from_utf8_lossy now later expected)
    unfolding read_continuation
    Keeps-read_continuation later none hl = Leads-return P P P [] (λ s p. p)
    Keeps-read_continuation later (some stream_id) hl =
        Leads-bind P P P P _ _ Keeps-receive
          (λ frame. Leads-bind P P P P _ _ hl (λ payloads. Leads-return P P P _ (λ s p. p)))

    Keeps-read_continuations_loop :
        (fuel : ℕ) → Keeps P (read_continuations_loop from_utf8_lossy now fuel)
    unfolding read_continuations_loop
    Keeps-read_continuations_loop zero = Leads-return P P P [] (λ s p. p)
    Keeps-read_continuations_loop (suc fuel) =
        Leads-with_state P P P (λ s. s.connection.continuation_stream)
          (read_continuation from_utf8_lossy now (read_continuations_loop from_utf8_lossy now fuel))
          (λ v.
            Leads-weaken _ (Keeps-read_continuation _ v (Keeps-read_continuations_loop fuel))
              (λ s p. p.0) (λ s p. p))

    pub Keeps-read_continuations : Keeps P (read_continuations from_utf8_lossy now)
    unfolding read_continuations
    Keeps-read_continuations =
        Leads-with_state P P P (λ s. length s.input)
          (λ n. read_continuations_loop from_utf8_lossy now (n + 1))
          (λ n. Leads-weaken _ (Keeps-read_continuations_loop (n + 1)) (λ s p. p.0) (λ s p. p))
