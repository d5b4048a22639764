-- ===== src/Http2/Streams/Continuations.antt =====
-- The rounds of the loop over the CONTINUATION frames in `handle_frame` of servente-http2/src/lib.rs.
pub mod RoundTrip
use servente.Common.{
  ℕ, zero, suc, ◌+◌, ◌<◌, ◌≡◌, refl, ap, inl, inr, arith, Bool-cases, ltb, Option, none, some, List,
  ◌++◌, Bytes, length, drop, length-drop,
}
use servente.Common.Exec.{◌>>=◌, continue_with, with_state, return}
use servente.Common.Result.{Result, ok, err}
use servente.Http2.Frame.{Frame}
use servente.Http2.Frame.Read.{Connection, Failure, read_frame, convert_be_u24_to_u32}
use servente.Http2.Streams.{ConnectionState, Handler, receive}
use servente.Http2.Streams.Receive.{
  read_continuation, read_continuations_loop, read_continuations, continuation_payload,
}

-- What a read of a frame that succeeds leaves.
IsShorter : Bytes → Result Failure Frame × Connection × Bytes → Type 0
IsShorter input (ok frame, c, left) = length left < length input
IsShorter input (err e, c, left) = Unit

IsShorter-left :
    (input : Bytes) (r : Result Failure Frame) (c : Connection) (left : Bytes)
    → length left < length input
    → IsShorter input (r, c, left)
unfolding IsShorter
IsShorter-left input (ok frame) c left h = h
IsShorter-left input (err e) c left h = tt

module _ (from_utf8_lossy : Bytes → Bytes) where
  read_frame-IsShorter :
      (c : Connection) (input : Bytes) → IsShorter input (read_frame from_utf8_lossy c input)
  unfolding read_frame IsShorter
  read_frame-IsShorter c input = elim (Bool-cases (ltb (length input) 9)) [
    | inl short ↦ rw short tt
    | inr nine ↦ elim (Bool-cases (ltb c.maximum_payload_size (convert_be_u24_to_u32 input))) [
      | inl large ↦ rw (nine, large) tt
      | inr fits ↦ elim (Bool-cases (ltb (length (drop 9 input)) (convert_be_u24_to_u32 input))) [
        | inl cut ↦ rw (nine, fits, cut) tt
        | inr whole ↦
            let n = convert_be_u24_to_u32 input in
            let size : length (drop n (drop 9 input)) < length input =
              ground (arith, length-drop n (drop 9 input), length-drop 9 input) in
            rw (nine, fits, whole) (IsShorter-left input _ _ (drop n (drop 9 input)) size)
      ]
    ]
  ]

  module _ (now : ℕ) where
    -- Rounds that agree on shorter inputs agree.
    continue_with-agree :
        (later later' : Handler (List Bytes)) (s : ConnectionState)
        → ((t : ConnectionState) → length t.input < length s.input → later t ≡ later' t)
        → (r : Result Failure Frame × Connection × Bytes) → IsShorter s.input r
        → (let (frame, c, input) = r in
            let t : ConnectionState = record s { connection = c; input = input } in
            continue_with (λ f. later >>= λ p. return (continuation_payload f ++ p)) (frame, t)
            ≡ continue_with (λ f. later' >>= λ p. return (continuation_payload f ++ p)) (frame, t))
    unfolding IsShorter ◌>>=◌
    continue_with-agree later later' s agree (ok frame, c, input) h =
        ap (continue_with (λ p. return (continuation_payload frame ++ p))) (agree _ h)
    continue_with-agree later later' s agree (err e, c, input) h = refl

    read_continuation-agree :
        (later later' : Handler (List Bytes)) (expected : Option ℕ) (s : ConnectionState)
        → ((t : ConnectionState) → length t.input < length s.input → later t ≡ later' t)
        → read_continuation from_utf8_lossy now later expected s
          ≡ read_continuation from_utf8_lossy now later' expected s
    unfolding read_continuation receive ◌>>=◌
    read_continuation-agree later later' none s agree = refl
    read_continuation-agree later later' (some stream_id) s agree =
        continue_with-agree later later' s agree (read_frame from_utf8_lossy s.connection s.input)
          (read_frame-IsShorter s.connection s.input)

    -- With more rounds than octets to come, the number of rounds makes no difference.
    read_continuations_loop-enough :
        (fuel fuel' : ℕ) (s : ConnectionState)
        → length s.input < fuel
        → length s.input < fuel'
        → read_continuations_loop from_utf8_lossy now fuel s
          ≡ read_continuations_loop from_utf8_lossy now fuel' s
    unfolding read_continuations_loop with_state
    read_continuations_loop-enough zero fuel' s h h' = absurd (omega arith)
    read_continuations_loop-enough (suc fuel) zero s h h' = absurd (omega arith)
    read_continuations_loop-enough (suc fuel) (suc fuel') s h h' =
        read_continuation-agree _ _ s.connection.continuation_stream s
          (λ t shorter. read_continuations_loop-enough fuel fuel' t (omega arith) (omega arith))

    -- The rounds that the handlers give the loop over the CONTINUATION frames are enough: more make no
    -- difference.
    pub read_continuations_loop-read_continuations :
        (fuel : ℕ) (s : ConnectionState)
        → length s.input < fuel
        → read_continuations_loop from_utf8_lossy now fuel s
          ≡ read_continuations from_utf8_lossy now s
    unfolding read_continuations with_state
    read_continuations_loop-read_continuations fuel s h =
        read_continuations_loop-enough fuel (length s.input + 1) s h (omega arith)
