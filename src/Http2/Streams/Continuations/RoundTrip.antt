-- ===== src/Http2/Streams/Continuations/RoundTrip.antt =====
-- A header block in CONTINUATION frames, as the loop in `handle_frame` of servente-http2/src/lib.rs reads it.

use servente.Common.{
  flatten, map, ℕ, ◌==◌, zero, suc, ◌+◌, ◌^◌, ◌≤◌, ◌<◌, ◌≡◌, refl, ap, sym, ◌∙◌, arith, Bool, true,
  false, ltb, Option, none, some, List, [], ◌∷◌, ◌++◌, Bytes, length, All, if◌then◌else◌,
  append_assoc,
}
use servente.Common.Exec.{◌>>=◌, >>=-ok, with_state, return}
use servente.Common.Result.{Result, ok}
use servente.Http2.Frame.{Frame, continuation, flags, frame_type, stream, into_payload, send_frame}
use servente.Http2.Frame.Read.{Failure, Connection, read_frame, read_body, read_payload}
use servente.Http2.Frame.Read.RoundTrip.{read_frame-send_frame_header}
use servente.Http2.Streams.{ConnectionState, Handler, receive}
use servente.Http2.Streams.Continuations.{read_continuations_loop-read_continuations}
use servente.Http2.Streams.Receive.{
  continuation_payload, read_continuation, read_continuations_loop, read_continuations,
}

-- The CONTINUATION frames of a header block, of which the last one alone ends it.
abbrev pub continuation_frames : ℕ → Bytes → List Bytes → List Frame
continuation_frames stream_id payload [] = continuation true stream_id payload ∷ []
continuation_frames stream_id payload (next ∷ payloads) =
    continuation false stream_id payload ∷ continuation_frames stream_id next payloads

-- A connection behind such a frame.
abbrev pub continued_by : Connection → Bool → ℕ → Connection
continued_by c end_headers stream_id = record c {
  continuation_stream = if end_headers then none else some stream_id;
  last_stream_id = stream_id;
  highest_stream_id = if ltb c.highest_stream_id stream_id then stream_id else c.highest_stream_id;
}

read_body-continuation :
    (from_utf8_lossy : Bytes → Bytes) (c : Connection) (end_headers : Bool) (stream_id : ℕ)
    (payload : Bytes)
    → c.continuation_stream ≡ some stream_id
    → read_body from_utf8_lossy c 0x09
        (flags (continuation end_headers stream_id payload))
        stream_id
        payload
      ≡ (ok (continuation end_headers stream_id payload), continued_by c end_headers stream_id)
unfolding read_body read_payload flags
read_body-continuation from_utf8_lossy c true stream_id payload h =
    let same : (stream_id == stream_id) ≡ true = ground arith in simp (h, same) refl
read_body-continuation from_utf8_lossy c false stream_id payload h =
    let same : (stream_id == stream_id) ≡ true = ground arith in simp (h, same) refl

read_frame-continuation :
    (from_utf8_lossy : Bytes → Bytes) (c : Connection) (end_headers : Bool) (stream_id : ℕ)
    (payload more : Bytes)
    → c.continuation_stream ≡ some stream_id
    → stream_id < 2 ^ 31
    → length payload ≤ c.maximum_payload_size
    → length payload < 2 ^ 24
    → read_frame from_utf8_lossy c (send_frame (continuation end_headers stream_id payload) ++ more)
      ≡ (
        ok (continuation end_headers stream_id payload),
        continued_by c end_headers stream_id,
        more,
      )
unfolding send_frame frame_type stream into_payload
read_frame-continuation from_utf8_lossy c end_headers stream_id payload more h hs hm hl =
    let whole =
      read_frame-send_frame_header from_utf8_lossy c 0x09
        (flags (continuation end_headers stream_id payload)) stream_id payload more hs hm hl in
    whole
    ∙ ap (λ (r : Result Failure Frame × Connection). (r.0, r.1, more))
        (read_body-continuation from_utf8_lossy c end_headers stream_id payload h)

-- A payload that the connection takes and whose length is written in full.
abbrev pub Fits : Connection → Bytes → Type 0
Fits c payload = (length payload ≤ c.maximum_payload_size) × (length payload < 2 ^ 24)

highest_again :
    (highest id : ℕ)
    → (let m = if ltb highest id then id else highest in if ltb m id then id else m)
      ≡ (if ltb highest id then id else highest)
highest_again highest id = ground arith

continued_by_again :
    (c : Connection) (stream_id : ℕ)
    → continued_by (continued_by c false stream_id) true stream_id ≡ continued_by c true stream_id
continued_by_again c stream_id =
    ap (λ (highest : ℕ). record (continued_by c true stream_id) { highest_stream_id = highest })
      (highest_again c.highest_stream_id stream_id)

module _ (from_utf8_lossy : Bytes → Bytes) (now : ℕ) where
  -- One round, in front of what the later ones give.
  read_continuation-round :
      (later : Handler (List Bytes)) (end_headers : Bool) (payload rest : Bytes)
      (payloads : List Bytes) (stream_id : ℕ) (s s' : ConnectionState)
      → s.connection.continuation_stream ≡ some stream_id
      → stream_id < 2 ^ 31
      → Fits s.connection payload
      → s.input ≡ send_frame (continuation end_headers stream_id payload) ++ rest
      → later
          (record s { connection = continued_by s.connection end_headers stream_id; input = rest })
        ≡ (ok payloads, s')
      → read_continuation from_utf8_lossy now later (some stream_id) s
        ≡ (ok (payload ∷ payloads), s')
  unfolding read_continuation receive return continuation_payload
  read_continuation-round later end_headers payload rest payloads stream_id s s' h hs fits e
        goes_on =
      let frame = continuation end_headers stream_id payload in
      let read =
        ap (read_frame from_utf8_lossy s.connection) e
        ∙ read_frame-continuation from_utf8_lossy s.connection end_headers stream_id payload rest h
            hs fits.0 fits.1 in
      let received =
        ap
          (λ (r : Result Failure Frame × Connection × Bytes).
            (r.0, record s { connection = r.1; input = r.2 }))
          read in
      >>=-ok (receive from_utf8_lossy) (λ f. later >>= λ p. return (continuation_payload f ++ p))
        received
      ∙ >>=-ok later (λ p. return (continuation_payload frame ++ p)) goes_on

  -- The loop, with more rounds than there are frames.
  read_continuations_loop-continuation_frames :
      (fuel : ℕ) (payload more : Bytes) (payloads : List Bytes) (stream_id : ℕ)
      (s : ConnectionState)
      → s.connection.continuation_stream ≡ some stream_id
      → stream_id < 2 ^ 31
      → All (Fits s.connection) (payload ∷ payloads)
      → s.input ≡ flatten (map send_frame (continuation_frames stream_id payload payloads)) ++ more
      → length payloads + 1 < fuel
      → read_continuations_loop from_utf8_lossy now fuel s ≡ (
        ok (payload ∷ payloads),
        record s { connection = continued_by s.connection true stream_id; input = more },
      )
  unfolding read_continuations_loop read_continuation with_state return
  read_continuations_loop-continuation_frames zero payload more payloads stream_id s h hs fits e f =
      absurd (omega arith)
  read_continuations_loop-continuation_frames (suc zero) payload more payloads stream_id s h hs fits
        e f =
      absurd (omega arith)
  read_continuations_loop-continuation_frames (suc (suc fuel)) payload more [] stream_id s h hs fits
        e f =
      let later = read_continuations_loop from_utf8_lossy now (suc fuel) in
      let octets = send_frame (continuation true stream_id payload) in
      ap (λ (o : Option ℕ). read_continuation from_utf8_lossy now later o s) h
      ∙ read_continuation-round later true payload more [] stream_id s _ h hs fits.0
          (e ∙ append_assoc octets [] more) refl
  read_continuations_loop-continuation_frames (suc (suc fuel)) payload more (next ∷ payloads)
        stream_id s h hs fits e f =
      let later = read_continuations_loop from_utf8_lossy now (suc fuel) in
      let octets = send_frame (continuation false stream_id payload) in
      let others = flatten (map send_frame (continuation_frames stream_id next payloads)) in
      let s' : ConnectionState = record s {
        connection = continued_by s.connection false stream_id;
        input = others ++ more;
      } in
      ap (λ (o : Option ℕ). read_continuation from_utf8_lossy now later o s) h
      ∙ read_continuation-round later false payload (others ++ more) (next ∷ payloads) stream_id s _
          h hs fits.0 (e ∙ append_assoc octets others more)
          (read_continuations_loop-continuation_frames (suc fuel) next more payloads stream_id s'
              refl hs fits.1 refl (omega arith)
            ∙ ap
                (λ (c : Connection).
                  (ok (next ∷ payloads), record s { connection = c; input = more }))
                (continued_by_again s.connection stream_id))

  -- The payloads of CONTINUATION frames that a client sends on the stream that they are due on, of which the last alone
  -- has END_HEADERS, are read in their order; the octets behind them are left, and no CONTINUATION is due any more. The
  -- stream ID has 31 bits, and each payload is of at most the maximum size and of fewer than 2 ^ 24 octets.
  pub read_continuations-continuation_frames :
      (payload more : Bytes) (payloads : List Bytes) (stream_id : ℕ) (s : ConnectionState)
      → s.connection.continuation_stream ≡ some stream_id
      → stream_id < 2 ^ 31
      → All (Fits s.connection) (payload ∷ payloads)
      → s.input ≡ flatten (map send_frame (continuation_frames stream_id payload payloads)) ++ more
      → read_continuations from_utf8_lossy now s ≡ (
        ok (payload ∷ payloads),
        record s { connection = continued_by s.connection true stream_id; input = more },
      )
  read_continuations-continuation_frames payload more payloads stream_id s h hs fits e =
      let fuel = length s.input + length payloads + 2 in
      sym (read_continuations_loop-read_continuations from_utf8_lossy now fuel s (omega arith))
      ∙ read_continuations_loop-continuation_frames fuel payload more payloads stream_id s h hs fits
          e (omega arith)
