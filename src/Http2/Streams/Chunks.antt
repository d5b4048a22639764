-- ===== src/Http2/Streams/Chunks.antt =====
-- The DATA frames of a body, `send_data_frame_from_slice` of servente-http2/src/lib.rs.
use servente.Common.{
  ℕ, zero, suc, ◌+◌, ◌==◌, ◌≤◌, ◌<◌, ◌≡◌, refl, sym, ap, ◌∙◌, arith, Bool, true, false, List, [],
  ◌∷◌, ◌++◌, append-nil, append_assoc, Bytes, length, take, drop, take-append-drop, length-append,
  flatten, map, All,
}
use servente.Common.Exec.{◌>>=◌, return, raise_if, modify, with_state}
use servente.Common.Result.{ok}
use servente.Http2.Frame.{Frame, data_frame, send_frame}
use servente.Http2.Streams.{ConnectionState, send}
use servente.Http2.Streams.Send.{
  chunks_loop, chunks, send_chunks, send_slice, send_data_frame_from_slice,
}

-- The frames of the parts of a body: END_STREAM on the last only.
pub data_frames : ℕ → List Bytes → List Frame
data_frames stream_id [] = []
data_frames stream_id (part ∷ []) = data_frame true stream_id part ∷ []
data_frames stream_id (part ∷ next ∷ more) =
    data_frame false stream_id part ∷ data_frames stream_id (next ∷ more)

-- A part that has an octet and that a frame has the room for.
abbrev pub IsPart : ℕ → Bytes → Type 0
IsPart size part = (0 < length part) × (length part ≤ size)

length-take_le : (n : ℕ) (xs : Bytes) → length (take n xs) ≤ n
length-take_le zero xs = omega arith
length-take_le (suc n) [] = omega arith
length-take_le (suc n) (x ∷ xs) = omega (arith, length-take_le n xs)

length-drop_le : (n : ℕ) (xs : Bytes) → length (drop n xs) ≤ length xs
length-drop_le zero xs = omega arith
length-drop_le (suc n) [] = omega arith
length-drop_le (suc n) (x ∷ xs) = omega (arith, length-drop_le n xs)

flatten-chunks_loop :
    (fuel size : ℕ) (xs : Bytes) → length xs ≤ fuel → flatten (chunks_loop fuel (suc size) xs) ≡ xs
unfolding chunks_loop
flatten-chunks_loop fuel size [] h = refl
flatten-chunks_loop zero size (x ∷ xs) h = absurd (omega arith)
flatten-chunks_loop (suc fuel) size (x ∷ xs) h =
    let later : flatten (chunks_loop fuel (suc size) (drop size xs)) ≡ drop size xs =
      flatten-chunks_loop fuel size (drop size xs) (omega (arith, length-drop_le size xs)) in
    rw later (ap (◌∷◌ x) (take-append-drop size xs))

chunks_loop-parts :
    (fuel size : ℕ) (xs : Bytes) → All (IsPart (suc size)) (chunks_loop fuel (suc size) xs)
unfolding chunks_loop
chunks_loop-parts fuel size [] = tt
chunks_loop-parts zero size (x ∷ xs) = tt
chunks_loop-parts (suc fuel) size (x ∷ xs) = (
  (omega arith, omega (arith, length-take_le size xs)),
  chunks_loop-parts fuel size (drop size xs),
)

flatten-chunks : (size : ℕ) (xs : Bytes) → 0 < size → flatten (chunks size xs) ≡ xs
unfolding chunks
flatten-chunks zero xs h = absurd (omega arith)
flatten-chunks (suc size) xs h = flatten-chunks_loop (length xs) size xs (omega arith)

chunks-parts : (size : ℕ) (xs : Bytes) → 0 < size → All (IsPart size) (chunks size xs)
unfolding chunks
chunks-parts zero xs h = absurd (omega arith)
chunks-parts (suc size) xs h = chunks_loop-parts (length xs) size xs

abbrev written : ConnectionState → Bytes → ConnectionState
written s octets = record s { output = s.output ++ octets }

-- One round of the loop.
send_chunks-round :
    (total stream_id sent : ℕ) (part : Bytes) (more : List Bytes) (s : ConnectionState)
    (is_last : Bool)
    → (sent + length part == total) ≡ is_last
    → send_chunks total stream_id sent (part ∷ more) s
      ≡ send_chunks total stream_id
          (sent + length part)
          more
          (written s (send_frame (data_frame is_last stream_id part)))
unfolding send_chunks send ◌>>=◌ modify
send_chunks-round total stream_id sent part more s is_last h = rw h refl

send_chunks-nil :
    (total stream_id sent : ℕ) (s : ConnectionState)
    → send_chunks total stream_id sent [] s ≡ (ok tt, s)
unfolding send_chunks return
send_chunks-nil total stream_id sent s = refl

send_chunks-data_frames :
    (total stream_id sent size : ℕ) (parts : List Bytes) (s : ConnectionState)
    → All (IsPart size) parts
    → total ≡ sent + length (flatten parts)
    → send_chunks total stream_id sent parts s
      ≡ (ok tt, written s (flatten (map send_frame (data_frames stream_id parts))))
unfolding data_frames
send_chunks-data_frames total stream_id sent size [] s parts sum =
    send_chunks-nil total stream_id sent s
    ∙ ap (λ o. (ok tt, record s { output = o })) (sym (append-nil s.output))
send_chunks-data_frames total stream_id sent size (part ∷ []) s parts sum =
    let whole : (sent + length part == total) ≡ true = ground (arith, length-append part []) in
    send_chunks-round total stream_id sent part [] s true whole
    ∙ send_chunks-nil total stream_id (sent + length part) _
    ∙ ap (λ o. (ok tt, record s { output = s.output ++ o })) (sym (append-nil _))
send_chunks-data_frames total stream_id sent size (part ∷ next ∷ more) s parts sum =
    let partly : (sent + length part == total) ≡ false = ground (
      arith,
      length-append part (next ++ flatten more),
      length-append next (flatten more),
      parts.1.0.0,
    ) in
    send_chunks-round total stream_id sent part (next ∷ more) s false partly
    ∙ send_chunks-data_frames total stream_id (sent + length part) size (next ∷ more) _ parts.1
        (omega (arith, sum, length-append part (next ++ flatten more)))
    ∙ ap (λ o. (ok tt, record s { output = o })) (append_assoc s.output _ _)

-- For a size that is not 0, the loop over the octets sent writes the frames of the chunks, which are the
-- body again, each within the size.
pub send_data_frame_from_slice-data_frames :
    (stream_id : ℕ) (octets : Bytes) (s : ConnectionState)
    → 0 < s.connection.maximum_payload_size
    → (let parts = chunks s.connection.maximum_payload_size octets in
        (send_data_frame_from_slice stream_id octets s ≡ (
          ok tt,
          record s { output = s.output ++ flatten (map send_frame (data_frames stream_id parts)) },
        ))
        × (flatten parts ≡ octets)
        × All (IsPart s.connection.maximum_payload_size) parts)
unfolding send_data_frame_from_slice send_slice with_state raise_if ◌>>=◌
send_data_frame_from_slice-data_frames stream_id octets s h =
    let size = s.connection.maximum_payload_size in
    let test : (size == 0) ≡ false = ground arith in
    let whole = flatten-chunks size octets h in
    let parts = chunks-parts size octets h in
    let same : length (flatten (chunks size octets)) ≡ length octets = ap length whole in
    let sum : length octets ≡ 0 + length (flatten (chunks size octets)) = omega (arith, same) in
    (rw test (send_chunks-data_frames (length octets) stream_id 0 size _ s parts sum), whole, parts)
