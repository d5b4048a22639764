-- ===== src/Http2/Decode/Fuel.antt =====
-- The rounds of the loop of `decode_hpack_sink` (servente-http2/src/hpack.rs) and the octets left.
use mathlib.Core.Path.{subst}
use servente.Common.{
  ℕ, zero, suc, ◌+◌, ◌≤◌, ◌<◌, ◌≡◌, refl, ap, arith, Bool, true, false, none, some, List, [], ◌∷◌,
  Bytes, length, flatten, Option-cases, inl, inr,
}
use servente.Common.Result.{Result, ok, err}
use servente.Http2.Errors.{DecompressionError}
use servente.Http2.Transit.{HeadersInTransit, read_u8, remaining}
use servente.Http2.Transit.View.{rest, remaining-rest, read_u8-nil}
use servente.Http2.Transit.Progress.{IsLater, IsLater-refl, IsLater-trans, read_u8-cursor}
use servente.Http2.Sink.{HpackDecodeSink}
use servente.Http2.Decode.{decode_field, decode_fields, decode_hpack_sink}
use servente.Http2.Decode.Monad.{Decoding, Decoder, ◌>>=◌, resume}
use servente.Http2.Decode.Keeps.{IsKept, decode_field-Keeps}

-- An octet that is read leaves one less.
remaining-read_u8 :
    (h : HeadersInTransit) (b : ℕ) (h' : HeadersInTransit)
    → read_u8 h ≡ some (b, h')
    → remaining h ≡ remaining h' + 1
remaining-read_u8 h b h' q =
    let next = read_u8-cursor h b h' q in
    let one : 1 ≤ remaining h = rest_some (rest h) refl in
    let headers : length (flatten h'.headers) ≡ length (flatten h.headers) =
      ap (λ (g : HeadersInTransit). length (flatten g.headers)) next in
    let cursor : h'.cursor ≡ h.cursor + 1 = ap (λ (g : HeadersInTransit). g.cursor) next in
    omega arith
  where
    rest_some : (r : Bytes) → rest h ≡ r → 1 ≤ remaining h
    rest_some [] e = ground (arith, read_u8-nil h e)
    rest_some (c ∷ cs) e = ground (arith, remaining-rest h, ap (λ (l : Bytes). length l) e)

remaining-IsLater : (h h' : HeadersInTransit) → IsLater h h' → remaining h' ≤ remaining h
remaining-IsLater h h' p =
    let same : length (flatten h'.headers) ≡ length (flatten h.headers) =
      ap (λ (l : List Bytes). length (flatten l)) p.headers in
    ground arith

module _ (http_date : ℕ → Bytes) {S : Type 0} (sink : HpackDecodeSink S) where
  IsLater-IsKept : (h : HeadersInTransit) → IsKept http_date sink (λ d. IsLater h d.request)
  IsLater-IsKept h = record {
    reads = λ d h' later p. IsLater-trans p later;
    inserts = λ d e p. p;
    updates = λ d size p. p;
    adds_header = λ d n v s e p. p;
    sets_authority = λ d b s e p. p;
    sets_method = λ d m s e p. p;
    sets_path = λ d b s e p. p;
    sets_scheme = λ d b s e p. p;
  }

  -- Nothing is left to read behind a success.
  abbrev ReadsAll : Result DecompressionError (Unit {0}) × Decoding S → Type 0
  ReadsAll (ok u, d) = read_u8 d.request ≡ none
  ReadsAll (err e, d) = Unit

  ReadsAll-bind :
      (m : Decoder S (Unit {0})) (f : Unit {0} → Decoder S (Unit {0})) (h : HeadersInTransit)
      (d : Decoding S)
      → (let (x, d') = m d in IsLater h d'.request)
      → ((d' : Decoding S) → IsLater h d'.request → ReadsAll (f tt d'))
      → ReadsAll ((m >>= f) d)
  unfolding ◌>>=◌
  ReadsAll-bind m f h d p k = go (m d) p
    where
      go :
          (r : Result DecompressionError (Unit {0}) × Decoding S)
          → (let (x, d') = r in IsLater h d'.request)
          → ReadsAll (resume f r)
      go (ok u, d') q = k d' q
      go (err e, d') q = tt

  decode_fields-ReadsAll :
      (fuel : ℕ) (is_first : Bool) (d : Decoding S)
      → remaining d.request < fuel
      → ReadsAll (decode_fields http_date sink fuel is_first d)
  unfolding decode_fields
  decode_fields-ReadsAll zero is_first d f = absurd (omega arith)
  decode_fields-ReadsAll (suc fuel) is_first d f = elim (Option-cases (read_u8 d.request)) [
    | inl q ↦ rw (q, decode_fields) q
    | inr ((b, h), q) ↦
        rw (q, decode_fields)
          (ReadsAll-bind (decode_field http_date sink is_first b)
            (λ u. decode_fields http_date sink fuel false) h (record d { request = h })
            ((decode_field-Keeps http_date sink _ (IsLater-IsKept h) is_first b).keeps
              (record d { request = h }) (IsLater-refl h))
            (λ d' later. decode_fields-ReadsAll fuel false d' (
              let fewer = remaining-IsLater h d'.request later in
              let one = remaining-read_u8 d.request b h q in omega arith)))
  ]

  -- Where the decoding of a header block succeeds, the block is read to its end.
  pub decode_hpack_sink-reads_all :
      (d d' : Decoding S)
      → decode_hpack_sink http_date sink d ≡ (ok tt, d')
      → read_u8 d'.request ≡ none
  unfolding decode_hpack_sink
  decode_hpack_sink-reads_all d d' e =
      subst ReadsAll e (decode_fields-ReadsAll (remaining d.request + 1) true d (omega arith))
