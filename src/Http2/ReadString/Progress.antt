-- ===== src/Http2/ReadString/Progress.antt =====
-- The moves of the cursor of a header block in `read_string`, servente-http2/src/lib.rs.
use servente.Common.{
  ℕ, zero, suc, bit_and, Option, none, some, [], ◌∷◌, ◌++◌, Bytes, Option-cases, inl, inr,
}
use servente.Common.Result.{Result, ok, err, ◌>>=◌, ok_or}
use servente.Http2.Errors.{DecompressionError, unexpected_end_of_file}
use servente.Http2.Transit.{HeadersInTransit, read_u8, read_integer}
use servente.Http2.Transit.Progress.{
  IsLater, IsLater-refl, IsLater-trans, Moves, read_u8-IsLater, read_integer-Moves,
}
use servente.Http2.ReadString.{read_octets, read_string}

-- Where reading succeeds, the cursor it gives is later.
abbrev pub MovesOk :
    {A : Type 0} → HeadersInTransit → Result DecompressionError (A × HeadersInTransit) → Type 0
MovesOk h (ok (a, h')) = IsLater h h'
MovesOk h (err e) = Unit

MovesOk-bind :
    {A B : Type 0} {h : HeadersInTransit} (m : Result DecompressionError (A × HeadersInTransit))
    (f : A × HeadersInTransit → Result DecompressionError (B × HeadersInTransit))
    → MovesOk h m
    → ((a : A) (h' : HeadersInTransit) → IsLater h h' → MovesOk h (f (a, h')))
    → MovesOk h (m >>= f)
MovesOk-bind (ok (a, h')) f p k = k a h' p
MovesOk-bind (err e) f p k = tt

MovesOk-trans :
    {A : Type 0} {h h1 : HeadersInTransit} (r : Result DecompressionError (A × HeadersInTransit))
    → IsLater h h1
    → MovesOk h1 r
    → MovesOk h r
MovesOk-trans (ok (a, h')) p q = IsLater-trans p q
MovesOk-trans (err e) p q = tt

pub MovesOk-ok_or :
    {A : Type 0} (h : HeadersInTransit) (o : Option (A × HeadersInTransit)) (e : DecompressionError)
    → Moves h o
    → MovesOk h (ok_or o e)
MovesOk-ok_or h (some (a, h')) e p = p
MovesOk-ok_or h none e p = tt

MovesOk-text :
    {h h' : HeadersInTransit} (r : Result DecompressionError Bytes)
    → IsLater h h'
    → MovesOk h (r >>= λ text. ok (text, h'))
MovesOk-text (ok text) p = p
MovesOk-text (err e) p = tt

read_u8-Moves : (h : HeadersInTransit) → Moves h (read_u8 h)
read_u8-Moves h = elim (Option-cases (read_u8 h)) [
  | inl q ↦ rw q tt
  | inr ((b, h'), q) ↦ rw q (read_u8-IsLater h b h' q)
]

read_octets-MovesOk : (n : ℕ) (vec : Bytes) (h : HeadersInTransit) → MovesOk h (read_octets n vec h)
unfolding read_octets
read_octets-MovesOk zero vec h = IsLater-refl h
read_octets-MovesOk (suc n) vec h = elim (Option-cases (read_u8 h)) [
  | inl q ↦ rw (q, read_octets) tt
  | inr ((b, h'), q) ↦
      rw (q, read_octets)
        (MovesOk-trans (read_octets n (vec ++ b ∷ []) h') (read_u8-IsLater h b h' q)
          (read_octets-MovesOk n (vec ++ b ∷ []) h'))
]

pub read_string-MovesOk : (h : HeadersInTransit) → MovesOk h (read_string h)
unfolding read_string
read_string-MovesOk h =
    MovesOk-bind (ok_or (read_u8 h) unexpected_end_of_file) _
      (MovesOk-ok_or h (read_u8 h) unexpected_end_of_file (read_u8-Moves h))
      (λ first_octet h1 p1.
        MovesOk-bind (ok_or (read_integer (bit_and first_octet 0x7f) 7 h1) unexpected_end_of_file) _
          (MovesOk-trans
            (ok_or (read_integer (bit_and first_octet 0x7f) 7 h1) unexpected_end_of_file) p1
            (MovesOk-ok_or h1 _ unexpected_end_of_file
              (read_integer-Moves (bit_and first_octet 0x7f) 7 h1)))
          (λ length h2 p2.
            MovesOk-bind (read_octets length [] h2) _
              (MovesOk-trans (read_octets length [] h2) p2 (read_octets-MovesOk length [] h2))
              (λ vec h3 p3. MovesOk-text _ p3)))
