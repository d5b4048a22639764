-- ===== src/Http2/Decode/Monad/Keeps.antt =====
-- Properties of the state that the steps of a decoding keep (servente-http2/src/hpack.rs).
use servente.Common.{◌≡◌, refl, Bool, true, false, if◌then◌else◌}
use servente.Common.Result.{Result, ok, err}
use servente.Http2.Errors.{DecompressionError}
use servente.Http2.Transit.{HeadersInTransit}
use servente.Http2.Transit.Progress.{IsLater}
use servente.Http2.ReadString.Progress.{MovesOk}
use servente.Http2.Hpack.DynamicTable.{DynamicTable}
use servente.Http2.Decode.Monad.{
  Decoding, Decoder, ◌>>=◌, resume, lift, with_table, with_sink, from_request,
}

-- From a state with `P`, a step leaves one with `P`, whether it succeeds or fails.
pub record Keeps {S A : Type 0} (P : Decoding S → Type 0) (m : Decoder S A) : Type 0 where
  pub keeps : (d : Decoding S) → P d → (let (r, d') = m d in P d')

module _ {S : Type 0} (P : Decoding S → Type 0) where
  pub Keeps-bind :
      {A B : Type 0} (first : Decoder S A) (next : A → Decoder S B)
      → Keeps P first
      → ((value : A) → Keeps P (next value))
      → Keeps P (first >>= next)
  unfolding ◌>>=◌
  Keeps-bind {A} {B} first next k l = record { keeps = λ d p. go (first d) (k.keeps d p) }
    where
      go :
          (r : Result DecompressionError A × Decoding S)
          → (let (x, d') = r in P d')
          → (let (x, d') = resume next r in P d')
      go (ok a, d') p' = (l a).keeps d' p'
      go (err e, d') p' = p'

  pub Keeps-lift : {A : Type 0} (r : Result DecompressionError A) → Keeps P (lift r)
  unfolding lift
  Keeps-lift r = record { keeps = λ d p. p }

  pub Keeps-with_table :
      {A : Type 0} (f : DynamicTable → Result DecompressionError A) → Keeps P (with_table f)
  unfolding with_table
  Keeps-with_table f = record { keeps = λ d p. p }

  pub Keeps-with_sink :
      (f : S → Result DecompressionError S)
      → ((d : Decoding S) (s : S) → f d.sink ≡ ok s → P d → P (record d { sink = s }))
      → Keeps P (with_sink f)
  unfolding with_sink
  Keeps-with_sink f k = record { keeps = λ d p. go d p (f d.sink) refl }
    where
      go :
          (d : Decoding S)
          → P d
          → (r : Result DecompressionError S) → f d.sink ≡ r
          → (let (x, d') = with_sink (λ s. r) d in P d')
      go d p (ok s) q = k d s q p
      go d p (err e) q = p

  pub Keeps-from_request :
      {A : Type 0} (read : HeadersInTransit → Result DecompressionError (A × HeadersInTransit))
      → ((d : Decoding S) (h : HeadersInTransit)
          → IsLater d.request h
          → P d
          → P (record d { request = h }))
      → ((h : HeadersInTransit) → MovesOk h (read h))
      → Keeps P (from_request read)
  unfolding from_request
  Keeps-from_request {A} read k moves = record {
    keeps = λ d p. go d p (read d.request) (moves d.request);
  }
    where
      go :
          (d : Decoding S)
          → P d
          → (r : Result DecompressionError (A × HeadersInTransit)) → MovesOk d.request r
          → (let (x, d') = from_request (λ h. r) d in P d')
      go d p (ok (a, h)) later = k d h later p
      go d p (err e) later = p

  pub Keeps-if :
      {A : Type 0} (test : Bool) (m m' : Decoder S A)
      → Keeps P m
      → Keeps P m'
      → Keeps P (if test then m else m')
  Keeps-if true m m' k l = k
  Keeps-if false m m' k l = l
