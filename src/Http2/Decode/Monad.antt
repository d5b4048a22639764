-- ===== src/Http2/Decode/Monad.antt =====
-- The state that the decoding of a header block changes in servente-http2/src/hpack.rs: the block
-- with its cursor, the dynamic table and the sink. A step returns its result, error or not, with
-- the state that it leaves.
pub mod Keeps
use servente.Common.{ℕ, Bytes}
use servente.Common.Result.{Result, ok, err, ok_or}
use servente.Http2.Errors.{DecompressionError, unexpected_end_of_file}
use servente.Http2.Transit.{HeadersInTransit, read_integer}
use servente.Http2.ReadString
use servente.Http2.Hpack.DynamicTable.{DynamicTable}

pub record Decoding (S : Type 0) : Type 0 where
  pub request : HeadersInTransit
  pub dynamic_table : DynamicTable
  pub sink : S

abbrev pub Decoder : Type 0 → Type 0 → Type 0
Decoder S A = Decoding S → Result DecompressionError A × Decoding S

abbrev pub resume :
    {S A B : Type 0}
    → (A → Decoder S B)
    → Result DecompressionError A × Decoding S
    → Result DecompressionError B × Decoding S
resume f (ok a, d) = f a d
resume f (err e, d) = (err e, d)

infixl 5 ◌>>=◌ ◌>>◌
unfoldable pub ◌>>=◌ : {S A B : Type 0} → Decoder S A → (A → Decoder S B) → Decoder S B
(m >>= f) d = resume f (m d)

abbrev pub ◌>>◌ : {S B : Type 0} → Decoder S (Unit {0}) → Decoder S B → Decoder S B
m >> k = m >>= λ _. k

unfoldable pub lift : {S A : Type 0} → Result DecompressionError A → Decoder S A
lift r d = (r, d)

module _ {S : Type 0} where
  -- `read_integer` or `read_string` and the operator `?`: a failure leaves the cursor behind what
  -- was read, but a failure ends the decoding and the block with it, so its cursor is not kept.
  unfoldable pub from_request :
      {A : Type 0}
      → (HeadersInTransit → Result DecompressionError (A × HeadersInTransit))
      → Decoder S A
  from_request read d = elim (read d.request) [
    | ok (a, h) ↦ (ok a, record d { request = h })
    | err e ↦ (err e, d)
  ]

  unfoldable pub integer : ℕ → ℕ → Decoder S ℕ
  integer first_byte n =
      from_request (λ h. ok_or (read_integer first_byte n h) unexpected_end_of_file)

  unfoldable pub string : Decoder S Bytes
  string = from_request ReadString.read_string

  unfoldable pub change_table : (DynamicTable → DynamicTable) → Decoder S (Unit {0})
  change_table f d = (ok tt, record d { dynamic_table = f d.dynamic_table })

  unfoldable pub with_table :
      {A : Type 0} → (DynamicTable → Result DecompressionError A) → Decoder S A
  with_table f d = (f d.dynamic_table, d)

  unfoldable pub with_sink : (S → Result DecompressionError S) → Decoder S (Unit {0})
  with_sink f d = elim (f d.sink) [ ok s ↦ (ok tt, record d { sink = s }) | err e ↦ (err e, d) ]
