-- ===== src/Http2/Transit.antt =====
-- The header block of a request, `HeadersInTransit` of servente-http2/src/lib.rs: the fragments
-- of a HEADERS frame and of the CONTINUATION frames behind it, read byte by byte.
pub mod View
pub mod Progress
use servente.Common.{
  ℕ, zero, suc, ◌+◌, ◌-◌, ◌*◌, ◌%◌, ◌^◌, ◌≤◌, ◌<◌, ◌≡◌, bit_and, Bool, true, false, not, Option,
  none, some, List, [], ◌∷◌, ◌++◌, Bytes, ltb, ◌==◌, if◌then◌else◌, length, get_or, get_elem?,
  flatten,
}

pub record HeadersInTransit : Type 0 where
  pub headers : List Bytes
  pub cursor : ℕ

-- The loop of `peek_u8` over the fragments, with its local `cursor`.
unfoldable pub peek_in : List Bytes → ℕ → Option ℕ
peek_in [] cursor = none
peek_in (vec ∷ vecs) cursor =
    let later = peek_in vecs (cursor - length vec) in
    if ltb cursor (length vec) then get_elem? vec cursor else later

unfoldable pub peek_u8 : HeadersInTransit → Option ℕ
unfolding peek_in
peek_u8 h = peek_in h.headers h.cursor

unfoldable pub read_u8 : HeadersInTransit → Option (ℕ × HeadersInTransit)
read_u8 h = elim (peek_u8 h) [
  | some val ↦ some (val, record h { cursor = h.cursor + 1 })
  | none ↦ none
]

-- The bytes that are left to read, which bound every loop below.
abbrev pub remaining : HeadersInTransit → ℕ
remaining h = length (flatten h.headers) - h.cursor

abbrev pub usize_mod : ℕ
usize_mod = 2 ^ 64

-- The `while let` loop of `read_integer`. Each round reads a byte, so `remaining` rounds are enough:
-- with none left `read_u8` gives `None`, and so does the loop.
unfoldable pub read_integer_loop : ℕ → ℕ → ℕ → HeadersInTransit → Option (ℕ × HeadersInTransit)
read_integer_loop zero i m h = none
read_integer_loop (suc fuel) i m h = elim (read_u8 h) [
  | none ↦ none
  | some (octet, h') ↦
      let i' = (i + bit_and octet 0x7f * (2 ^ m % usize_mod) % usize_mod) % usize_mod in
      let more = read_integer_loop fuel i' ((m + 7) % 2 ^ 32) h' in
      if not (bit_and octet 0x80 == 0x80) then some (i', h') else more
]

unfoldable pub read_integer : ℕ → ℕ → HeadersInTransit → Option (ℕ × HeadersInTransit)
read_integer first_byte n h =
    if ltb first_byte (2 ^ n - 1)
    then some (first_byte, h)
    else read_integer_loop (remaining h) first_byte 0 h
