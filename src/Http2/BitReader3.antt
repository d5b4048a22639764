-- ===== src/Http2/BitReader3.antt =====
-- `BitReader3` of servente-http2/src/hpack.rs: the bits of one code, the highest first.
use servente.Common.{ℕ, ◌+◌, ◌-◌, ◌/◌, ◌^◌, bit_and, Bool, Option, none, some, ◌==◌, if◌then◌else◌}

pub record BitReader3 : Type 0 where
  pub code : ℕ
  pub bits : ℕ
  pub bit_position : ℕ

unfoldable pub new : ℕ → ℕ → BitReader3
new code bits = record { code = code; bits = bits; bit_position = 0 }

unfoldable pub next : BitReader3 → Option (Bool × BitReader3)
next r =
    if r.bit_position == r.bits
    then none
    else some (
      bit_and (r.code / 2 ^ (r.bits - 1 - r.bit_position)) 1 == 1,
      record r { bit_position = r.bit_position + 1 },
    )
