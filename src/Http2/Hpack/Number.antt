-- ===== src/Http2/Hpack/Number.antt =====
-- `write_hpack_number` of servente-http2/src/hpack.rs.
pub mod RoundTrip
use servente.Common.{
  ℕ, zero, suc, ◌+◌, ◌-◌, ◌/◌, ◌%◌, ◌^◌, bit_or, [], ◌∷◌, Bytes, ltb, if◌then◌else◌,
}

-- The `while` loop and the write behind it. The value falls in each round, so more rounds than the
-- value are enough.
unfoldable pub write_groups : ℕ → ℕ → Bytes
write_groups zero value = []
write_groups (suc fuel) value =
    let more = write_groups fuel (value / 128) in
    if ltb value 128 then value % 256 ∷ [] else (value % 256 % 128 + 128) ∷ more

unfoldable pub write_hpack_number : ℕ → ℕ → ℕ → Bytes
unfolding write_groups
write_hpack_number value n prefix =
    let first_octet_max = 2 ^ n - 1 in
    if ltb value first_octet_max
    then bit_or prefix (value % 256) ∷ []
    else bit_or prefix (first_octet_max % 256)
      ∷ write_groups (value - first_octet_max + 1) (value - first_octet_max)
