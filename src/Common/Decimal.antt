-- ===== src/Common/Decimal.antt =====
-- `Display` and `FromStr` of `usize` in the standard library: decimal digits.
pub mod RoundTrip
use Prim.Native.Nat.{ℕ, zero, suc, ◌+◌, ◌-◌, ◌*◌, ◌/◌, ◌%◌, ◌^◌}
use mathlib.Core.Bool.{◌&&◌}
use mathlib.Core.List.{[], ◌∷◌, ◌++◌}
use mathlib.Core.Option.{Option, none, some}
use servente.Common.Tests.{ltb, leb, ◌==◌, if◌then◌else◌}
use servente.Common.Lists.{Bytes}

-- The digits of `n`, for more rounds than `n` has digits.
unfoldable pub digits_of : ℕ → ℕ → Bytes
digits_of zero n = []
digits_of (suc fuel) n =
    let front = digits_of fuel (n / 10) in
    if ltb n 10 then (n + b'0') ∷ [] else front ++ (n % 10 + b'0') ∷ []

unfoldable pub decimal : ℕ → Bytes
unfolding digits_of
decimal n = digits_of (n + 1) n

-- A digit each, with a check for overflow at every step.
unfoldable pub parse_digits : ℕ → Bytes → Option ℕ
parse_digits acc [] = some acc
parse_digits acc (c ∷ cs) =
    let acc' = acc * 10 + (c - b'0') in
    let more = parse_digits acc' cs in
    if leb b'0' c && leb c b'9' && ltb acc' (2 ^ 64) then more else none

-- A sign in front is allowed, and digits there must be.
unfoldable pub parse_usize : Bytes → Option ℕ
unfolding parse_digits
parse_usize [] = none
parse_usize (c ∷ []) = parse_digits 0 (c ∷ [])
parse_usize (c ∷ d ∷ cs) =
    if c == b'+' then parse_digits 0 (d ∷ cs) else parse_digits 0 (c ∷ d ∷ cs)
