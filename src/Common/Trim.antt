-- ===== src/Common/Trim.antt =====
-- `str::trim` of the standard library on the bytes of a text, and the white space of Unicode in UTF-8.
pub mod Plain
use Prim.Native.Nat.{ℕ}
use mathlib.Core.Bool.{Bool, true, false, ◌&&◌, ◌||◌}
use mathlib.Core.List.{[], ◌∷◌, ◌++◌}
use servente.Common.Tests.{leb, ◌==◌, if◌then◌else◌}
use servente.Common.Lists.{Bytes}

-- Of one byte, of two and of three.
unfoldable pub is_white : ℕ → Bool
is_white a = (leb 0x09 a && leb a 0x0d) || a == 0x20

unfoldable pub is_white_pair : ℕ → ℕ → Bool
is_white_pair a b = a == 0xc2 && (b == 0x85 || b == 0xa0)

unfoldable pub is_white_triple : ℕ → ℕ → ℕ → Bool
is_white_triple a b c =
    (a == 0xe1 && b == 0x9a && c == 0x80)
    || (a == 0xe2
        && ((b == 0x80 && ((leb 0x80 c && leb c 0x8a) || c == 0xa8 || c == 0xa9 || c == 0xaf))
            || (b == 0x81 && c == 0x9f)))
    || (a == 0xe3 && b == 0x80 && c == 0x80)

unfoldable pub trim_start : Bytes → Bytes
unfolding is_white is_white_pair is_white_triple
trim_start [] = []
trim_start (a ∷ []) = if is_white a then [] else a ∷ []
trim_start (a ∷ b ∷ []) = elim (is_white a) [
  | true ↦ trim_start (b ∷ [])
  | false ↦ if is_white_pair a b then [] else a ∷ b ∷ []
]
trim_start (a ∷ b ∷ c ∷ text) = elim (is_white a) [
  | true ↦ trim_start (b ∷ c ∷ text)
  | false ↦ elim (is_white_pair a b) [
    | true ↦ trim_start (c ∷ text)
    | false ↦ elim (is_white_triple a b c) [ true ↦ trim_start text | false ↦ a ∷ b ∷ c ∷ text ]
  ]
]

-- The same from the end, on the bytes in reverse order.
unfoldable pub trim_reversed : Bytes → Bytes
unfolding is_white is_white_pair is_white_triple
trim_reversed [] = []
trim_reversed (a ∷ []) = if is_white a then [] else a ∷ []
trim_reversed (b ∷ a ∷ []) = elim (is_white b) [
  | true ↦ trim_reversed (a ∷ [])
  | false ↦ if is_white_pair a b then [] else b ∷ a ∷ []
]
trim_reversed (c ∷ b ∷ a ∷ text) = elim (is_white c) [
  | true ↦ trim_reversed (b ∷ a ∷ text)
  | false ↦ elim (is_white_pair b c) [
    | true ↦ trim_reversed (a ∷ text)
    | false ↦ elim (is_white_triple a b c) [ true ↦ trim_reversed text | false ↦ c ∷ b ∷ a ∷ text ]
  ]
]

unfoldable pub reverse : Bytes → Bytes
reverse [] = []
reverse (b ∷ text) = reverse text ++ b ∷ []

unfoldable pub trim : Bytes → Bytes
unfolding trim_start trim_reversed reverse
trim text = reverse (trim_reversed (reverse (trim_start text)))
