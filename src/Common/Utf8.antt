-- ===== src/Common/Utf8.antt =====
-- `String::from_utf8` of the standard library: which byte strings are text.
use Prim.Native.Nat.{ℕ}
use mathlib.Core.Bool.{Bool, true, false, ◌&&◌}
use mathlib.Core.Path.{◌≡◌}
use mathlib.Core.List.{[], ◌∷◌}
use mathlib.Core.Option.{Option, none, some}
use servente.Common.Tests.{leb, if◌then◌else◌}
use servente.Common.Lists.{Bytes}

-- What the next byte must be: a first byte, or one of a sequence that has begun.
pub data Utf8State : Type 0 where
  first last second_of_two_left third_left : Utf8State
  after_e0 after_ed after_f0 after_f4 : Utf8State

within : ℕ → ℕ → ℕ → Bool
within lo hi c = leb lo c && leb c hi

-- The state behind a byte, by the table of well-formed sequences.
unfoldable pub utf8_step : Utf8State → ℕ → Option Utf8State
unfolding within
utf8_step first c =
    if leb c 0x7f
    then some first
    else if within 0xc2 0xdf c
    then some last
    else if leb 0xe0 c && leb c 0xe0
    then some after_e0
    else if within 0xe1 0xec c
    then some second_of_two_left
    else if leb 0xed c && leb c 0xed
    then some after_ed
    else if within 0xee 0xef c
    then some second_of_two_left
    else if leb 0xf0 c && leb c 0xf0
    then some after_f0
    else if within 0xf1 0xf3 c
    then some third_left
    else if leb 0xf4 c && leb c 0xf4
    then some after_f4
    else none
utf8_step last c = if within 0x80 0xbf c then some first else none
utf8_step second_of_two_left c = if within 0x80 0xbf c then some last else none
utf8_step third_left c = if within 0x80 0xbf c then some second_of_two_left else none
utf8_step after_e0 c = if within 0xa0 0xbf c then some last else none
utf8_step after_ed c = if within 0x80 0x9f c then some last else none
utf8_step after_f0 c = if within 0x90 0xbf c then some second_of_two_left else none
utf8_step after_f4 c = if within 0x80 0x8f c then some second_of_two_left else none

unfoldable pub utf8_from : Utf8State → Bytes → Bool
unfolding utf8_step
utf8_from first [] = true
utf8_from _ [] = false
utf8_from s (c ∷ cs) = elim (utf8_step s c) [ some s' ↦ utf8_from s' cs | none ↦ false ]

unfoldable pub from_utf8 : Bytes → Option Bytes
unfolding utf8_from
from_utf8 bytes = if utf8_from first bytes then some bytes else none

abbrev pub IsUtf8 : Bytes → Type 0
IsUtf8 bytes = from_utf8 bytes ≡ some bytes
