-- ===== src/Http/Range.antt =====
-- The ranges of a request, `Range` and `HttpRangeList` of servente-http/src/range.rs.
pub mod RoundTrip
use servente.Common.{
  ℕ, ◌==◌, Bool, true, false, not, Option, none, some, List, [], ◌∷◌, ◌++◌, Bytes, codes, drop,
  length, if◌then◌else◌,
}
use servente.Common.Decimal.{parse_usize}
use servente.Common.Trim.{trim}
use servente.Http.RequestTarget.{starts_with, split_once}

pub data Range : Type 0 where
  full : Range
  start_point_to_end : ℕ → Range
  points : ℕ → ℕ → Range
  suffix : ℕ → Range

-- A byte in front of the first part.
abbrev pub grow : ℕ → List Bytes → List Bytes
grow b [] = (b ∷ []) ∷ []
grow b (part ∷ parts) = (b ∷ part) ∷ parts

-- `str::split` of the standard library.
unfoldable pub split : ℕ → Bytes → List Bytes
split char [] = [] ∷ []
split char (b ∷ text) =
    let later = split char text in if b == char then [] ∷ later else grow b later

abbrev pub put_front : ℕ → Option Bytes → Option Bytes
put_front b none = none
put_front b (some text) = some (b ∷ text)

-- `str::strip_suffix` of a character of one byte.
unfoldable pub strip_suffix : ℕ → Bytes → Option Bytes
strip_suffix char [] = none
strip_suffix char (b ∷ []) = if b == char then some [] else none
strip_suffix char (b ∷ c ∷ text) = put_front b (strip_suffix char (c ∷ text))

unfoldable pub parse_start : Bytes → Option Range
unfolding parse_usize
parse_start start = elim (parse_usize start) [ some n ↦ some (start_point_to_end n) | none ↦ none ]

unfoldable pub parse_points : Option (Bytes × Bytes) → Option Range
unfolding parse_usize
parse_points none = none
parse_points (some (start, end)) = elim (parse_usize start) [
  | none ↦ none
  | some s ↦ elim (parse_usize end) [ none ↦ none | some e ↦ some (points s e) ]
]

-- A range that is not empty. A text without a hyphen has no second part.
unfoldable pub parse_range : Bytes → Option Range
unfolding parse_usize strip_suffix parse_start parse_points split_once
parse_range [] = none
parse_range (c ∷ range) =
    if c == b'-'
    then elim (parse_usize range) [ some n ↦ some (suffix n) | none ↦ none ]
    else elim (strip_suffix b'-' (c ∷ range)) [
      | some start ↦ parse_start start
      | none ↦ parse_points (split_once (c ∷ range) b'-')
    ]

-- The `for` loop over the parts. One that is empty is passed over, and one that fails ends it.
unfoldable pub parse_parts : List Bytes → Option (List Range)
unfolding trim parse_range
parse_parts [] = some []
parse_parts (part ∷ parts) =
    let later = parse_parts parts in
    let range = trim part in
    if length range == 0 then later else elim (parse_range range) [
      | none ↦ none
      | some r ↦ elim later [ none ↦ none | some ranges ↦ some (r ∷ ranges) ]
    ]

-- The list is its ranges.
unfoldable pub parse : Bytes → Option (List Range)
unfolding starts_with split parse_parts
parse value =
    if not (starts_with value (codes "bytes="))
    then none
    else parse_parts (split b',' (drop 6 value))

unfoldable pub first_and_only : List Range → Option Range
first_and_only (range ∷ []) = some range
first_and_only _ = none
