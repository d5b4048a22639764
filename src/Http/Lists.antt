-- ===== src/Http/Lists.antt =====
-- Lists and weighted lists, servente-http/src/header_value/lists.rs, with `parse_digit_character` of
-- servente-http/src/abnf.rs. Weights are `f32`, whose operations are parameters.
pub mod Laws
pub mod Written
use servente.Common.{
  ℕ, zero, suc, ◌+◌, ◌-◌, ltb, leb, ◌==◌, Bool, true, false, not, ◌&&◌, ◌||◌, Option, none, some,
  List, [], ◌∷◌, ◌++◌, Bytes, bytes_eq, codes, length, drop, take, get_or, if◌then◌else◌,
}
use servente.Common.Ascii.{eq_ignore_ascii_case}
use servente.Common.Trim.{reverse}
use servente.Http.Range.{split}
use servente.Http.RequestTarget.{starts_with, split_once}

unfoldable pub is_whitespace_character : ℕ → Bool
is_whitespace_character character = character == b' ' || character == 0x09

-- `trim_start_matches` and `trim_matches` of the standard library, for white space.
unfoldable pub trim_start_matches : Bytes → Bytes
unfolding is_whitespace_character
trim_start_matches [] = []
trim_start_matches (b ∷ text) =
    let rest = trim_start_matches text in if is_whitespace_character b then rest else b ∷ text

unfoldable pub trim_matches : Bytes → Bytes
unfolding trim_start_matches reverse
trim_matches text = reverse (trim_start_matches (reverse (trim_start_matches text)))

-- All the results of `HttpListElementIterator::next`, for more rounds than the text has commas. What is behind
-- the last comma is an element, without a trimming of its own.
unfoldable pub list_elements : ℕ → Bytes → List Bytes
unfolding split_once trim_matches
list_elements zero value = []
list_elements (suc fuel) value = elim (split_once value b',') [
  | some (element, rest) ↦
      let later = list_elements fuel (trim_matches rest) in
      let result = trim_matches element in if bytes_eq result [] then later else result ∷ later
  | none ↦ if bytes_eq value [] then [] else value ∷ []
]

unfoldable pub parse_http_list : Bytes → List Bytes
unfolding list_elements
parse_http_list value = list_elements (length value + 1) value

-- The constants, the comparisons, the sum and the product of a digit with a power of a tenth of `f32`.
pub record Weights (Weight : Type 0) : Type 0 where
  pub nothing : Weight
  pub whole : Weight
  pub is_less : Weight → Weight → Bool
  pub is_equal : Weight → Weight → Bool
  pub plus : Weight → Weight → Weight
  pub digit_at : ℕ → ℕ → Weight

module _ {Weight : Type 0} (w : Weights Weight) where
  -- The loop over the first three characters behind the point, of which those that are no digits are left out.
  unfoldable pub fraction : ℕ → ℕ → Bytes → Weight → Weight
  fraction zero idx text fractional = fractional
  fraction (suc count) idx [] fractional = fractional
  fraction (suc count) idx (character ∷ text) fractional = fraction count (idx + 1) text (
      if leb b'0' character && leb character b'9'
      then w.plus fractional (w.digit_at (character - b'0') (idx + 1))
      else fractional)

  -- The characters of a text of ASCII, as those of all header fields.
  unfoldable pub parse_quality_value : Bytes → Weight
  unfolding fraction
  parse_quality_value value =
      if bytes_eq value [] || ltb 5 (length value)
      then w.whole
      else if bytes_eq value (codes "0")
          || bytes_eq value (codes "0.")
          || bytes_eq value (codes "0.0")
      then w.nothing
      else if get_or value 0 0 == b'1'
      then w.whole
      else if not (get_or value 0 0 == b'0') || length value == 1 || not (get_or value 1 0 == b'.')
      then w.whole
      else fraction 3 0 (drop 2 value) w.nothing

  -- `str::split_once` at "q=".
  unfoldable pub behind_weight : Bytes → Option Bytes
  unfolding starts_with
  behind_weight [] = none
  behind_weight (b ∷ text) =
      let later = behind_weight text in
      if starts_with (b ∷ text) (codes "q=") then some (drop 2 (b ∷ text)) else later

  unfoldable pub weight_of : List Bytes → Weight
  unfolding behind_weight parse_quality_value trim_start_matches
  weight_of [] = w.whole
  weight_of (qvalue ∷ parts) = elim (behind_weight (trim_start_matches qvalue)) [
    | some value ↦ parse_quality_value value
    | none ↦ w.whole
  ]

  pub record HttpWeightedValue : Type 0 where
    pub name : Bytes
    pub weight : Weight

  unfoldable pub weighted_values : List Bytes → List HttpWeightedValue
  unfolding split weight_of
  weighted_values [] = []
  weighted_values (value ∷ values) = elim (split b';' value) [
    | [] ↦ []
    | name ∷ parts ↦ (record { name = name; weight = weight_of parts }) ∷ weighted_values values
  ]

  unfoldable pub parse_http_weighted_list : Bytes → List HttpWeightedValue
  unfolding parse_http_list weighted_values
  parse_http_weighted_list value = weighted_values (parse_http_list value)

  -- The weight of the first entry with a name for which the test holds.
  unfoldable pub first_weight : (Bytes → Bool) → List HttpWeightedValue → Weight → Weight
  first_weight test [] other = other
  first_weight test (entry ∷ list) other =
      if test entry.name then entry.weight else first_weight test list other

  -- One supported value, by its number and its weight, and the best match so far.
  unfoldable pub next_match : ℕ → Weight → Option (ℕ × Weight) → Option (ℕ × Weight)
  next_match index weight none = if w.is_equal weight w.nothing then none else some (index, weight)
  next_match index weight (some (i, best_weight)) =
      if w.is_equal weight w.nothing
      then some (i, best_weight)
      else if w.is_less best_weight weight
      then some (index, weight)
      else some (i, best_weight)

  -- The loop over the supported values.
  unfoldable pub best_match :
      List HttpWeightedValue → Weight → List Bytes → ℕ → Option (ℕ × Weight) → Option (ℕ × Weight)
  unfolding first_weight eq_ignore_ascii_case next_match
  best_match list other [] index best = best
  best_match list other (name ∷ names) index best =
      best_match list other names (index + 1)
        (next_match index (first_weight (eq_ignore_ascii_case name) list other) best)

  abbrev pub match_index : Option (ℕ × Weight) → Option ℕ
  match_index none = none
  match_index (some (index, weight)) = some index

  unfoldable pub find_best_match_in_weighted_list : Bytes → List Bytes → Weight → Option ℕ
  unfolding parse_http_weighted_list first_weight best_match
  find_best_match_in_weighted_list header_field_value supported_values default_wildstart_weight =
      let list = parse_http_weighted_list header_field_value in
      let other = first_weight (λ name. bytes_eq name (codes "*")) list default_wildstart_weight in
      match_index (best_match list other supported_values 0 none)
