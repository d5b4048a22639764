-- ===== src/Http/Range/RoundTrip.antt =====
-- The ranges of servente-http/src/range.rs from their text.
use servente.Common.{
  All-append, ℕ, ◌<◌, ◌^◌, ◌==◌, ◌≡◌, refl, ap, sym, ◌∙◌, arith, true, false, none, some, List, [],
  ◌∷◌, ◌++◌, append_assoc, Bytes, codes, length, length-append, All,
}
use servente.Common.Decimal.{decimal}
use servente.Common.Decimal.RoundTrip.{
  IsDigit, decimal-IsDigit, length-decimal, parse_usize-decimal,
}
use servente.Common.Trim.{trim}
use servente.Common.Trim.Plain.{IsVisible, trim-plain}
use servente.Http.Range.{
  Range, full, start_point_to_end, points, suffix, grow, split, put_front, strip_suffix,
  parse_start, parse_points, parse_range, parse_parts, parse,
}
use servente.Http.RequestTarget.{split_once, starts_with}
use servente.Http.RequestTarget.Split.{split_once-append}

-- The text of a range. Nothing is read as the full one.
unfoldable pub range_text : Range → Bytes
range_text full = []
range_text (start_point_to_end start) = decimal start ++ b'-' ∷ []
range_text (points start end) = decimal start ++ b'-' ∷ decimal end
range_text (suffix n) = b'-' ∷ decimal n

unfoldable pub ranges_text : List Range → Bytes
unfolding range_text
ranges_text [] = []
ranges_text (range ∷ []) = range_text range
ranges_text (range ∷ next ∷ ranges) = range_text range ++ b',' ∷ ranges_text (next ∷ ranges)

-- The ranges that have a text, with numbers of a `u64`.
unfoldable pub IsWritten : Range → Type 0
IsWritten full = ⊥
IsWritten (start_point_to_end start) = start < 2 ^ 64
IsWritten (points start end) = (start < 2 ^ 64) × (end < 2 ^ 64)
IsWritten (suffix n) = n < 2 ^ 64

strip_suffix-append : (char : ℕ) (text : Bytes) → strip_suffix char (text ++ char ∷ []) ≡ some text
unfolding strip_suffix
strip_suffix-append char [] = let same : (char == char) ≡ true = ground arith in rw same refl
strip_suffix-append char (b ∷ []) = ap (put_front b) (strip_suffix-append char [])
strip_suffix-append char (b ∷ c ∷ text) = ap (put_front b) (strip_suffix-append char (c ∷ text))

strip_suffix-none :
    (front back : Bytes)
    → All IsDigit back
    → 0 < length back
    → strip_suffix b'-' (front ++ back) ≡ none
unfolding strip_suffix IsDigit
strip_suffix-none [] [] digits h = absurd (omega arith)
strip_suffix-none [] (b ∷ []) digits h =
    let digit = digits.0 in let other : (b == b'-') ≡ false = ground (arith, digit) in rw other refl
strip_suffix-none [] (b ∷ c ∷ back) digits h =
    ap (put_front b) (strip_suffix-none [] (c ∷ back) digits.1 (omega arith))
strip_suffix-none (a ∷ []) [] digits h = absurd (omega arith)
strip_suffix-none (a ∷ []) (b ∷ back) digits h =
    ap (put_front a) (strip_suffix-none [] (b ∷ back) digits h)
strip_suffix-none (a ∷ b ∷ front) back digits h =
    ap (put_front a) (strip_suffix-none (b ∷ front) back digits h)

-- A text that starts with a digit is not a suffix.
parse_range-digit :
    (front back : Bytes)
    → All IsDigit front
    → 0 < length front
    → parse_range (front ++ back) ≡ elim (strip_suffix b'-' (front ++ back)) [
      | some start ↦ parse_start start
      | none ↦ parse_points (split_once (front ++ back) b'-')
    ]
unfolding parse_range IsDigit
parse_range-digit [] back digits h = absurd (omega arith)
parse_range-digit (c ∷ front) back digits h =
    let digit = digits.0 in let other : (c == b'-') ≡ false = ground (arith, digit) in rw other refl

no_hyphen : (text : Bytes) → All IsDigit text → All (λ b. (b == b'-') ≡ false) text
unfolding IsDigit
no_hyphen [] h = tt
no_hyphen (b ∷ text) h = let digit = h.0 in (ground (arith, digit), no_hyphen text h.1)

parse_range-suffix : (n : ℕ) → n < 2 ^ 64 → parse_range (b'-' ∷ decimal n) ≡ some (suffix n)
unfolding parse_range
parse_range-suffix n h = rw (parse_usize-decimal n h) refl

parse_range-range_text :
    (range : Range) → IsWritten range → parse_range (range_text range) ≡ some range
unfolding range_text IsWritten parse_start parse_points
parse_range-range_text full h = absurd h
parse_range-range_text (start_point_to_end start) h =
    parse_range-digit (decimal start) (b'-' ∷ []) (decimal-IsDigit start) (length-decimal start)
    ∙ rw (strip_suffix-append b'-' (decimal start), parse_start, parse_usize-decimal start h) refl
parse_range-range_text (points start end) h =
    let no_end : strip_suffix b'-' (decimal start ++ b'-' ∷ decimal end) ≡ none =
      ap (strip_suffix b'-') (sym (append_assoc (decimal start) (b'-' ∷ []) (decimal end)))
      ∙ strip_suffix-none (decimal start ++ b'-' ∷ []) (decimal end) (decimal-IsDigit end)
          (length-decimal end) in
    parse_range-digit (decimal start) (b'-' ∷ decimal end) (decimal-IsDigit start)
      (length-decimal start)
    ∙ rw
        (
          no_end,
          split_once-append b'-' (decimal start) (decimal end)
              (no_hyphen (decimal start) (decimal-IsDigit start)),
          parse_points,
          parse_usize-decimal start h.0,
          parse_usize-decimal end h.1,
        )
        refl
parse_range-range_text (suffix n) h = parse_range-suffix n h

pub split-plain :
    (char : ℕ) (text : Bytes) → All (λ b. (b == char) ≡ false) text → split char text ≡ text ∷ []
unfolding split
split-plain char [] h = refl
split-plain char (b ∷ text) h = rw h.0 (ap (grow b) (split-plain char text h.1))

pub split-append :
    (char : ℕ) (text rest : Bytes)
    → All (λ b. (b == char) ≡ false) text
    → split char (text ++ char ∷ rest) ≡ text ∷ split char rest
unfolding split
split-append char [] rest h = let same : (char == char) ≡ true = ground arith in rw same refl
split-append char (b ∷ text) rest h = rw h.0 (ap (grow b) (split-append char text rest h.1))

-- What is known of every byte of a range.
IsPart : ℕ → Type 0
IsPart c = IsVisible c × ((c == b',') ≡ false)

IsDigit-IsPart : (text : Bytes) → All IsDigit text → All IsPart text
unfolding IsPart IsDigit IsVisible
IsDigit-IsPart [] h = tt
IsDigit-IsPart (b ∷ text) h =
    let digit = h.0 in
    (((omega (arith, digit), omega (arith, digit)), ground (arith, digit)), IsDigit-IsPart text h.1)

hyphen_IsPart : IsPart b'-'
unfolding IsPart IsVisible
hyphen_IsPart = ((omega arith, omega arith), refl)

decimal-IsPart : (n : ℕ) → All IsPart (decimal n)
decimal-IsPart n = IsDigit-IsPart (decimal n) (decimal-IsDigit n)

range_text-IsPart : (range : Range) → All IsPart (range_text range)
unfolding range_text
range_text-IsPart full = tt
range_text-IsPart (start_point_to_end start) =
    All-append IsPart (decimal start) _ (decimal-IsPart start) (hyphen_IsPart, tt)
range_text-IsPart (points start end) =
    All-append IsPart (decimal start) _ (decimal-IsPart start) (hyphen_IsPart, decimal-IsPart end)
range_text-IsPart (suffix n) = (hyphen_IsPart, decimal-IsPart n)

IsPart-IsVisible : (text : Bytes) → All IsPart text → All IsVisible text
unfolding IsPart
IsPart-IsVisible [] h = tt
IsPart-IsVisible (b ∷ text) h = (h.0.0, IsPart-IsVisible text h.1)

no_comma : (text : Bytes) → All IsPart text → All (λ b. (b == b',') ≡ false) text
unfolding IsPart
no_comma [] h = tt
no_comma (b ∷ text) h = (h.0.1, no_comma text h.1)

length-range_text : (range : Range) → IsWritten range → 0 < length (range_text range)
unfolding range_text IsWritten
length-range_text full h = absurd h
length-range_text (start_point_to_end start) h =
    omega (arith, length-append (decimal start) (b'-' ∷ []))
length-range_text (points start end) h =
    omega (arith, length-append (decimal start) (b'-' ∷ decimal end))
length-range_text (suffix n) h = omega arith

is_not_zero : (n : ℕ) → 0 < n → (n == 0) ≡ false
is_not_zero n h = ground arith

parse_parts-cons :
    (range : Range) (parts : List Bytes) (ranges : List Range)
    → IsWritten range
    → parse_parts parts ≡ some ranges
    → parse_parts (range_text range ∷ parts) ≡ some (range ∷ ranges)
unfolding parse_parts
parse_parts-cons range parts ranges written later =
    let trimmed =
      trim-plain (range_text range)
        (IsPart-IsVisible (range_text range) (range_text-IsPart range)) in
    let not_empty = is_not_zero (length (range_text range)) (length-range_text range written) in
    rw (trimmed, not_empty, parse_range-range_text range written, later) refl

parse_parts-ranges_text :
    (ranges : List Range)
    → All IsWritten ranges
    → parse_parts (split b',' (ranges_text ranges)) ≡ some ranges
unfolding ranges_text parse_parts split trim
parse_parts-ranges_text [] h = refl
parse_parts-ranges_text (range ∷ []) h =
    ap parse_parts
      (split-plain b',' (range_text range) (no_comma (range_text range) (range_text-IsPart range)))
    ∙ parse_parts-cons range [] [] h.0 refl
parse_parts-ranges_text (range ∷ next ∷ ranges) h =
    ap parse_parts (
      split-append b',' (range_text range) (ranges_text (next ∷ ranges))
        (no_comma (range_text range) (range_text-IsPart range)))
    ∙ parse_parts-cons range (split b',' (ranges_text (next ∷ ranges))) (next ∷ ranges) h.0
        (parse_parts-ranges_text (next ∷ ranges) h.1)

-- The text of ranges with numbers of a `u64`, none of them full, is read back as these ranges.
pub parse-ranges_text :
    (ranges : List Range)
    → All IsWritten ranges
    → parse (codes "bytes=" ++ ranges_text ranges) ≡ some ranges
unfolding parse starts_with
parse-ranges_text ranges h = parse_parts-ranges_text ranges h
