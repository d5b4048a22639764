-- ===== src/Common/Decimal/RoundTrip.antt =====
-- `Display` and `FromStr` of `usize`, one behind the other.
use Prim.Native.Nat.{ℕ, zero, suc, ◌+◌, ◌-◌, ◌*◌, ◌/◌, ◌%◌, ◌^◌, ◌≤◌, ◌<◌}
use mathlib.Core.Path.{◌≡◌, refl, ap, sym, ◌∙◌}
use mathlib.Core.Logic.{inl, inr}
use mathlib.Core.Bool.{true, false, ◌&&◌}
use mathlib.Core.List.{[], ◌∷◌, ◌++◌, append_assoc, append-nil}
use mathlib.Core.Option.{some}
use native.Mathlib.Omega.{arith}
use servente.Common.Tests.{ltb, leb, ◌==◌, Bool-cases, ltb→lt}
use servente.Common.Lists.{Bytes, All-append, All, length, length-append}
use servente.Common.Decimal.{digits_of, decimal, parse_digits, parse_usize}

-- A digit is read onto the number so far.
parse_digits-digit :
    (acc d n : ℕ) (more : Bytes)
    → d < 10
    → acc * 10 + d ≡ n
    → n < 2 ^ 64
    → parse_digits acc ((d + b'0') ∷ more) ≡ parse_digits n more
unfolding parse_digits
parse_digits-digit acc d n more small sum fits =
    let value : acc * 10 + (d + b'0' - b'0') ≡ n = omega (arith, sum) in
    let passes : (leb b'0' (d + b'0') && leb (d + b'0') b'9' && ltb n (2 ^ 64)) ≡ true =
      ground arith in
    rw (value, passes) refl

-- The digits of a number, read from 0 on, give the number before what is behind.
parse_digits-digits_of :
    (fuel n : ℕ) (more : Bytes)
    → n < fuel
    → n < 2 ^ 64
    → parse_digits 0 (digits_of fuel n ++ more) ≡ parse_digits n more
unfolding digits_of
parse_digits-digits_of zero n more enough fits = absurd (omega arith)
parse_digits-digits_of (suc fuel) n more enough fits = elim (Bool-cases (ltb n 10)) [
  | inl one ↦ rw one (parse_digits-digit 0 n n more (ltb→lt n 10 one) (omega arith) fits)
  | inr longer ↦
      let large : 10 ≤ n = ground arith in
      rw longer (
        ap (parse_digits 0) (append_assoc (digits_of fuel (n / 10)) ((n % 10 + b'0') ∷ []) more)
        ∙ parse_digits-digits_of fuel (n / 10) ((n % 10 + b'0') ∷ more) (omega arith) (omega arith)
        ∙ parse_digits-digit (n / 10) (n % 10) n more (omega arith) (omega arith) fits)
]

unfoldable pub IsDigit : ℕ → Type 0
IsDigit c = (b'0' ≤ c) × (c ≤ b'9')

digits_of-IsDigit : (fuel n : ℕ) → All IsDigit (digits_of fuel n)
unfolding digits_of IsDigit
digits_of-IsDigit zero n = tt
digits_of-IsDigit (suc fuel) n = elim (Bool-cases (ltb n 10)) [
  | inl one ↦ rw one (let small = ltb→lt n 10 one in ((omega arith, omega arith), tt))
  | inr longer ↦ rw longer (
      All-append IsDigit (digits_of fuel (n / 10)) _ (digits_of-IsDigit fuel (n / 10))
        ((omega arith, omega arith), tt))
]

-- A text that starts with a digit has no sign.
parse_usize-parse_digits :
    (text : Bytes) → All IsDigit text → 0 < length text → parse_usize text ≡ parse_digits 0 text
unfolding parse_usize IsDigit
parse_usize-parse_digits [] digits some_digit = absurd (omega arith)
parse_usize-parse_digits (c ∷ []) digits some_digit = refl
parse_usize-parse_digits (c ∷ d ∷ text) digits some_digit =
    let digit = digits.0.0 in
    let no_sign : (c == b'+') ≡ false = ground (arith, digit) in rw no_sign refl

length-digits_of : (fuel n : ℕ) → n < fuel → 0 < length (digits_of fuel n)
unfolding digits_of
length-digits_of zero n h = absurd (omega arith)
length-digits_of (suc fuel) n h = elim (Bool-cases (ltb n 10)) [
  | inl one ↦ rw one (omega arith)
  | inr longer ↦
      rw longer (omega (arith, length-append (digits_of fuel (n / 10)) ((n % 10 + b'0') ∷ [])))
]

pub decimal-IsDigit : (n : ℕ) → All IsDigit (decimal n)
unfolding decimal
decimal-IsDigit n = digits_of-IsDigit (n + 1) n

pub length-decimal : (n : ℕ) → 0 < length (decimal n)
unfolding decimal
length-decimal n = length-digits_of (n + 1) n (omega arith)

-- Every number of a `usize` is read back from its digits.
pub parse_usize-decimal : (n : ℕ) → n < 2 ^ 64 → parse_usize (decimal n) ≡ some n
unfolding decimal parse_digits
parse_usize-decimal n fits =
    parse_usize-parse_digits (decimal n) (decimal-IsDigit n) (length-decimal n)
    ∙ ap (parse_digits 0) (sym (append-nil (decimal n)))
    ∙ parse_digits-digits_of (n + 1) n [] (omega arith) fits
