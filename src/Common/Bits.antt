-- ===== src/Common/Bits.antt =====
-- Checks over a finite range by evaluation, and the masks of a byte as arithmetic.
use Prim.Native.Nat.{ℕ, zero, suc, ◌+◌, ◌*◌, ◌/◌, ◌%◌, ◌<◌, ◌≤◌, ◌^◌, ◌-◌, bit_and, bit_or}
use mathlib.Core.Path.{◌≡◌, refl, sym, ap, ◌∙◌}
use mathlib.Core.Bool.{Bool, true, ◌&&◌}
use native.Mathlib.Omega.{arith}
use servente.Common.Tests.{◌==◌, ==_iff, leb, leb→le}
use native.Mathlib.Nat.{
  pow-suc, div-add-mod, mod-add-mod, mod-eq_of_lt, zero-add, mul-add-div_right, div-eq_of_lt,
}

abbrev pub IsByte : ℕ → Type 0
IsByte b = b < 256

pub two_pow_pos : (n : ℕ) → 0 < 2 ^ n
two_pow_pos zero = omega arith
two_pow_pos (suc n) = omega (arith, pow-suc 2 n, two_pow_pos n)

unfoldable pub all_below : ℕ → (ℕ → Bool) → Bool
all_below zero test = true
all_below (suc bound) test = all_below bound test && test bound

pub all_below_sound :
    (bound : ℕ) (test : ℕ → Bool) (value : ℕ)
    → all_below bound test ≡ true
    → value < bound
    → test value ≡ true
unfolding all_below
all_below_sound (suc bound) test value all less = ground (arith, all_below_sound bound test value)
all_below_sound zero test value all less = absurd (omega arith)

-- The same over pairs.
pub table_sound :
    (m n : ℕ) (p : ℕ → ℕ → Bool) (x y : ℕ)
    → all_below m (λ a. all_below n (p a)) ≡ true
    → x < m
    → y < n
    → p x y ≡ true
table_sound m n p x y h hx hy =
    all_below_sound n (p x) y (all_below_sound m (λ a. all_below n (p a)) x h hx) hy

-- Two functions that agree on every value below `n`.
pub agree_below :
    (n : ℕ) (f g : ℕ → ℕ) → all_below n (λ x. f x == g x) ≡ true → (x : ℕ) → x < n → f x ≡ g x
agree_below n f g h x lt = (==_iff (f x) (g x)).0 (all_below_sound n (λ x. f x == g x) x h lt)

pub and_7f : (b : ℕ) → b < 256 → bit_and b 0x7f ≡ b % 128
unfolding all_below
and_7f = agree_below 256 _ _ refl

pub and_80 : (b : ℕ) → b < 256 → bit_and b 0x80 ≡ b / 128 * 128
unfolding all_below
and_80 = agree_below 256 _ _ refl

pub or_80 : (b : ℕ) → b < 128 → bit_or 0x80 b ≡ b + 128
unfolding all_below
or_80 = agree_below 128 _ _ refl

pub or_0 : (b : ℕ) → b < 256 → bit_or 0 b ≡ b
unfolding all_below
or_0 = agree_below 256 _ _ refl

-- The low `n` bits of a byte, and the bits above them.
mask_table :
    all_below 9 (λ n. all_below 256 (λ b. bit_or (b / 2 ^ n * 2 ^ n) (b % 2 ^ n) == b)) ≡ true
unfolding all_below
mask_table = refl

low_table : all_below 9 (λ n. all_below 256 (λ b. bit_and b (2 ^ n - 1) == b % 2 ^ n)) ≡ true
unfolding all_below
low_table = refl

pub or_low_bits : (n b : ℕ) → n ≤ 8 → b < 256 → bit_or (b / 2 ^ n * 2 ^ n) (b % 2 ^ n) ≡ b
or_low_bits n b hn hb = (==_iff (bit_or (b / 2 ^ n * 2 ^ n) (b % 2 ^ n)) b).0 (
    table_sound 9 256 (λ n b. bit_or (b / 2 ^ n * 2 ^ n) (b % 2 ^ n) == b) n b mask_table
      (omega arith) hb)

pub and_low_bits : (n b : ℕ) → n ≤ 8 → b < 256 → bit_and b (2 ^ n - 1) ≡ b % 2 ^ n
and_low_bits n b hn hb =
    (==_iff (bit_and b (2 ^ n - 1)) (b % 2 ^ n)).0
      (table_sound 9 256 (λ n b. bit_and b (2 ^ n - 1) == b % 2 ^ n) n b low_table (omega arith) hb)

-- The next multiple of 2 ^ n is still at most 256.
room_table : all_below 9 (λ n. all_below 256 (λ b. leb (b / 2 ^ n * 2 ^ n + 2 ^ n) 256)) ≡ true
unfolding all_below
room_table = refl

low_bits_room : (n b : ℕ) → n ≤ 8 → b < 256 → b / 2 ^ n * 2 ^ n + 2 ^ n ≤ 256
low_bits_room n b hn hb =
    leb→le (b / 2 ^ n * 2 ^ n + 2 ^ n) 256 (
      table_sound 9 256 (λ n b. leb (b / 2 ^ n * 2 ^ n + 2 ^ n) 256) n b room_table (omega arith)
        hb)

-- A prefix with `n` low zeros takes any value of `n` bits below it.
pub or_prefix :
    (n prefix x : ℕ)
    → n ≤ 8
    → prefix < 256
    → prefix % 2 ^ n ≡ 0
    → x < 2 ^ n
    → (bit_or prefix x ≡ prefix + x)
      × (prefix + x < 256)
      × (bit_and (prefix + x) (2 ^ n - 1) ≡ x)
      × ((prefix + x) / 2 ^ n ≡ prefix / 2 ^ n)
or_prefix n prefix x hn hp hz hx =
    let whole : prefix / 2 ^ n * 2 ^ n ≡ prefix = grind (arith, div-add-mod prefix (2 ^ n)) in
    let room : prefix + x < 256 = omega (arith, low_bits_room n prefix hn hp) in
    let low : (prefix + x) % 2 ^ n ≡ x =
      sym (mod-add-mod prefix (2 ^ n) x)
      ∙ ap (λ (t : ℕ). (t + x) % 2 ^ n) hz
      ∙ ap (λ (t : ℕ). t % 2 ^ n) (zero-add x)
      ∙ mod-eq_of_lt hx in
    let high : (prefix + x) / 2 ^ n ≡ prefix / 2 ^ n =
      ap (λ (t : ℕ). (t + x) / 2 ^ n) (sym whole)
      ∙ mul-add-div_right (omega (arith, hx)) (prefix / 2 ^ n) x
      ∙ omega (arith, div-eq_of_lt hx) in
    (
      rw low at (rw (high, whole) at (or_low_bits n (prefix + x) hn room)),
      room,
      and_low_bits n (prefix + x) hn room ∙ low,
      high,
    )
