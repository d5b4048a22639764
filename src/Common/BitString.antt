-- ===== src/Common/BitString.antt =====
-- Numbers and byte strings as lists of bits, the highest bit first.
use Prim.Native.Nat.{ℕ, zero, suc, ◌*◌, ◌/◌, ◌^◌, bit_and}
use mathlib.Core.Path.{◌≡◌, refl, ap, sym, ◌∙◌}
use mathlib.Core.Bool.{Bool, true, false, ◌&&◌}
use mathlib.Core.List.{List, [], ◌∷◌, ◌++◌, append_assoc}
use native.Mathlib.Omega.{arith}
use servente.Common.Tests.{◌==◌}
use servente.Common.Lists.{Bytes, length}

abbrev pub Bits : Type 0
Bits = List Bool

-- The low `k` bits of a number.
abbrev pub code_bits : ℕ → ℕ → Bits
code_bits c zero = []
code_bits c (suc k) = (bit_and (c / 2 ^ k) 1 == 1) ∷ code_bits c k

abbrev pub byte_bits : ℕ → Bits
byte_bits b = code_bits b 8

abbrev pub bytes_bits : Bytes → Bits
bytes_bits [] = []
bytes_bits (b ∷ bs) = byte_bits b ++ bytes_bits bs

pub bytes_bits-append : (xs ys : Bytes) → bytes_bits (xs ++ ys) ≡ bytes_bits xs ++ bytes_bits ys
bytes_bits-append [] ys = refl
bytes_bits-append (x ∷ xs) ys =
    ap (◌++◌ (byte_bits x)) (bytes_bits-append xs ys)
    ∙ sym (append_assoc (byte_bits x) (bytes_bits xs) (bytes_bits ys))

pub length-code_bits : (c k : ℕ) → length (code_bits c k) ≡ k
length-code_bits c zero = refl
length-code_bits c (suc k) = ap suc (length-code_bits c k)

pub length-bytes_bits : (bs : Bytes) → length (bytes_bits bs) ≡ 8 * length bs
length-bytes_bits [] = omega arith
length-bytes_bits (b ∷ bs) = omega (arith, length-bytes_bits bs)

abbrev pub bit_eq : Bool → Bool → Bool
bit_eq true b = b
bit_eq false true = false
bit_eq false false = true

abbrev pub bits_eq : Bits → Bits → Bool
bits_eq [] [] = true
bits_eq (x ∷ xs) (y ∷ ys) = bit_eq x y && bits_eq xs ys
bits_eq _ _ = false

pub bits_eq→eq : (a b : Bits) → bits_eq a b ≡ true → a ≡ b
bits_eq→eq [] [] h = refl
bits_eq→eq [] (y ∷ b) h = ground arith
bits_eq→eq (x ∷ a) [] h = ground arith
bits_eq→eq (x ∷ a) (y ∷ b) h = ground (arith, bits_eq→eq a b)
