-- ===== src/Http2/BitReader/View.antt =====
-- What a `BitReader` (servente-http2/src/hpack.rs) has still to give, as a list of bits.
use servente.Common.{
  ℕ, zero, suc, ◌+◌, ◌-◌, ◌*◌, ◌/◌, ◌^◌, ◌<◌, ◌≡◌, refl, ap, arith, Bool, true, false, none, some,
  [], ◌∷◌, ◌++◌, Bytes, ltb, ◌==◌, if◌then◌else◌, length, get_or, drop, length-drop, bit_and, inl,
  inr, Bool-cases,
}
use Prim.Native.Nat.add
use mathlib.Core.Path.{subst₂}
use servente.Common.BitString.{Bits, code_bits, bytes_bits}
use servente.Http2.BitReader.{BitReader, new, bits_left, next}

-- A reader of whole bytes.
pub record IsValid (r : BitReader) : Type 0 where
  pub whole : r.total_bits ≡ length r.buffer * 8
  pub bit : r.bit_cursor < 8

-- The low bits of the first byte, and the bytes behind it.
abbrev pub view_of : Bytes → ℕ → Bits
view_of [] b = []
view_of (x ∷ post) b = code_bits x (suc b) ++ bytes_bits post

abbrev pub view : BitReader → Bits
view r = view_of (drop r.byte_cursor r.buffer) r.bit_cursor

bits_left-nil : (r : BitReader) → IsValid r → drop r.byte_cursor r.buffer ≡ [] → bits_left r ≡ 0
unfolding bits_left
bits_left-nil r v e = ground (arith, length-drop r.byte_cursor r.buffer, ap (length {0}) e)

bits_left-cons :
    (r : BitReader) (x : ℕ) (post : Bytes)
    → IsValid r
    → drop r.byte_cursor r.buffer ≡ x ∷ post
    → bits_left r ≡ 8 * length post + r.bit_cursor + 1
unfolding bits_left
bits_left-cons r x post v e = ground (arith, length-drop r.byte_cursor r.buffer, ap (length {0}) e)

drop_suc :
    (xs : Bytes) (i x : ℕ) (post : Bytes)
    → drop i xs ≡ x ∷ post
    → (drop (i + 1) xs ≡ post) × (get_or xs i 0 ≡ x)
drop_suc [] zero x post e = cc
drop_suc [] (suc i) x post e = cc
drop_suc (y ∷ xs) zero x post e = ground arith
drop_suc (y ∷ xs) (suc i) x post e = rw (add.suc i 1) (drop_suc xs i x post e)

-- A step of the reader takes the first bit of its view.
pub record Steps (r : BitReader) (bit : Bool) (bits : Bits) : Type 0 where
  pub reader : BitReader
  pub steps : next r ≡ some (bit, reader)
  pub valid : IsValid reader
  pub left : view reader ≡ bits

pub next-nil : (r : BitReader) → IsValid r → view r ≡ [] → next r ≡ none
unfolding next
next-nil r v e = split (drop r.byte_cursor r.buffer) refl e
  where
    split :
        (l : Bytes) → drop r.byte_cursor r.buffer ≡ l → view_of l r.bit_cursor ≡ [] → next r ≡ none
    split [] d h = rw (bits_left-nil r v d)
    split (x ∷ post) d h = cc

-- The step inside a byte, and the step to the next byte.
inner_step :
    (r : BitReader) (x : ℕ) (post : Bytes)
    → IsValid r
    → drop r.byte_cursor r.buffer ≡ x ∷ post
    → (r.bit_cursor == 0) ≡ false
    → Steps r (bit_and (x / 2 ^ r.bit_cursor) 1 == 1) (code_bits x r.bit_cursor ++ bytes_bits post)
unfolding next
inner_step r x post v d inner =
    let more : (bits_left r == 0) ≡ false = ground (arith, bits_left-cons r x post v d) in
    let e : suc (r.bit_cursor - 1) ≡ r.bit_cursor = ground arith in
    record {
      reader = record r { bit_cursor = r.bit_cursor - 1 };
      steps = rw (inner, more, (drop_suc r.buffer r.byte_cursor x post d).1);
      valid = record { whole = v.whole; bit = omega (arith, v.bit) };
      left = rw d (ap (λ (k : ℕ). code_bits x k ++ bytes_bits post) e);
    }

next_byte :
    (post : Bytes)
    → view_of post (if ltb (8 * length post) 8 then 8 * length post else 7) ≡ bytes_bits post
next_byte [] = refl
next_byte (y ∷ post) = let whole : ltb (8 * suc (length post)) 8 ≡ false = ground arith in rw whole

last_step :
    (r : BitReader) (x : ℕ) (post : Bytes)
    → IsValid r
    → drop r.byte_cursor r.buffer ≡ x ∷ post
    → (r.bit_cursor == 0) ≡ true
    → Steps r (bit_and (x / 2 ^ r.bit_cursor) 1 == 1) (bytes_bits post)
unfolding next
last_step r x post v d last =
    let more : (bits_left r == 0) ≡ false = ground (arith, bits_left-cons r x post v d) in
    let left : bits_left r - 1 ≡ 8 * length post = ground (arith, bits_left-cons r x post v d) in
    record {
      reader = record r {
        byte_cursor = r.byte_cursor + 1;
        bit_cursor = if ltb (8 * length post) 8 then 8 * length post else 7;
      };
      steps = rw (last, more, left, (drop_suc r.buffer r.byte_cursor x post d).1);
      valid = record { whole = v.whole; bit = ground arith };
      left = rw ((drop_suc r.buffer r.byte_cursor x post d).0) (next_byte post);
    }

pub next-cons :
    (r : BitReader) (bit : Bool) (bits : Bits) → IsValid r → view r ≡ bit ∷ bits → Steps r bit bits
next-cons r bit bits v e = split (drop r.byte_cursor r.buffer) refl e
  where
    split :
        (l : Bytes)
        → drop r.byte_cursor r.buffer ≡ l
        → view_of l r.bit_cursor ≡ bit ∷ bits
        → Steps r bit bits
    split [] d h = cc
    split (x ∷ post) d h = elim (Bool-cases (r.bit_cursor == 0)) [
      | inl last ↦ subst₂ (Steps r) (ground arith) (ground arith) (last_step r x post v d last)
      | inr inner ↦ subst₂ (Steps r) (ground arith) (ground arith) (inner_step r x post v d inner)
    ]

pub new-IsValid : (bytes : Bytes) → IsValid (new bytes none)
unfolding new
new-IsValid bytes = omega arith

pub view-new : (bytes : Bytes) → view (new bytes none) ≡ bytes_bits bytes
unfolding new
view-new [] = refl
view-new (b ∷ bs) = refl
