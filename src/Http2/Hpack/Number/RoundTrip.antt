-- ===== src/Http2/Hpack/Number/RoundTrip.antt =====
-- `read_integer` (servente-http2/src/lib.rs) on what `write_hpack_number` wrote.
use servente.Common.{
  ℕ, zero, suc, ◌+◌, ◌-◌, ◌*◌, ◌/◌, ◌%◌, ◌^◌, ◌≤◌, ◌<◌, ◌≡◌, ◌≢◌, ap, ◌∙◌, arith, bit_and, not,
  some, ◌∷◌, ◌++◌, Bytes, ltb, ◌==◌, Bool-cases, inl, inr, if◌then◌else◌, length, drop,
  length-append,
}
use servente.Common.Bits.{and_7f, and_80, or_prefix, two_pow_pos}
use servente.Http2.Transit.{HeadersInTransit, read_u8, read_integer, read_integer_loop, remaining}
use servente.Http2.Transit.View.{rest, advance, rest-advance, remaining-rest, read_u8-cons}
use servente.Http2.Hpack.Number.{write_groups, write_hpack_number}
use native.Mathlib.Numerals.{towards_suc}
use native.Mathlib.Nat.{div-add-mod}

-- One round of the loop, on the next byte that is left.
read_integer_loop_step :
    (fuel i m : ℕ) (h : HeadersInTransit) (b : ℕ) (bs : Bytes)
    → rest h ≡ b ∷ bs
    → read_integer_loop (suc fuel) i m h ≡ (
        let i' = (i + bit_and b 0x7f * (2 ^ m % 2 ^ 64) % 2 ^ 64) % 2 ^ 64 in
        if not (bit_and b 0x80 == 0x80)
        then some (i', advance h 1)
        else read_integer_loop fuel i' ((m + 7) % 2 ^ 32) (advance h 1))
unfolding read_integer_loop
read_integer_loop_step fuel i m h b bs e =
    rw (read_u8-cons h b bs e, read_integer_loop) (ground arith)

shift_seven : (s : ℕ) → 2 ^ (s + 7) ≡ 128 * 2 ^ s
shift_seven s = simp towards_suc (omega arith)

split_group : (v s : ℕ) → v * 2 ^ s ≡ v % 128 * 2 ^ s + v / 128 * 2 ^ (s + 7)
split_group v s = omega (
  arith,
  ap (λ (t : ℕ). t * 2 ^ s) (div-add-mod v 128),
  ap (λ (t : ℕ). v / 128 * t) (shift_seven s),
)

last_group :
    (fuel i m w : ℕ) (h : HeadersInTransit) (bs : Bytes)
    → w < 128
    → 2 ^ m < 2 ^ 64
    → i + w * 2 ^ m < 2 ^ 64
    → rest h ≡ w ∷ bs
    → read_integer_loop (suc fuel) i m h ≡ some (i + w * 2 ^ m, advance h 1)
last_group fuel i m w h bs hw hm fits e =
    ground (arith, read_integer_loop_step fuel i m h w bs e, and_7f w, and_80 w)

inner_group :
    (fuel i m g : ℕ) (h : HeadersInTransit) (bs : Bytes)
    → g < 128
    → 2 ^ m < 2 ^ 64
    → m ≤ 63
    → i + g * 2 ^ m < 2 ^ 64
    → rest h ≡ (g + 128) ∷ bs
    → read_integer_loop (suc fuel) i m h
      ≡ read_integer_loop fuel (i + g * 2 ^ m) (m + 7) (advance h 1)
inner_group fuel i m g h bs hg hm small fits e =
    ground
      (arith, read_integer_loop_step fuel i m h (g + 128) bs e, and_7f (g + 128), and_80 (g + 128))

-- With 128 or more left, the shift is not yet 63, and the next one is below 64 as well.
next_shift :
    (v j : ℕ) → 128 ≤ v → j ≤ 9 → v * 2 ^ (7 * j) < 2 ^ 64 → (j ≤ 8) × (2 ^ (7 * (j + 1)) < 2 ^ 64)
next_shift v j hv hj fits =
    let grown : 128 * 2 ^ (7 * j) ≤ v * 2 ^ (7 * j) = grind arith in
    let shift : 2 ^ (7 * (j + 1)) ≡ 128 * 2 ^ (7 * j) =
      ap (λ (t : ℕ). 2 ^ t) (omega arith) ∙ shift_seven (7 * j) in
    let ne9 : j ≢ 9 = λ e. absurd (omega (arith, rw e at grown, rw e at fits)) in
    (omega arith, omega (arith, shift))

-- The value left counts from bit `7 * j` on, and the loop has the rounds for what was written.
read_integer_loop-write_groups :
    (f v fuel i j : ℕ) (h : HeadersInTransit) (more : Bytes)
    → v < f
    → j ≤ 9
    → 2 ^ (7 * j) < 2 ^ 64
    → i + v * 2 ^ (7 * j) < 2 ^ 64
    → length (write_groups f v) ≤ fuel
    → rest h ≡ write_groups f v ++ more
    → read_integer_loop fuel i (7 * j) h
      ≡ some (i + v * 2 ^ (7 * j), advance h (length (write_groups f v)))
unfolding write_groups
read_integer_loop-write_groups zero v fuel i j h more lt hj p fits hf e = absurd (omega arith)
read_integer_loop-write_groups (suc f) v zero i j h more lt hj p fits hf e = absurd (ground arith)
read_integer_loop-write_groups (suc f) v (suc fuel) i j h more lt hj p fits hf e =
    elim (Bool-cases (ltb v 128)) [
      | inl last ↦ rw last (last_group fuel i (7 * j) v h more (ground arith) p fits (ground arith))
      | inr inner ↦
          let first : rest h ≡ (v % 128 + 128) ∷ (write_groups f (v / 128) ++ more) =
            ground arith in
          let (hj', p') = next_shift v j (ground arith) hj (omega arith) in
          let split = split_group v (7 * j) in
          let shift : 2 ^ (7 * (j + 1)) ≡ 2 ^ (7 * j + 7) = ap (λ (t : ℕ). 2 ^ t) (omega arith) in
          let sum : i + v % 128 * 2 ^ (7 * j) + v / 128 * 2 ^ (7 * (j + 1)) ≡ i + v * 2 ^ (7 * j) =
            rw shift (omega arith) in
          rw inner (
            inner_group fuel i (7 * j) (v % 128) h (write_groups f (v / 128) ++ more) (omega arith)
              p (omega arith) (omega (arith, split)) first
            ∙ ap (λ (t : ℕ). read_integer_loop fuel (i + v % 128 * 2 ^ (7 * j)) t (advance h 1))
                (omega arith)
            ∙ read_integer_loop-write_groups f (v / 128) fuel (i + v % 128 * 2 ^ (7 * j)) (j + 1)
                (advance h 1) more (ground arith) (omega arith) p' (omega arith) (ground arith)
                (rest-advance h 1 ∙ ap (drop 1) first)
            ∙ ground (arith, sum))
    ]

-- Reading back what was written, with anything behind it.
-- For a prefix size of 1 to 8 bits, a prefix octet that leaves these bits free and a `usize` value,
-- the first octet written has the prefix above its low `n` bits, and `read_integer` on those bits
-- and the bytes that follow gives the value and has moved on to the first byte behind the number.
pub read_integer-write_hpack_number :
    (value n prefix : ℕ) (h : HeadersInTransit) (more : Bytes)
    → n ≤ 8
    → prefix < 256
    → prefix % 2 ^ n ≡ 0
    → value < 2 ^ 64
    → rest h ≡ write_hpack_number value n prefix ++ more
    → (b : ℕ) × (read_u8 h ≡ some (b, advance h 1))
      × (b < 256)
      × (b / 2 ^ n ≡ prefix / 2 ^ n)
      × (read_integer (bit_and b (2 ^ n - 1)) n (advance h 1)
          ≡ some (value, advance h (length (write_hpack_number value n prefix))))
unfolding write_hpack_number read_integer
read_integer-write_hpack_number value n prefix h more hn hp hz hv e =
    elim (Bool-cases (ltb value (2 ^ n - 1))) [
      | inl small ↦
          let (joined, room, low, high) = or_prefix n prefix value hn hp hz (ground arith) in
          let fits : value % 256 ≡ value = omega arith in
          let first : rest h ≡ (prefix + value) ∷ more = e ∙ rw (small, fits, joined) in
          (prefix + value, read_u8-cons h _ more first, room, high, rw (low, small))
      | inr large ↦
          let max : ℕ = 2 ^ n - 1 in
          let groups : Bytes = write_groups (value - max + 1) (value - max) in
          let (joined, room, low, high) =
            or_prefix n prefix max hn hp hz (omega (arith, two_pow_pos n)) in
          let fits : max % 256 ≡ max = omega arith in
          let first : rest h ≡ (prefix + max) ∷ (groups ++ more) = e ∙ rw (large, fits, joined) in
          let tail : rest (advance h 1) ≡ groups ++ more = rest-advance h 1 ∙ ap (drop 1) first in
          let enough : length groups ≤ remaining (advance h 1) = omega (
            arith,
            remaining-rest (advance h 1),
            ap (length {0}) tail,
            length-append groups more,
          ) in
          let loop : read_integer_loop (remaining (advance h 1)) max 0 (advance h 1)
              ≡ some (value, advance h (1 + length groups)) =
            read_integer_loop-write_groups (value - max + 1) (value - max) (remaining (advance h 1))
              max 0 (advance h 1) more (omega arith) (omega arith) (omega arith) (omega arith)
              enough tail
            ∙ ground arith in
          (
            prefix + max,
            read_u8-cons h _ _ first,
            room,
            high,
            rw (low, large) (ground (arith, loop)),
          )
    ]
