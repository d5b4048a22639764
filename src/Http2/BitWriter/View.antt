-- ===== src/Http2/BitWriter/View.antt =====
-- What a `BitWriter` (servente-http2/src/hpack.rs) has taken, as a list of bits.
use servente.Common.{
  ℕ, zero, suc, ◌+◌, ◌-◌, ◌*◌, ◌/◌, ◌%◌, ◌^◌, ◌<◌, ◌≡◌, refl, sym, ap, ◌∙◌, arith, bit_or, Bool,
  true, false, not, ◌&&◌, ◌||◌, [], ◌∷◌, ◌++◌, append-nil, append_assoc, Bytes, ltb, ◌==◌,
  if◌then◌else◌, replicate, Bool-cases, inl, inr,
}
use servente.Common.Bits.{all_below, table_sound}
use servente.Common.BitString.{
  Bits, code_bits, byte_bits, bytes_bits, bytes_bits-append, bits_eq, bits_eq→eq,
}
use native.Mathlib.Nat.{div-one}
use servente.Http2.BitWriter.{BitWriter, new, push, finish}

-- Only the bits above the position are set.
pub record IsValid (w : BitWriter) : Type 0 where
  pub position : w.bit_position < 8
  pub byte : w.current_byte < 256
  pub clear : w.current_byte % 2 ^ (w.bit_position + 1) ≡ 0

-- The bits of the bytes written, and those of the byte that is being filled.
abbrev pub view : BitWriter → Bits
view w =
    bytes_bits w.written
    ++ code_bits (w.current_byte / 2 ^ (w.bit_position + 1)) (7 - w.bit_position)

abbrev pushed_byte : ℕ → ℕ → Bool → ℕ
pushed_byte byte position value = bit_or byte ((if value then 1 else 0) * 2 ^ position % 256)

-- One push, on the byte and the position alone.
push_checks : ℕ → ℕ → Bool → Bool
push_checks position byte value =
    let byte' = pushed_byte byte position value in
    bits_eq (code_bits (byte' / 2 ^ position) (8 - position))
      (code_bits (byte / 2 ^ (position + 1)) (7 - position) ++ value ∷ [])
    && (byte' % 2 ^ position == 0)
    && ltb byte' 256

unchecked : ℕ → ℕ → Bool
unchecked position byte = not (byte % 2 ^ (position + 1) == 0)

push_table :
    (all_below 8 λ position. all_below 256 λ byte.
      unchecked position byte || push_checks position byte true && push_checks position byte false)
    ≡ true
unfolding all_below push_checks unchecked
push_table = refl

push_row :
    (position byte : ℕ)
    → position < 8
    → byte < 256
    → (unchecked position byte || push_checks position byte true && push_checks position byte false)
      ≡ true
push_row position byte =
    table_sound 8 256
      (λ position byte.
        unchecked position byte
        || push_checks position byte true && push_checks position byte false)
      position byte push_table

push_lem :
    (position byte : ℕ) (value : Bool)
    → position < 8
    → byte < 256
    → byte % 2 ^ (position + 1) ≡ 0
    → push_checks position byte value ≡ true
unfolding unchecked
push_lem position byte true hp hb clear = ground (arith, push_row position byte hp hb)
push_lem position byte false hp hb clear = ground (arith, push_row position byte hp hb)

finish_checks : ℕ → ℕ → Bool
finish_checks position byte =
    bits_eq (byte_bits (bit_or byte (2 ^ (position + 1) - 1)))
      (code_bits (byte / 2 ^ (position + 1)) (7 - position) ++ replicate (position + 1) true)

finish_table :
    (all_below 8
      λ position. all_below 256 λ byte. unchecked position byte || finish_checks position byte)
    ≡ true
unfolding all_below finish_checks unchecked
finish_table = refl

finish_lem :
    (position byte : ℕ)
    → position < 8
    → byte < 256
    → byte % 2 ^ (position + 1) ≡ 0
    → finish_checks position byte ≡ true
unfolding unchecked
finish_lem position byte hp hb clear = ground (
  arith,
  table_sound 8 256 (λ position byte. unchecked position byte || finish_checks position byte)
      position byte finish_table hp hb,
)

finish_row :
    (position byte : ℕ)
    → position < 8
    → byte < 256
    → byte % 2 ^ (position + 1) ≡ 0
    → bits_eq
        (byte_bits (bit_or byte (2 ^ (position + 1) - 1)))
        (code_bits (byte / 2 ^ (position + 1)) (7 - position) ++ replicate (position + 1) true)
      ≡ true
unfolding finish_checks
finish_row = finish_lem

pub new-IsValid : (bytes : Bytes) → IsValid (new bytes)
unfolding new
new-IsValid bytes = omega arith

pub view-new : (bytes : Bytes) → view (new bytes) ≡ bytes_bits bytes
unfolding new
view-new bytes = append-nil (bytes_bits bytes)

-- What the table says of one push.
pushed_bits :
    (position byte : ℕ) (value : Bool)
    → position < 8
    → byte < 256
    → byte % 2 ^ (position + 1) ≡ 0
    → (code_bits (pushed_byte byte position value / 2 ^ position) (8 - position)
        ≡ code_bits (byte / 2 ^ (position + 1)) (7 - position) ++ value ∷ [])
      × (pushed_byte byte position value % 2 ^ position ≡ 0)
      × (pushed_byte byte position value < 256)
unfolding push_checks
pushed_bits position byte value hp hb clear =
    let byte' = pushed_byte byte position value in
    let expected = code_bits (byte / 2 ^ (position + 1)) (7 - position) ++ value ∷ [] in
    ground (
      arith,
      push_lem position byte value hp hb clear,
      bits_eq→eq (code_bits (byte' / 2 ^ position) (8 - position)) expected,
    )

-- A push keeps the writer valid and appends the bit.
pub push-IsValid : (w : BitWriter) (value : Bool) → IsValid w → IsValid (push w value)
unfolding push
push-IsValid w value v =
    let (bits, clear, byte) =
      pushed_bits w.bit_position w.current_byte value v.position v.byte v.clear in
    elim (Bool-cases (w.bit_position == 0)) [
      | inl last ↦ rw last (omega arith)
      | inr inner ↦
          let e : w.bit_position - 1 + 1 ≡ w.bit_position = ground arith in
          rw (inner) (record { position = omega arith; byte = byte; clear = rw e clear })
    ]

-- A byte that is full.
full_byte : (b p : ℕ) → p ≡ 0 → code_bits (b / 2 ^ p) (8 - p) ++ [] ≡ byte_bits b ++ []
full_byte b zero e = ap (λ (t : ℕ). code_bits t 8 ++ []) (div-one b)
full_byte b (suc p) e = absurd (omega arith)

-- A byte that is empty.
empty_byte : (b p : ℕ) → p ≡ 7 → code_bits (b / 2 ^ (p + 1)) (7 - p) ≡ []
empty_byte b p e = rw e

pub view-push :
    (w : BitWriter) (value : Bool) → IsValid w → view (push w value) ≡ view w ++ value ∷ []
unfolding push
view-push w value v =
    let (bits, clear, byte) =
      pushed_bits w.bit_position w.current_byte value v.position v.byte v.clear in
    let byte' = pushed_byte w.current_byte w.bit_position value in
    elim (Bool-cases (w.bit_position == 0)) [
      | inl last ↦ rw last (
          append-nil _
          ∙ bytes_bits-append w.written (byte' ∷ [])
          ∙ ap (◌++◌ (bytes_bits w.written))
              (sym (full_byte byte' w.bit_position (ground arith)) ∙ append-nil _ ∙ bits)
          ∙ sym (append_assoc (bytes_bits w.written) _ _))
      | inr inner ↦
          let e : w.bit_position - 1 + 1 ≡ w.bit_position = ground arith in
          let f : 7 - (w.bit_position - 1) ≡ 8 - w.bit_position = omega (arith, e) in
          rw (inner, e, f, bits) (sym (append_assoc (bytes_bits w.written) _ _))
    ]

-- Finishing fills the last byte up with ones, fewer than eight.
pub view-finish :
    (w : BitWriter)
    → IsValid w
    → (k : ℕ) × (k < 8) × (bytes_bits (finish w) ≡ view w ++ replicate k true)
unfolding finish
view-finish w v = elim (Bool-cases (w.bit_position == 7)) [
  | inl whole ↦ (
    0,
    omega arith,
    rw whole (
        sym (append-nil _)
        ∙ ap (λ (l : Bits). bytes_bits w.written ++ l)
            (sym (empty_byte w.current_byte w.bit_position (ground arith)))
        ∙ sym (append-nil _)),
  )
  | inr part ↦ (
    w.bit_position + 1,
    ground (arith, v.position),
    rw part (
        bytes_bits-append w.written (_ ∷ [])
        ∙ ap (◌++◌ (bytes_bits w.written)) (append-nil _ ∙ filled)
        ∙ sym (append_assoc (bytes_bits w.written) _ _)),
  )
]
  where
    filled :
        byte_bits (bit_or w.current_byte (2 ^ (w.bit_position + 1) - 1))
        ≡ code_bits (w.current_byte / 2 ^ (w.bit_position + 1)) (7 - w.bit_position)
          ++ replicate (w.bit_position + 1) true
    filled = bits_eq→eq _ _ (finish_row w.bit_position w.current_byte v.position v.byte v.clear)
