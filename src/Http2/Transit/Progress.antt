-- ===== src/Http2/Transit/Progress.antt =====
-- The moves of the cursor of `HeadersInTransit`, servente-http2/src/lib.rs.
use servente.Common.{
  ℕ, zero, suc, ◌+◌, ◌-◌, ◌^◌, ◌≤◌, ◌≡◌, refl, ◌∙◌, ap, arith, bit_and, not, Option, none, some,
  ltb, ◌==◌, Option-cases, Bool-cases, inl, inr,
}
use servente.Http2.Transit.{
  HeadersInTransit, peek_u8, read_u8, read_integer, read_integer_loop, remaining,
}

-- The same fragments, read at least as far.
pub record IsLater (h h' : HeadersInTransit) : Type 0 where
  pub headers : h'.headers ≡ h.headers
  pub cursor : h.cursor ≤ h'.cursor

pub IsLater-refl : (h : HeadersInTransit) → IsLater h h
IsLater-refl h = record { headers = refl; cursor = omega arith }

pub IsLater-trans : {h h1 h2 : HeadersInTransit} → IsLater h h1 → IsLater h1 h2 → IsLater h h2
IsLater-trans p q = record { headers = q.headers ∙ p.headers; cursor = omega arith }

-- An octet is read by one step of the cursor.
pub read_u8-cursor :
    (h : HeadersInTransit) (b : ℕ) (h' : HeadersInTransit)
    → read_u8 h ≡ some (b, h')
    → h' ≡ record h { cursor = h.cursor + 1 }
unfolding read_u8
read_u8-cursor h b h' e = elim (Option-cases (peek_u8 h)) [
  | inl q ↦ ground arith
  | inr (c, q) ↦ ground arith
]

-- Where reading gives something, the cursor it gives is later.
abbrev pub Moves {ℓ} : {A : Type ℓ} → HeadersInTransit → Option (A × HeadersInTransit) → Type 0
Moves h none = Unit
Moves h (some (a, h')) = IsLater h h'

pub Moves-trans {ℓ} :
    {A : Type ℓ} {h h1 : HeadersInTransit} (o : Option (A × HeadersInTransit))
    → IsLater h h1
    → Moves h1 o
    → Moves h o
Moves-trans none p q = tt
Moves-trans (some (a, h')) p q = IsLater-trans p q

pub read_u8-IsLater :
    (h : HeadersInTransit) (b : ℕ) (h' : HeadersInTransit) → read_u8 h ≡ some (b, h') → IsLater h h'
read_u8-IsLater h b h' e =
    let next = read_u8-cursor h b h' e in
    record { headers = ap (λ (g : HeadersInTransit). g.headers) next; cursor = ground arith }

read_integer_loop-Moves :
    (fuel i m : ℕ) (h : HeadersInTransit) → Moves h (read_integer_loop fuel i m h)
unfolding read_integer_loop
read_integer_loop-Moves zero i m h = tt
read_integer_loop-Moves (suc fuel) i m h = elim (Option-cases (read_u8 h)) [
  | inl q ↦ rw (q, read_integer_loop) tt
  | inr ((octet, h'), q) ↦
      let later = read_u8-IsLater h octet h' q in
      elim (Bool-cases (not (bit_and octet 0x80 == 0x80))) [
        | inl last ↦ rw (q, read_integer_loop, last) later
        | inr more ↦
            rw (q, read_integer_loop, more)
              (Moves-trans (read_integer_loop fuel _ _ h') later
                (read_integer_loop-Moves fuel _ _ h'))
      ]
]

pub read_integer-Moves :
    (first_byte n : ℕ) (h : HeadersInTransit) → Moves h (read_integer first_byte n h)
unfolding read_integer
read_integer-Moves first_byte n h = elim (Bool-cases (ltb first_byte (2 ^ n - 1))) [
  | inl small ↦ rw small (IsLater-refl h)
  | inr large ↦ rw large (read_integer_loop-Moves (remaining h) first_byte 0 h)
]
