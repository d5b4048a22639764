-- ===== src/Http2/Validate/Laws.antt =====
-- What the checks of servente-http2/src/hpack.rs let through.
use servente.Common.{
  ℕ, ◌≤◌, ◌≡◌, ◌↔◌, refl, arith, Bool, true, false, not, ◌&&◌, ◌||◌, Option, none, [], ◌∷◌, Bytes,
  codes, bytes_eq, All, Option-cases, inl, inr,
}
use servente.Common.Result.{ok, ◌>>◌, fail_if}
use servente.Http.RequestTarget.{starts_with}
use servente.Http2.Errors.{DecompressionError}
use servente.Http2.Validate.{
  first_error, name_byte, value_byte, validate_header_name, validate_header_value, is_empty,
  ends_with,
}

first_error_iff :
    (arm : ℕ → Option DecompressionError) (cs : Bytes)
    → first_error arm cs ≡ ok tt ↔ All (λ c. arm c ≡ none) cs
unfolding first_error
first_error_iff arm [] = (λ h. tt, λ h. refl)
first_error_iff arm (c ∷ cs) = elim (Option-cases (arm c)) [
  | inl q ↦
      let (to, from) = first_error_iff arm cs in
      rw (q, first_error) (λ h. (refl, to h), λ h. from (let (x, y) = h in y))
  | inr (e, q) ↦ rw (q, first_error) (λ h. cc, λ h. cc)
]

-- The bytes of a name that pass: none up to 0x19, no space, no upper case letter, and none from
-- 0x7f to 0xff.
pub record IsNameByte (c : ℕ) : Type 0 where
  pub visible : 0x1a ≤ c
  pub space : c ≡ 0x20 → ⊥
  pub uppercase : 0x41 ≤ c → c ≤ 0x5a → ⊥
  pub ascii : 0x7f ≤ c → c ≤ 0xff → ⊥

name_byte_iff : (c : ℕ) → name_byte c ≡ none ↔ IsNameByte c
unfolding name_byte
name_byte_iff c = (
  λ h. record {
    visible = ground arith;
    space = λ e. ground arith;
    uppercase = λ p q. ground arith;
    ascii = λ p q. ground arith;
  },
  λ p.
      let v = p.visible in
      let s = p.space in let u = p.uppercase in let a = p.ascii in ground arith,
)

value_byte_iff : (c : ℕ) → value_byte c ≡ none ↔ (c ≡ 0 → ⊥) × (c ≡ 10 → ⊥) × (c ≡ 13 → ⊥)
unfolding value_byte
value_byte_iff c =
    (λ h. (λ e. ground arith, λ e. ground arith, λ e. ground arith), λ p. ground arith)

All-iff : (P Q : ℕ → Type 0) → ((c : ℕ) → P c ↔ Q c) → (cs : Bytes) → All P cs ↔ All Q cs
All-iff P Q f [] = (λ h. h, λ h. h)
All-iff P Q f (c ∷ cs) =
    let (to, from) = f c in
    let (to', from') = All-iff P Q f cs in
    (λ h. let (p, ps) = h in (to p, to' ps), λ h. let (q, qs) = h in (from q, from' qs))

-- Two tests and a loop over the bytes.
guards_iff :
    (a b : Bool) (e f : DecompressionError) (arm : ℕ → Option DecompressionError) (P : ℕ → Type 0)
    → ((c : ℕ) → arm c ≡ none ↔ P c)
    → (cs : Bytes)
    → (fail_if a e >> (fail_if b f >> first_error arm cs)) ≡ ok tt
      ↔ (a ≡ false) × (b ≡ false) × All P cs
guards_iff true b e f arm P q cs = (λ h. cc, λ h. cc)
guards_iff false true e f arm P q cs = (λ h. cc, λ h. cc)
guards_iff false false e f arm P q cs =
    let (to, from) = first_error_iff arm cs in
    let (to', from') = All-iff (λ c. arm c ≡ none) P q cs in
    (λ h. (refl, refl, to' (to h)), λ h. let (x, y, z) = h in from (from' z))

-- A name passes exactly if it is not empty, starts with a colon only as ":protocol", and has only
-- the bytes that pass.
pub validate_header_name_iff :
    (name : Bytes)
    → validate_header_name name ≡ ok tt
      ↔ (is_empty name ≡ false)
        × ((starts_with name (codes ":") && not (bytes_eq name (codes ":protocol"))) ≡ false)
        × All IsNameByte name
unfolding validate_header_name
validate_header_name_iff name = guards_iff _ _ _ _ name_byte IsNameByte name_byte_iff name

-- A value passes exactly if it neither starts nor ends with a space or a tab and has no NUL, no
-- line feed and no carriage return.
pub validate_header_value_iff :
    (value : Bytes)
    → validate_header_value value ≡ ok tt
      ↔ ((starts_with value (codes " ") || starts_with value (9 ∷ [])) ≡ false)
        × ((ends_with value b' ' || ends_with value 9) ≡ false)
        × All (λ c. (c ≡ 0 → ⊥) × (c ≡ 10 → ⊥) × (c ≡ 13 → ⊥)) value
unfolding validate_header_value
validate_header_value_iff value = guards_iff _ _ _ _ value_byte _ value_byte_iff value
