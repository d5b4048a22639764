-- ===== src/Common/Trim/Plain.antt =====
-- `str::trim` on texts without white space.
use Prim.Native.Nat.{ℕ, ◌<◌}
use mathlib.Core.Path.{◌≡◌, refl, ap, ◌∙◌}
use mathlib.Core.Bool.{false}
use mathlib.Core.List.{[], ◌∷◌, ◌++◌}
use native.Mathlib.Omega.{arith}
use servente.Common.Lists.{Bytes, All}
use servente.Common.Trim.{
  is_white, is_white_pair, is_white_triple, trim_start, trim_reversed, reverse, trim,
}

-- A visible character of ASCII.
unfoldable pub IsVisible : ℕ → Type 0
IsVisible c = (0x20 < c) × (c < 0x80)

not_white : (c : ℕ) → IsVisible c → is_white c ≡ false
unfolding is_white IsVisible
not_white c h = ground (arith, h)

not_white_pair : (a b : ℕ) → IsVisible a → is_white_pair a b ≡ false
unfolding is_white_pair IsVisible
not_white_pair a b h = ground (arith, h)

not_white_triple : (a b c : ℕ) → IsVisible a → is_white_triple a b c ≡ false
unfolding is_white_triple IsVisible
not_white_triple a b c h = ground (arith, h)

trim_start-plain : (text : Bytes) → All IsVisible text → trim_start text ≡ text
unfolding trim_start
trim_start-plain [] h = refl
trim_start-plain (a ∷ []) h = rw (not_white a h.0) refl
trim_start-plain (a ∷ b ∷ []) h = rw (trim_start, not_white a h.0, not_white_pair a b h.0) refl
trim_start-plain (a ∷ b ∷ c ∷ text) h =
    rw (trim_start, not_white a h.0, not_white_pair a b h.0, not_white_triple a b c h.0) refl

trim_reversed-plain : (text : Bytes) → All IsVisible text → trim_reversed text ≡ text
unfolding trim_reversed
trim_reversed-plain [] h = refl
trim_reversed-plain (a ∷ []) h = rw (not_white a h.0) refl
trim_reversed-plain (b ∷ a ∷ []) h =
    rw (trim_reversed, not_white b h.0, not_white_pair a b h.1.0) refl
trim_reversed-plain (c ∷ b ∷ a ∷ text) h =
    rw (trim_reversed, not_white c h.0, not_white_pair b c h.1.0, not_white_triple a b c h.1.1.0)
      refl

All-snoc {ℓ} : (P : ℕ → Type ℓ) (text : Bytes) (b : ℕ) → All P text → P b → All P (text ++ b ∷ [])
All-snoc P [] b h p = (p, tt)
All-snoc P (a ∷ text) b h p = (h.0, All-snoc P text b h.1 p)

pub All-reverse {ℓ} : (P : ℕ → Type ℓ) (text : Bytes) → All P text → All P (reverse text)
unfolding reverse
All-reverse P [] h = tt
All-reverse P (b ∷ text) h = All-snoc P (reverse text) b (All-reverse P text h.1) h.0

reverse-snoc : (text : Bytes) (b : ℕ) → reverse (text ++ b ∷ []) ≡ b ∷ reverse text
unfolding reverse
reverse-snoc [] b = refl
reverse-snoc (a ∷ text) b = ap (λ t. t ++ a ∷ []) (reverse-snoc text b)

pub reverse-reverse : (text : Bytes) → reverse (reverse text) ≡ text
unfolding reverse
reverse-reverse [] = refl
reverse-reverse (b ∷ text) = reverse-snoc (reverse text) b ∙ ap (◌∷◌ b) (reverse-reverse text)

pub trim-plain : (text : Bytes) → All IsVisible text → trim text ≡ text
unfolding trim
trim-plain text h =
    ap (λ t. reverse (trim_reversed (reverse t))) (trim_start-plain text h)
    ∙ ap reverse (trim_reversed-plain (reverse text) (All-reverse IsVisible text h))
    ∙ reverse-reverse text
