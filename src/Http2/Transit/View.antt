-- ===== src/Http2/Transit/View.antt =====
-- What is left to read of a header block, and the readers of servente-http2/src/lib.rs on it.
use servente.Common.{
  ℕ, zero, suc, ◌+◌, ◌-◌, ◌≡◌, refl, sym, ap, ◌∙◌, arith, none, some, List, [], ◌∷◌, ◌++◌, Bytes,
  ltb, if◌then◌else◌, length, get_elem?, flatten, drop, length-drop,
}
use servente.Http2.Transit.{HeadersInTransit, peek_in, peek_u8, read_u8, remaining}
use Prim.Native.Nat.add
use native.Mathlib.Nat.{add_assoc}

-- The bytes not yet read, over all fragments.
abbrev pub rest : HeadersInTransit → Bytes
rest h = drop h.cursor (flatten h.headers)

abbrev pub advance : HeadersInTransit → ℕ → HeadersInTransit
advance h k = record h { cursor = h.cursor + k }

pub advance-advance : (h : HeadersInTransit) (a b : ℕ) → advance (advance h a) b ≡ advance h (a + b)
advance-advance h a b = λ i. record h { cursor = add_assoc h.cursor a b i }

module _ {ℓ} {A : Type ℓ} where
  get_elem?-append :
      (xs ys : List A) (i : ℕ)
      → get_elem? (xs ++ ys) i
        ≡ (if ltb i (length xs) then get_elem? xs i else get_elem? ys (i - length xs))
  get_elem?-append [] ys i = ground arith
  get_elem?-append (x ∷ xs) ys zero = ground arith
  get_elem?-append (x ∷ xs) ys (suc i) = ground (arith, get_elem?-append xs ys i)

  get_elem?-drop : (xs : List A) (i : ℕ) → get_elem? xs i ≡ get_elem? (drop i xs) 0
  get_elem?-drop [] zero = refl
  get_elem?-drop [] (suc i) = refl
  get_elem?-drop (x ∷ xs) zero = refl
  get_elem?-drop (x ∷ xs) (suc i) = get_elem?-drop xs i

  drop-nil : (n : ℕ) → drop {A = A} n [] ≡ []
  drop-nil zero = refl
  drop-nil (suc n) = refl

  pub drop-drop : (xs : List A) (i j : ℕ) → drop (i + j) xs ≡ drop j (drop i xs)
  drop-drop xs zero j = ground arith
  drop-drop [] (suc i) j = drop-nil (suc i + j) ∙ sym (drop-nil j)
  drop-drop (x ∷ xs) (suc i) j = rw (add.suc i j) (drop-drop xs i j)

peek_in-flatten : (vecs : List Bytes) (c : ℕ) → peek_in vecs c ≡ get_elem? (flatten vecs) c
unfolding peek_in
peek_in-flatten [] c = refl
peek_in-flatten (vec ∷ vecs) c =
    ground (arith, peek_in-flatten vecs (c - length vec), get_elem?-append vec (flatten vecs) c)

-- `peek_u8` gives the first byte left, whatever the fragments are.
pub peek_u8-rest : (h : HeadersInTransit) → peek_u8 h ≡ get_elem? (rest h) 0
unfolding peek_u8
peek_u8-rest h = peek_in-flatten h.headers h.cursor ∙ get_elem?-drop (flatten h.headers) h.cursor

pub rest-advance : (h : HeadersInTransit) (k : ℕ) → rest (advance h k) ≡ drop k (rest h)
rest-advance h k = drop-drop (flatten h.headers) h.cursor k

pub rest-advance_append :
    (h : HeadersInTransit) (xs more : Bytes)
    → rest h ≡ xs ++ more
    → rest (advance h (length xs)) ≡ more
rest-advance_append h xs more e =
    rest-advance h (length xs) ∙ ap (drop (length xs)) e ∙ drop_length xs
  where
    drop_length : (xs : Bytes) → drop (length xs) (xs ++ more) ≡ more
    drop_length [] = refl
    drop_length (x ∷ xs) = drop_length xs

pub remaining-rest : (h : HeadersInTransit) → remaining h ≡ length (rest h)
remaining-rest h = sym (length-drop h.cursor (flatten h.headers))

pub read_u8-cons :
    (h : HeadersInTransit) (b : ℕ) (bs : Bytes)
    → rest h ≡ b ∷ bs
    → read_u8 h ≡ some (b, advance h 1)
unfolding read_u8
read_u8-cons h b bs e = ground (arith, peek_u8-rest h, ap (λ (l : Bytes). get_elem? l 0) e)

pub read_u8-nil : (h : HeadersInTransit) → rest h ≡ [] → read_u8 h ≡ none
unfolding read_u8
read_u8-nil h e = ground (arith, peek_u8-rest h, ap (λ (l : Bytes). get_elem? l 0) e)
