-- ===== src/Http/RequestTarget/Split.antt =====
-- `str::split_once` of the standard library at the first of its characters.
use servente.Common.{ℕ, ◌==◌, ◌≡◌, refl, arith, true, false, some, [], ◌∷◌, ◌++◌, Bytes, All}
use servente.Http.RequestTarget.{split_once}

pub split_once-append :
    (char : ℕ) (front back : Bytes)
    → All (λ b. (b == char) ≡ false) front
    → split_once (front ++ char ∷ back) char ≡ some (front, back)
unfolding split_once
split_once-append char [] back h = let same : (char == char) ≡ true = ground arith in rw same refl
split_once-append char (b ∷ front) back h = rw (h.0, split_once-append char front back h.1) refl
