-- ===== src/Common/Exec.antt =====
-- Code that changes a state and may fail: a failure keeps the state that was left.
use mathlib.Core.Path.{◌≡◌, refl, ap}
use mathlib.Core.Bool.{Bool, true, false}
use servente.Common.Tests.{if◌then◌else◌}
use servente.Common.Result.{Result, ok, err}

abbrev pub Exec : Type 0 → Type 0 → Type 0 → Type 0
Exec E S A = S → Result E A × S

abbrev pub continue_with : {E S A B : Type 0} → (A → Exec E S B) → Result E A × S → Result E B × S
continue_with k (err e, s) = (err e, s)
continue_with k (ok a, s) = k a s

unfoldable pub ◌>>=◌ : {E S A B : Type 0} → Exec E S A → (A → Exec E S B) → Exec E S B
(m >>= k) s = continue_with k (m s)

abbrev pub ◌>>◌ : {E S B : Type 0} → Exec E S (Unit {0}) → Exec E S B → Exec E S B
m >> next = m >>= λ u. next

infixl 5 ◌>>=◌ ◌>>◌
-- A step that succeeds goes on from its state.
pub >>=-ok :
    {E S A B : Type 0} (m : Exec E S A) (next : A → Exec E S B) {s s' : S} {a : A}
    → m s ≡ (ok a, s')
    → (m >>= next) s ≡ next a s'
unfolding ◌>>=◌
>>=-ok m next h = ap (continue_with next) h

module _ {E S : Type 0} where
  unfoldable pub return : {A : Type 0} → A → Exec E S A
  return a s = (ok a, s)

  unfoldable pub raise : {A : Type 0} → E → Exec E S A
  raise e s = (err e, s)

  unfoldable pub raise_if : Bool → E → Exec E S (Unit {0})
  raise_if test e s = if test then (err e, s) else (ok tt, s)

  unfoldable pub modify : (S → S) → Exec E S (Unit {0})
  modify f s = (ok tt, f s)

  -- A step that looks at the state first.
  unfoldable pub with_state : {A : Type 0} → (S → Exec E S A) → Exec E S A
  with_state f s = f s s

  -- Where a step ends: a condition on the state if it succeeds, and another if it fails.
  abbrev pub Ends : {A : Type 0} → (S → Type 0) → (S → Type 0) → Result E A × S → Type 0
  Ends Post Fail (ok a, s) = Post s
  Ends Post Fail (err e, s) = Fail s

  pub record Leads {A : Type 0} (Pre Post Fail : S → Type 0) (m : Exec E S A) : Type 0 where
    pub leads : (s : S) → Pre s → Ends Post Fail (m s)

  abbrev pub Keeps : {A : Type 0} → (S → Type 0) → Exec E S A → Type 0
  Keeps P m = Leads P P P m

  pub Leads-bind :
      {A B : Type 0} (Pre Mid Post Fail : S → Type 0) (first : Exec E S A) (next : A → Exec E S B)
      → Leads Pre Mid Fail first
      → ((value : A) → Leads Mid Post Fail (next value))
      → Leads Pre Post Fail (first >>= next)
  unfolding ◌>>=◌
  Leads-bind {A} {B} Pre Mid Post Fail first next hf hn = record {
    leads = λ s p. onwards (first s) (hf.leads s p);
  }
    where
      onwards : (r : Result E A × S) → Ends Mid Fail r → Ends Post Fail (continue_with next r)
      onwards (err e, s') p = p
      onwards (ok value, s') p = (hn value).leads s' p

  pub Leads-weaken :
      {A : Type 0} {Pre Pre' Post Fail Fail' : S → Type 0} (m : Exec E S A)
      → Leads Pre Post Fail m
      → ((s : S) → Pre' s → Pre s)
      → ((s : S) → Fail s → Fail' s)
      → Leads Pre' Post Fail' m
  Leads-weaken {A} {Pre} {Pre'} {Post} {Fail} {Fail'} m h pre fail = record {
    leads = λ s p. weaker (m s) (h.leads s (pre s p));
  }
    where
      weaker : (r : Result E A × S) → Ends Post Fail r → Ends Post Fail' r
      weaker (ok a, s) p = p
      weaker (err e, s) p = fail s p

  module _ (Pre Post Fail : S → Type 0) where
    pub Leads-return :
        {A : Type 0} (a : A) → ((s : S) → Pre s → Post s) → Leads Pre Post Fail (return a)
    unfolding return
    Leads-return a h = record { leads = h }

    pub Leads-raise :
        {A : Type 0} (e : E) → ((s : S) → Pre s → Fail s) → Leads Pre Post Fail (raise {A = A} e)
    unfolding raise
    Leads-raise e h = record { leads = h }

    pub Leads-modify : (f : S → S) → ((s : S) → Pre s → Post (f s)) → Leads Pre Post Fail (modify f)
    unfolding modify
    Leads-modify f h = record { leads = h }

    -- A step that looks at a part of the state first goes on from a state with this part.
    pub Leads-with_state :
        {A V : Type 0} (view : S → V) (f : V → Exec E S A)
        → ((v : V) → Leads (λ s. Pre s × (view s ≡ v)) Post Fail (f v))
        → Leads Pre Post Fail (with_state (λ s. f (view s)))
    unfolding with_state
    Leads-with_state view f h = record { leads = λ s p. (h (view s)).leads s (p, refl) }

    pub Leads-if :
        {A : Type 0} (test : Bool) (m m' : Exec E S A)
        → Leads Pre Post Fail m
        → Leads Pre Post Fail m'
        → Leads Pre Post Fail (if test then m else m')
    Leads-if true m m' h h' = h
    Leads-if false m m' h h' = h'

  pub Leads-raise_if :
      (Pre Fail : S → Type 0) (test : Bool) (e : E)
      → ((s : S) → Pre s → Fail s)
      → Leads Pre Pre Fail (raise_if test e)
  unfolding raise_if
  Leads-raise_if Pre Fail true e h = record { leads = h }
  Leads-raise_if Pre Fail false e h = record { leads = λ s p. p }
