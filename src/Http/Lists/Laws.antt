-- ===== src/Http/Lists/Laws.antt =====
-- What the best match of a weighted list is.
use mathlib.Core.Path.{subst}
use servente.Common.{
  ℕ, zero, suc, ◌+◌, ◌≡◌, ◌⊎◌, refl, sym, arith, true, false, Option, none, some, List, [], ◌∷◌,
  ◌++◌, Bytes, append_assoc, append-nil, length, length-append, get_elem?, All, All-append,
  Bool-cases, inl, inr, bytes_eq, codes,
}
use servente.Common.Ascii.{eq_ignore_ascii_case}
use servente.Http.Lists.{
  Weights, HttpWeightedValue, best_match, match_index, next_match, first_weight,
  find_best_match_in_weighted_list, parse_http_weighted_list,
}

get_elem?-append {ℓ} :
    {A : Type ℓ} (xs ys : List A) (i : ℕ) (a : A)
    → get_elem? xs i ≡ some a
    → get_elem? (xs ++ ys) i ≡ some a
get_elem?-append [] ys i a h = absurd (cc)
get_elem?-append (x ∷ xs) ys zero a h = h
get_elem?-append (x ∷ xs) ys (suc i) a h = get_elem?-append xs ys i a h

get_elem?-last {ℓ} :
    {A : Type ℓ} (xs : List A) (a : A) → get_elem? (xs ++ a ∷ []) (length xs) ≡ some a
get_elem?-last [] a = refl
get_elem?-last (x ∷ xs) a = get_elem?-last xs a

All-map {ℓ} :
    {A : Type ℓ} (P Q : A → Type 0) (xs : List A) → ((a : A) → P a → Q a) → All P xs → All Q xs
All-map P Q [] f h = tt
All-map P Q (x ∷ xs) f h = (f x h.0, All-map P Q xs f h.1)

module _ {Weight : Type 0} (w : Weights Weight) where
  -- The weight of a supported value: that of the first entry of its name, in small or large letters, or else
  -- the one of the others.
  abbrev pub score : List (HttpWeightedValue w) → Weight → Bytes → Weight
  score list other name = first_weight w (eq_ignore_ascii_case name) list other

  -- A value that is not wanted, or whose weight is no greater than another.
  abbrev pub IsNoBetter : (Bytes → Weight) → Weight → Bytes → Type 0
  IsNoBetter weight_of best name =
      (w.is_equal (weight_of name) w.nothing ≡ true) ⊎ (w.is_less best (weight_of name) ≡ false)

  -- The number of a value that is wanted, of which no value is better.
  pub record IsBest (weight_of : Bytes → Weight) (names : List Bytes) (i : ℕ) (best : Weight)
      : Type 0 where
    pub name : Bytes
    pub at : get_elem? names i ≡ some name
    pub weight : weight_of name ≡ best
    pub wanted : w.is_equal best w.nothing ≡ false
    pub maximal : All (IsNoBetter weight_of best) names

  -- The best match, or none where no value is wanted.
  abbrev pub IsMatch : (Bytes → Weight) → List Bytes → Option (ℕ × Weight) → Type 0
  IsMatch weight_of names none =
      All (λ (name : Bytes). w.is_equal (weight_of name) w.nothing ≡ true) names
  IsMatch weight_of names (some (i, best)) = IsBest weight_of names i best

  -- One round: the value behind those that have been seen.
  IsMatch-skip :
      (weight_of : Bytes → Weight) (seen : List Bytes) (name : Bytes) (best : Option (ℕ × Weight))
      → w.is_equal (weight_of name) w.nothing ≡ true
      → IsMatch weight_of seen best
      → IsMatch weight_of (seen ++ name ∷ []) best
  IsMatch-skip weight_of seen name none e h = All-append _ seen (name ∷ []) h (e, tt)
  IsMatch-skip weight_of seen name (some (i, best)) e h = record {
    name = h.name;
    at = get_elem?-append seen (name ∷ []) i h.name h.at;
    weight = h.weight;
    wanted = h.wanted;
    maximal = All-append _ seen (name ∷ []) h.maximal (inl e, tt);
  }

  IsBest-stay :
      (weight_of : Bytes → Weight) (seen : List Bytes) (name : Bytes) (i : ℕ) (best : Weight)
      → w.is_less best (weight_of name) ≡ false
      → IsBest weight_of seen i best
      → IsBest weight_of (seen ++ name ∷ []) i best
  IsBest-stay weight_of seen name i best e h = record {
    name = h.name;
    at = get_elem?-append seen (name ∷ []) i h.name h.at;
    weight = h.weight;
    wanted = h.wanted;
    maximal = All-append _ seen (name ∷ []) h.maximal (inr e, tt);
  }

  IsMatch-index :
      (weight_of : Bytes → Weight) (names : List Bytes) (found : Option (ℕ × Weight)) (i : ℕ)
      → match_index w found ≡ some i
      → IsMatch weight_of names found
      → (best : Weight) × IsBest weight_of names i best
  IsMatch-index weight_of names none i h m = absurd (cc)
  IsMatch-index weight_of names (some (j, best)) i h m =
      (best, subst (λ (n : ℕ). IsBest weight_of names n best) (ground arith) m)

  module _ (less_irrefl : (x : Weight) → w.is_less x x ≡ false)
      (less_weaken : (x y z : Weight)
        → w.is_less x y ≡ true
        → w.is_less x z ≡ false
        → w.is_less y z ≡ false) where
    IsBest-new :
        (weight_of : Bytes → Weight) (seen : List Bytes) (name : Bytes)
        → w.is_equal (weight_of name) w.nothing ≡ false
        → All (IsNoBetter weight_of (weight_of name)) seen
        → IsBest weight_of (seen ++ name ∷ []) (length seen) (weight_of name)
    IsBest-new weight_of seen name e h = record {
      name = name;
      at = get_elem?-last seen name;
      weight = refl;
      wanted = e;
      maximal = All-append _ seen (name ∷ []) h (inr (less_irrefl (weight_of name)), tt);
    }

    next_match-IsMatch :
        (weight_of : Bytes → Weight) (seen : List Bytes) (name : Bytes) (best : Option (ℕ × Weight))
        → IsMatch weight_of seen best
        → IsMatch weight_of (seen ++ name ∷ []) (next_match w (length seen) (weight_of name) best)
    unfolding next_match
    next_match-IsMatch weight_of seen name none h =
        elim (Bool-cases (w.is_equal (weight_of name) w.nothing)) [
          | inl e ↦ rw e (IsMatch-skip weight_of seen name none e h)
          | inr e ↦ rw e (IsBest-new weight_of seen name e (All-map _ _ seen (λ a p. inl p) h))
        ]
    next_match-IsMatch weight_of seen name (some (i, x)) h =
        elim (Bool-cases (w.is_equal (weight_of name) w.nothing)) [
          | inl e ↦ rw e (IsMatch-skip weight_of seen name (some (i, x)) e h)
          | inr e ↦ elim (Bool-cases (w.is_less x (weight_of name))) [
            | inr no_better ↦ rw (e, no_better) (IsBest-stay weight_of seen name i x no_better h)
            | inl better ↦
                rw (e, better)
                  (IsBest-new weight_of seen name e (
                    All-map (IsNoBetter weight_of x) (IsNoBetter weight_of (weight_of name)) seen
                      (λ a p. elim p [
                        | inl q ↦ inl q
                        | inr q ↦ inr (less_weaken x (weight_of name) (weight_of a) better q)
                      ])
                      h.maximal))
          ]
        ]

    best_match-IsMatch :
        (list : List (HttpWeightedValue w)) (other : Weight) (names seen : List Bytes) (index : ℕ)
        (best : Option (ℕ × Weight))
        → index ≡ length seen
        → IsMatch (score list other) seen best
        → IsMatch (score list other) (seen ++ names) (best_match w list other names index best)
    unfolding best_match
    best_match-IsMatch list other [] seen index best e h =
        subst (λ (l : List Bytes). IsMatch (score list other) l best) (sym (append-nil seen)) h
    best_match-IsMatch list other (name ∷ names) seen index best e h =
        subst
          (λ (l : List Bytes).
            IsMatch (score list other) l (best_match w list other (name ∷ names) index best))
          (append_assoc seen (name ∷ []) names)
          (best_match-IsMatch list other names (seen ++ name ∷ []) (index + 1)
            (next_match w index (score list other name) best)
            (omega (arith, length-append seen (name ∷ [])))
            (subst
              (λ (n : ℕ).
                IsMatch (score list other) (seen ++ name ∷ [])
                  (next_match w n (score list other name) best))
              (sym e) (next_match-IsMatch (score list other) seen name best h)))

    -- The number that find_best_match_in_weighted_list gives is that of a supported value that is wanted, with a
    -- weight other than zero, and no supported value that is wanted has a greater weight. The comparison of
    -- weights is irreflexive, and what is not above a weight is not above a greater one.
    pub find_best_match_in_weighted_list-IsBest :
        (value : Bytes) (names : List Bytes) (default : Weight) (i : ℕ)
        → find_best_match_in_weighted_list w value names default ≡ some i
        → let list = parse_http_weighted_list w value in
          let other = first_weight w (λ name. bytes_eq name (codes "*")) list default in
          (best : Weight) × IsBest (score list other) names i best
    unfolding find_best_match_in_weighted_list
    find_best_match_in_weighted_list-IsBest value names default i h =
        let list = parse_http_weighted_list w value in
        let other = first_weight w (λ (name : Bytes). bytes_eq name (codes "*")) list default in
        IsMatch-index (score list other) names (best_match w list other names 0 none) i h
          (best_match-IsMatch list other names [] 0 none refl tt)
