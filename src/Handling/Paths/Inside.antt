-- ===== src/Handling/Paths/Inside.antt =====
-- Which paths a request can reach.
use mathlib.Core.Path.{subst}
use servente.Common.{
  Option-cases, ◌≡◌, ◌≢◌, refl, ap, arith, true, false, Option, List, [], ◌∷◌, ◌++◌, Bytes,
  bytes_eq_iff, Bool-cases, inl, inr, All,
}
use servente.Common.Result.{ok}
use servente.Handling.Paths.{
  Component, root_dir, cur_dir, parent_dir, normal, component_eq, components, join, has_prefix,
  has_parent_dir, check_path, find_request_path_in_wwwroot,
}

component_eq-eq : (d c : Component) → component_eq d c ≡ true → d ≡ c
unfolding component_eq
component_eq-eq root_dir root_dir h = refl
component_eq-eq cur_dir cur_dir h = refl
component_eq-eq parent_dir parent_dir h = refl
component_eq-eq (normal a) (normal b) h = ground (arith, bytes_eq_iff a b)
component_eq-eq _ _ h = cc

has_prefix-append :
    (path root : List Component)
    → has_prefix path root ≡ true
    → (rest : List Component) × (path ≡ root ++ rest)
unfolding has_prefix
has_prefix-append path [] h = (path, refl)
has_prefix-append [] (c ∷ root) h = absurd (cc)
has_prefix-append (d ∷ path) (c ∷ root) h =
    let (rest, e) = has_prefix-append path root (ground (arith)) in
    (rest, ground (arith, component_eq-eq d c))

abbrev pub HasNoParentDir : List Component → Type 0
HasNoParentDir path = All (λ (c : Component). c ≢ parent_dir) path

HasNoParentDir_lem : (path : List Component) → has_parent_dir path ≡ false → HasNoParentDir path
unfolding has_parent_dir component_eq
HasNoParentDir_lem [] h = tt
HasNoParentDir_lem (c ∷ path) h = (
  (λ (e : c ≡ parent_dir). ground (arith, ap (λ (x : Component). component_eq x parent_dir) e)),
  HasNoParentDir_lem path (ground arith),
)

-- The components of a path are the root's and others, and none leads to the parent directory.
pub record IsInside (root path : Bytes) : Type 0 where
  pub rest : List Component
  pub below : components path ≡ components root ++ rest
  pub no_parent_dir : HasNoParentDir (components path)

check_path-IsInside :
    (root path found : Bytes) → check_path root path ≡ ok found → IsInside root found
unfolding check_path
check_path-IsInside root path found h =
    elim (Bool-cases (has_prefix (components path) (components root))) [
      | inr outside ↦ absurd (ground arith)
      | inl inside ↦ elim (Bool-cases (has_parent_dir (components path))) [
        | inl up ↦ absurd (ground arith)
        | inr stays ↦
            let e : path ≡ found = ground arith in
            let (rest, below) = has_prefix-append (components path) (components root) inside in
            subst (IsInside root) e (record {
              rest = rest;
              below = below;
              no_parent_dir = HasNoParentDir_lem (components path) stays;
            })
      ]
    ]

module _ (decode : Bytes → Option Bytes) where
  -- A path that find_request_path_in_wwwroot finds has the components of the root and others below it, and none
  -- of its components is the parent directory; whatever the request's path and the decoding give.
  pub find_request_path_in_wwwroot-IsInside :
      (root request_target found : Bytes)
      → find_request_path_in_wwwroot decode root request_target ≡ ok found
      → IsInside root found
  unfolding find_request_path_in_wwwroot
  find_request_path_in_wwwroot-IsInside root [] found h = absurd (cc)
  find_request_path_in_wwwroot-IsInside root (b ∷ request_target) found h =
      elim (Option-cases (decode request_target)) [
        | inl e ↦ absurd (ground arith)
        | inr (text, e) ↦ check_path-IsInside root (join root text) found (ground arith)
      ]
