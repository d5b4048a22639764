-- ===== src/Handling/Paths/Relative.antt =====
-- What becomes of a request whose path is relative once its first slash is off.
use servente.Common.{
  ℕ, ◌==◌, ◌≡◌, refl, ap, arith, true, false, ◌||◌, Option, some, List, [], ◌∷◌, ◌++◌, Bytes,
  bytes_eq_iff, codes, if◌then◌else◌, Bool-cases, inl, inr,
}
use servente.Common.Result.{ok, err}
use servente.Http.Range.{split, grow}
use servente.Http.Request.{BodyKind}
use servente.Http.Response.{with_status_and_string_body}
use servente.Http.StatusCode.{forbidden}
use servente.Handling.Paths.{
  Component, root_dir, cur_dir, parent_dir, normal, component_eq, is_absolute, put_part, parts_of,
  components, needs_separator, join, has_prefix, has_parent_dir, refused, check_path,
  find_request_path_in_wwwroot,
}

split-NonEmpty :
    (c : ℕ) (text : Bytes) → (part : Bytes) × (parts : List Bytes) × (split c text ≡ part ∷ parts)
unfolding split
split-NonEmpty c [] = ([], [], refl)
split-NonEmpty c (b ∷ text) = elim (Bool-cases (b == c)) [
  | inl e ↦ ([], split c text, rw e refl)
  | inr e ↦ let (part, parts, h) = split-NonEmpty c text in (b ∷ part, parts, rw (e, h) refl)
]

grow-append :
    (b : ℕ) (part : Bytes) (parts more : List Bytes)
    → grow b (part ∷ parts) ++ more ≡ grow b ((part ∷ parts) ++ more)
grow-append b part parts more = refl

pub split-append :
    (c : ℕ) (front back : Bytes) → split c (front ++ c ∷ back) ≡ split c front ++ split c back
unfolding split
split-append c [] back = ground arith
split-append c (b ∷ front) back = elim (Bool-cases (b == c)) [
  | inl e ↦ rw e (ap (◌∷◌ []) (split-append c front back))
  | inr e ↦
      let (part, parts, h) = split-NonEmpty c front in rw (e, split-append c front back, h) refl
]

parts_of-append : (xs ys : List Bytes) → parts_of (xs ++ ys) ≡ parts_of xs ++ parts_of ys
unfolding parts_of put_part
parts_of-append [] ys = refl
parts_of-append (x ∷ xs) ys = ground (arith, parts_of-append xs ys)

is_absolute-append :
    (root path : Bytes) → is_absolute root ≡ true → is_absolute (root ++ path) ≡ true
unfolding is_absolute
is_absolute-append [] path h = absurd (cc)
is_absolute-append (b ∷ root) path h = h

components-append :
    (root path : Bytes)
    → is_absolute root ≡ true
    → components (root ++ b'/' ∷ path) ≡ components root ++ parts_of (split b'/' path)
unfolding components
components-append root path h =
    rw (h, is_absolute-append root (b'/' ∷ path) h, split-append b'/' root path)
      (ap (◌∷◌ root_dir) (parts_of-append (split b'/' root) (split b'/' path)))

component_eq_refl : (c : Component) → component_eq c c ≡ true
unfolding component_eq
component_eq_refl root_dir = refl
component_eq_refl cur_dir = refl
component_eq_refl parent_dir = refl
component_eq_refl (normal a) = ground (arith, bytes_eq_iff a a)

has_prefix_refl : (root rest : List Component) → has_prefix (root ++ rest) root ≡ true
unfolding has_prefix
has_prefix_refl [] [] = refl
has_prefix_refl [] (c ∷ rest) = refl
has_prefix_refl (c ∷ root) rest = rw (component_eq_refl c) (has_prefix_refl root rest)

has_parent_dir-append :
    (xs ys : List Component) → has_parent_dir (xs ++ ys) ≡ (has_parent_dir xs || has_parent_dir ys)
unfolding has_parent_dir
has_parent_dir-append [] ys = refl
has_parent_dir-append (x ∷ xs) ys = ground (arith, has_parent_dir-append xs ys)

module _ (decode : Bytes → Option Bytes) where
  -- Where the root is absolute, ends with no slash and has no parent directory in it, and the text that is
  -- decoded from the request's path behind its first byte is not absolute: the path found is the root, a slash
  -- and the text, and it is forbidden exactly if one of the text's parts is the parent directory.
  pub find_request_path_in_wwwroot-relative :
      (root request_target text : Bytes) (b : ℕ)
      → is_absolute root ≡ true
      → needs_separator root ≡ true
      → has_parent_dir (components root) ≡ false
      → decode request_target ≡ some text
      → is_absolute text ≡ false
      → find_request_path_in_wwwroot decode root (b ∷ request_target) ≡ (
          if has_parent_dir (parts_of (split b'/' text))
          then err (
              refused (
                with_status_and_string_body forbidden (BodyKind.static_string (codes "Forbidden"))))
          else ok (root ++ b'/' ∷ text))
  unfolding find_request_path_in_wwwroot join check_path
  find_request_path_in_wwwroot-relative root request_target text b at_root apart no_parent decoded
        relative =
      rw
        (
          find_request_path_in_wwwroot,
          decoded,
          join,
          relative,
          apart,
          check_path,
          components-append root text at_root,
          has_prefix_refl (components root) (parts_of (split b'/' text)),
          has_parent_dir-append (components root) (parts_of (split b'/' text)),
          no_parent,
        )
        refl
