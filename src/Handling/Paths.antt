-- ===== src/Handling/Paths.antt =====
-- `find_request_path_in_wwwroot` of servente-http-handling/src/lib.rs, and the paths of the standard library on
-- Unix: a path is its text.
pub mod Inside
pub mod Relative
use servente.Common.{
  ℕ, ◌==◌, Bool, true, false, ◌&&◌, ◌||◌, Option, none, some, List, [], ◌∷◌, ◌++◌, Bytes, bytes_eq,
  codes, drop, if◌then◌else◌,
}
use servente.Common.Result.{Result, ok, err}
use servente.Http.Range.{split}
use servente.Http.Request.{BodyKind}
use servente.Http.Response.{Response, with_status_and_string_body}
use servente.Http.StatusCode.{bad_request, forbidden}

-- `std::path::Component`
pub data Component : Type 0 where
  root_dir cur_dir parent_dir : Component
  normal : Bytes → Component

unfoldable pub component_eq : Component → Component → Bool
component_eq root_dir root_dir = true
component_eq cur_dir cur_dir = true
component_eq parent_dir parent_dir = true
component_eq (normal a) (normal b) = bytes_eq a b
component_eq _ _ = false

unfoldable pub is_absolute : Bytes → Bool
is_absolute [] = false
is_absolute (b ∷ path) = b == b'/'

-- A part between two slashes that is not the first.
unfoldable pub put_part : Bytes → List Component → List Component
put_part part more =
    if bytes_eq part [] || bytes_eq part (codes ".")
    then more
    else if bytes_eq part (codes "..")
    then parent_dir ∷ more
    else normal part ∷ more

unfoldable pub parts_of : List Bytes → List Component
unfolding put_part
parts_of [] = []
parts_of (part ∷ parts) = put_part part (parts_of parts)

-- A path that does not begin with a slash keeps a full stop in front.
unfoldable pub relative_parts : List Bytes → List Component
unfolding parts_of
relative_parts [] = []
relative_parts (part ∷ parts) =
    if bytes_eq part (codes ".") then cur_dir ∷ parts_of parts else parts_of (part ∷ parts)

-- `Path::components`
unfoldable pub components : Bytes → List Component
unfolding is_absolute parts_of relative_parts split
components path =
    if is_absolute path
    then root_dir ∷ parts_of (split b'/' path)
    else relative_parts (split b'/' path)

-- Whether a slash has to stand between the path and what is joined to it.
unfoldable pub needs_separator : Bytes → Bool
needs_separator [] = false
needs_separator (b ∷ []) = if b == b'/' then false else true
needs_separator (b ∷ c ∷ path) = needs_separator (c ∷ path)

-- `Path::join`
unfoldable pub join : Bytes → Bytes → Bytes
unfolding is_absolute needs_separator
join root path =
    if is_absolute path
    then path
    else if needs_separator root
    then root ++ b'/' ∷ path
    else root ++ path

-- `Path::starts_with`, on the components.
unfoldable pub has_prefix : List Component → List Component → Bool
unfolding component_eq
has_prefix path [] = true
has_prefix [] (c ∷ root) = false
has_prefix (d ∷ path) (c ∷ root) = component_eq d c && has_prefix path root

unfoldable pub has_parent_dir : List Component → Bool
unfolding component_eq
has_parent_dir [] = false
has_parent_dir (c ∷ path) = component_eq c parent_dir || has_parent_dir path

-- A response, or the panic of the slice behind the first byte of an empty text.
pub data Refusal : Type 0 where
  refused : Response → Refusal
  panic : Refusal

-- The two tests of a path, whose first answer tells the paths.
unfoldable pub check_path : Bytes → Bytes → Result Refusal Bytes
unfolding has_prefix components has_parent_dir with_status_and_string_body
check_path root path =
    if has_prefix (components path) (components root)
    then if has_parent_dir (components path)
      then err (
          refused
            (with_status_and_string_body forbidden (BodyKind.static_string (codes "Forbidden"))))
      else ok path
    else err (
        refused (
          with_status_and_string_body forbidden
            (BodyKind.string (codes "Forbidden\n" ++ root ++ codes "\n" ++ path))))

-- `decode` of the crate urlencoding is a parameter.
module _ (decode : Bytes → Option Bytes) where
  -- The path behind its first byte, which is a slash in every target that is parsed.
  unfoldable pub find_request_path_in_wwwroot : Bytes → Bytes → Result Refusal Bytes
  unfolding check_path join with_status_and_string_body
  find_request_path_in_wwwroot root [] = err panic
  find_request_path_in_wwwroot root (b ∷ request_target) = elim (decode request_target) [
    | none ↦ err (
        refused
          (with_status_and_string_body bad_request (BodyKind.static_string (codes "Bad Request"))))
    | some url_decoded ↦ check_path root (join root url_decoded)
  ]
