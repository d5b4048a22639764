-- ===== src/Http/RequestTarget.antt =====
-- `RequestTarget` of servente-http/src/request_target.rs.
pub mod Split
use servente.Common.{
  ℕ, Bool, true, false, ◌&&◌, ◌||◌, Option, none, some, [], ◌∷◌, Bytes, bytes_eq, codes, ◌==◌,
  if◌then◌else◌,
}

pub data RequestTarget : Type 0 where
  origin : Bytes → Bytes → RequestTarget
  absolute authority : Bytes → RequestTarget
  asterisk : RequestTarget

-- `str::starts_with` and `str::split_once` of the standard library.
unfoldable pub starts_with : Bytes → Bytes → Bool
starts_with input [] = true
starts_with [] (c ∷ cs) = false
starts_with (b ∷ bs) (c ∷ cs) = b == c && starts_with bs cs

unfoldable pub split_once : Bytes → ℕ → Option (Bytes × Bytes)
split_once [] c = none
split_once (b ∷ bs) c =
    let later : Option (Bytes × Bytes) = elim (split_once bs c) [
      | some (front, back) ↦ some (b ∷ front, back)
      | none ↦ none
    ] in
    if b == c then some ([], bs) else later

unfoldable pub parse_origin : Bytes → RequestTarget
unfolding split_once
parse_origin input = elim (split_once input b'?') [
  | some (path, query) ↦ origin path query
  | none ↦ origin input []
]

unfoldable pub parse : Bytes → Option RequestTarget
unfolding starts_with parse_origin
parse input =
    if bytes_eq input (codes "*")
    then some asterisk
    else if starts_with input (codes "/")
    then some (parse_origin input)
    else if starts_with input (codes "http://") || starts_with input (codes "https://")
    then some (absolute input)
    else none

unfoldable pub as_str : RequestTarget → Bytes
as_str (origin path query) = path
as_str (absolute s) = s
as_str (authority s) = s
as_str asterisk = codes "*"
