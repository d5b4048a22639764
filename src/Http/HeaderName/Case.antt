-- ===== src/Http/HeaderName/Case.antt =====
-- The case of letters in the reading of a header name, servente-http/src/header_name.rs.
use servente.Common.{◌≡◌, refl, ap, true, none, some, List, [], ◌∷◌, Bytes, bytes_eq, bytes_eq_iff}
use servente.Common.Ascii.{to_ascii_lowercase, eq_ignore_ascii_case}
use servente.Http.HeaderName.Defs.{HeaderName, other}
use servente.Http.HeaderName.Parse.{from_string, find_ignore_case, string_to_header_name_map}

find_ignore_case-lowercase :
    (a b : Bytes)
    → to_ascii_lowercase a ≡ to_ascii_lowercase b
    → (entries : List (Bytes × HeaderName))
    → find_ignore_case a entries ≡ find_ignore_case b entries
unfolding find_ignore_case
find_ignore_case-lowercase a b e [] = refl
find_ignore_case-lowercase a b e ((key, name) ∷ entries) =
    let same : eq_ignore_ascii_case key a ≡ eq_ignore_ascii_case key b =
      unfold eq_ignore_ascii_case in ap (bytes_eq (to_ascii_lowercase key)) e in
    let later = find_ignore_case-lowercase a b e entries in rw (same, later) refl

-- Texts that differ only in the case of ASCII letters are the same header name, known or not.
pub from_string-eq_ignore_ascii_case :
    (a b : Bytes) → eq_ignore_ascii_case a b ≡ true → from_string a ≡ from_string b
unfolding from_string eq_ignore_ascii_case
from_string-eq_ignore_ascii_case a b h =
    let (to, back) = bytes_eq_iff (to_ascii_lowercase a) (to_ascii_lowercase b) in
    let found = find_ignore_case-lowercase a b (to h) string_to_header_name_map in
    λ i. elim (found i) [ some header_name ↦ header_name | none ↦ other (to h i) ]
