-- ===== src/Resources/Exclude.antt =====
-- The extensions that are not served, of servente-resources/src/exclude.rs.
pub mod Denied
use servente.Common.{
  ℕ, ◌≡◌, ◌≢◌, refl, arith, ◌==◌, Bool, false, not, ◌||◌, List, [], ◌∷◌, ◌++◌, Bytes, codes, All,
  if◌then◌else◌, append_assoc, sym, ◌∙◌, append-nil,
}
use servente.Common.Ascii.{eq_ignore_ascii_case}
use servente.Http.MediaType.{last_part}

abbrev pub disallowed_response_file_extensions : List Bytes
disallowed_response_file_extensions =
    codes "crdownload"
    ∷ codes "db"
    ∷ codes "der"
    ∷ codes "gitignore"
    ∷ codes "htaccess"
    ∷ codes "key"
    ∷ codes "lock"
    ∷ codes "log"
    ∷ codes "part"
    ∷ codes "pem"
    ∷ codes "tmp"
    ∷ codes "temp"
    ∷ codes "vim"
    ∷ codes "ytdl"
    ∷ []

-- `contains` of the crate phf's set, whose keys are the same if they differ in the case of ASCII letters only.
unfoldable pub contains_extension : List Bytes → Bytes → Bool
unfolding eq_ignore_ascii_case
contains_extension [] extension = false
contains_extension (key ∷ keys) extension =
    eq_ignore_ascii_case key extension || contains_extension keys extension

unfoldable pub is_file_allowed_to_be_served : Bytes → Bool
unfolding contains_extension last_part
is_file_allowed_to_be_served path =
    not (contains_extension disallowed_response_file_extensions (last_part [] path))
