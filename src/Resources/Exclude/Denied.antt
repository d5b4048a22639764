-- ===== src/Resources/Exclude/Denied.antt =====
-- Which extensions are denied, of servente-resources/src/exclude.rs.
use servente.Common.{
  ℕ, ◌≡◌, ◌≢◌, ◌↔◌, ◌⊎◌, refl, arith, ◌==◌, true, false, not, List, [], ◌∷◌, ◌++◌, Bytes, codes,
  All, if◌then◌else◌, append_assoc, sym, ◌∙◌, append-nil, bytes_eq_iff,
}
use servente.Common.Ascii.{to_ascii_lowercase, eq_ignore_ascii_case}
use servente.Http.MediaType.{last_part}
use servente.Resources.Exclude.{
  contains_extension, is_file_allowed_to_be_served, disallowed_response_file_extensions,
}

-- No byte of a full stop.
abbrev pub HasNoDot : Bytes → Type 0
HasNoDot text = All (λ (b : ℕ). b ≢ b'.') text

last_part-plain : (part text : Bytes) → HasNoDot text → last_part part text ≡ part ++ text
unfolding last_part
last_part-plain part [] h = sym (append-nil part)
last_part-plain part (b ∷ text) h =
    let is_no_dot : (b == b'.') ≡ false = ground (arith, h.0) in
    rw is_no_dot (last_part-plain (part ++ b ∷ []) text h.1 ∙ append_assoc part (b ∷ []) text)

last_part-append :
    (part front extension : Bytes)
    → HasNoDot extension
    → last_part part (front ++ b'.' ∷ extension) ≡ extension
unfolding last_part
last_part-append part [] extension h = last_part-plain [] extension h
last_part-append part (b ∷ front) extension h =
    last_part-append (if b == b'.' then [] else part ++ b ∷ []) front extension h

-- The name is one of the list.
abbrev pub IsOneOf : List Bytes → Bytes → Type 0
IsOneOf [] name = ⊥
IsOneOf (key ∷ keys) name = (key ≡ name) ⊎ IsOneOf keys name

-- A text without large letters.
abbrev IsLowercase : Bytes → Type 0
IsLowercase text = to_ascii_lowercase text ≡ text

eq_ignore_ascii_case_iff :
    (key name : Bytes)
    → IsLowercase key
    → (eq_ignore_ascii_case key name ≡ true) ↔ (key ≡ to_ascii_lowercase name)
unfolding eq_ignore_ascii_case
eq_ignore_ascii_case_iff key name h = rw h (bytes_eq_iff key (to_ascii_lowercase name))

contains_extension_iff :
    (keys : List Bytes) (name : Bytes)
    → All IsLowercase keys
    → (contains_extension keys name ≡ true) ↔ IsOneOf keys (to_ascii_lowercase name)
unfolding contains_extension
contains_extension_iff [] name h = ground arith
contains_extension_iff (key ∷ keys) name h =
    ground (arith, eq_ignore_ascii_case_iff key name h.0, contains_extension_iff keys name h.1)

not_contains_iff :
    (keys : List Bytes) (name : Bytes)
    → All IsLowercase keys
    → (not (contains_extension keys name) ≡ false) ↔ IsOneOf keys (to_ascii_lowercase name)
not_contains_iff keys name h =
    let contained = contains_extension_iff keys name h in
    (λ e. contained.0 (ground arith), λ e. ground (arith, contained.1 e))

extensions-IsLowercase : All IsLowercase disallowed_response_file_extensions
unfolding to_ascii_lowercase
extensions-IsLowercase = (
  refl,
  (
    refl,
    (
      refl,
      (refl, (refl, (refl, (refl, (refl, (refl, (refl, (refl, (refl, (refl, (refl, tt))))))))))),
    ),
  ),
)

-- The extensions of keys, certificates, logs, and files that are hidden, locked or not whole.
abbrev pub denied : List Bytes
denied =
    codes "crdownload"
    ∷ codes "db"
    ∷ codes "der"
    ∷ codes "gitignore"
    ∷ codes "htaccess"
    ∷ codes "key"
    ∷ codes "lock"
    ∷ codes "log"
    ∷ codes "part"
    ∷ codes "pem"
    ∷ codes "tmp"
    ∷ codes "temp"
    ∷ codes "vim"
    ∷ codes "ytdl"
    ∷ []

-- A path is denied exactly if the text behind its last full stop, in small letters, is crdownload, db, der,
-- gitignore, htaccess, key, lock, log, part, pem, tmp, temp, vim or ytdl.
pub is_file_allowed_to_be_served_iff :
    (front extension : Bytes)
    → HasNoDot extension
    → (is_file_allowed_to_be_served (front ++ b'.' ∷ extension) ≡ false)
      ↔ IsOneOf denied (to_ascii_lowercase extension)
unfolding is_file_allowed_to_be_served
is_file_allowed_to_be_served_iff front extension h =
    rw (is_file_allowed_to_be_served, last_part-append [] front extension h)
      (not_contains_iff disallowed_response_file_extensions extension extensions-IsLowercase)
