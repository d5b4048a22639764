-- ===== src/Http/Lists/Written.antt =====
-- Weighted lists as a client writes them, and the best match of one.
use servente.Common.{ℕ, ◌≡◌, false, ◌==◌, List, [], ◌∷◌, ◌++◌, Bytes, All}
use servente.Http.Lists.{Weights, HttpWeightedValue, is_whitespace_character, parse_quality_value}

-- A name and the text of its weight.
pub record Entry : Type 0 where
  pub name : Bytes
  pub quality : Bytes

abbrev pub entry_text : Entry → Bytes
entry_text entry = entry.name ++ b';' ∷ b'q' ∷ b'=' ∷ entry.quality

-- Entries with a comma between two of them.
abbrev pub list_text : List Entry → Bytes
list_text [] = []
list_text (entry ∷ []) = entry_text entry
list_text (entry ∷ next ∷ entries) = entry_text entry ++ b',' ∷ list_text (next ∷ entries)

abbrev IsDark : ℕ → Type 0
IsDark b = is_whitespace_character b ≡ false

abbrev IsNo : ℕ → ℕ → Type 0
IsNo char b = (b == char) ≡ false

-- A text without white space, commas and semicolons.
pub record IsWord (text : Bytes) : Type 0 where
  pub is_dark : All (λ (b : ℕ). is_whitespace_character b ≡ false) text
  pub has_no_comma : All (λ (b : ℕ). (b == b',') ≡ false) text
  pub has_no_semicolon : All (λ (b : ℕ). (b == b';') ≡ false) text

pub record IsWritten (entry : Entry) : Type 0 where
  pub name : IsWord entry.name
  pub quality : IsWord entry.quality

module _ {Weight : Type 0} (w : Weights Weight) where
  -- The entry that is read.
  abbrev pub value_of : Entry → HttpWeightedValue w
  value_of entry = record { name = entry.name; weight = parse_quality_value w entry.quality }
