-- ===== src/Http2/Hpack/Compress/Candidate.antt =====
-- The entry of the static table that `find_header` of servente-http2/src/hpack.rs chooses.
use servente.Common.{
  ℕ, suc, ◌+◌, ◌≡◌, ap, ◌∙◌, arith, true, ◌&&◌, Option, some, List, [], ◌∷◌, Bytes, get_elem?,
  Bool-cases, inl, inr,
}
use servente.Http.HeaderName.{HeaderName}
use servente.Http.HeaderValue.{HeaderValue}
use servente.Http2.Hpack.StaticTable.{StaticTableEntry, static_table}
use servente.Http2.Hpack.Compress.{
  CompressIndexCandidate, no_index, fully_indexed, name_indexed, is_no_index, same_name, same_value,
  find_header, find_header_loop,
}

module _ (http_date : ℕ → Bytes) (name : HeaderName) (value : HeaderValue) (text : Bytes) where
  -- What an entry of the table has to be for a candidate that names it.
  abbrev pub HasName : Option StaticTableEntry → Type 0
  HasName (some (StaticTableEntry.header n)) = same_name name n ≡ true
  HasName (some (StaticTableEntry.header_with_value n v)) = same_name name n ≡ true
  HasName _ = ⊥

  abbrev pub HasField : Option StaticTableEntry → Type 0
  HasField (some (StaticTableEntry.header_with_value n v)) =
      (same_name name n ≡ true) × (same_value http_date v value text ≡ true)
  HasField _ = ⊥

  abbrev pub Fits : List StaticTableEntry → CompressIndexCandidate → Type 0
  Fits table no_index = Unit
  Fits table (name_indexed index) = HasName (get_elem? table index)
  Fits table (fully_indexed index) = HasField (get_elem? table index)

  -- The entries left are those of the table from an index on.
  abbrev LeftAt : List StaticTableEntry → ℕ → List StaticTableEntry → Type 0
  LeftAt table index entries = (k : ℕ) → get_elem? table (index + k) ≡ get_elem? entries k

  LeftAt-next :
      (table : List StaticTableEntry) (index : ℕ) (e : StaticTableEntry)
      (entries : List StaticTableEntry)
      → LeftAt table index (e ∷ entries)
      → LeftAt table (index + 1) entries
  LeftAt-next table index e entries h k =
      let behind : index + 1 + k ≡ index + suc k = omega arith in
      ap (get_elem? table) behind ∙ h (suc k)

  LeftAt-head :
      (table : List StaticTableEntry) (index : ℕ) (e : StaticTableEntry)
      (entries : List StaticTableEntry)
      → LeftAt table index (e ∷ entries)
      → get_elem? table index ≡ some e
  LeftAt-head table index e entries h =
      let here : index ≡ index + 0 = omega arith in ap (get_elem? table) here ∙ h 0

  find_header_loop-Fits :
      (table entries : List StaticTableEntry) (index : ℕ) (candidate : CompressIndexCandidate)
      → LeftAt table index entries
      → Fits table candidate
      → Fits table (find_header_loop http_date name value text index candidate entries)
  unfolding find_header_loop
  find_header_loop-Fits table [] index candidate left fits = fits
  find_header_loop-Fits table (StaticTableEntry.header n ∷ entries) index candidate left fits =
      let e = StaticTableEntry.header n in
      let behind = LeftAt-next table index e entries left in
      elim (Bool-cases (is_no_index candidate && same_name name n)) [
        | inl chosen ↦
            let named : same_name name n ≡ true = ground arith in
            rw chosen (
              find_header_loop-Fits table entries (index + 1) (name_indexed index) behind
                (rw (LeftAt-head table index e entries left) named))
        | inr passed ↦
            rw passed (find_header_loop-Fits table entries (index + 1) candidate behind fits)
      ]
  find_header_loop-Fits table (StaticTableEntry.header_with_value n v ∷ entries) index candidate
        left fits =
      let e = StaticTableEntry.header_with_value n v in
      let behind = LeftAt-next table index e entries left in
      let head = LeftAt-head table index e entries left in
      elim (Bool-cases (same_name name n)) [
        | inl named ↦ elim (Bool-cases (same_value http_date v value text)) [
          | inl same ↦ rw (named, same, head) (named, same)
          | inr other ↦
              rw (named, other)
                (find_header_loop-Fits table entries (index + 1) (name_indexed index) behind
                  (rw head named))
        ]
        | inr other ↦
            rw other (find_header_loop-Fits table entries (index + 1) candidate behind fits)
      ]
  find_header_loop-Fits table (StaticTableEntry.illegal ∷ entries) index candidate left fits =
      find_header_loop-Fits table entries (index + 1) candidate
        (LeftAt-next table index StaticTableEntry.illegal entries left) fits
  find_header_loop-Fits table (StaticTableEntry.authority ∷ entries) index candidate left fits =
      find_header_loop-Fits table entries (index + 1) candidate
        (LeftAt-next table index StaticTableEntry.authority entries left) fits
  find_header_loop-Fits table (StaticTableEntry.method x ∷ entries) index candidate left fits =
      find_header_loop-Fits table entries (index + 1) candidate
        (LeftAt-next table index (StaticTableEntry.method x) entries left) fits
  find_header_loop-Fits table (StaticTableEntry.path x ∷ entries) index candidate left fits =
      find_header_loop-Fits table entries (index + 1) candidate
        (LeftAt-next table index (StaticTableEntry.path x) entries left) fits
  find_header_loop-Fits table (StaticTableEntry.scheme x ∷ entries) index candidate left fits =
      find_header_loop-Fits table entries (index + 1) candidate
        (LeftAt-next table index (StaticTableEntry.scheme x) entries left) fits
  find_header_loop-Fits table (StaticTableEntry.status x ∷ entries) index candidate left fits =
      find_header_loop-Fits table entries (index + 1) candidate
        (LeftAt-next table index (StaticTableEntry.status x) entries left) fits

  -- A full index that is chosen is that of an entry with this name and this value, and a name's
  -- index that of an entry with this name, all up to the case of ASCII letters.
  pub find_header-Fits : Fits static_table (find_header http_date name value text)
  unfolding find_header
  find_header-Fits =
      find_header_loop-Fits static_table static_table 0 no_index
        (λ k. let same : 0 + k ≡ k = omega arith in ap (get_elem? static_table) same) tt
