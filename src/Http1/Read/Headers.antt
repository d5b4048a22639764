-- ===== src/Http1/Read/Headers.antt =====
-- `read_headers` of servente-http1/src/read.rs on header fields.
use servente.Common.{
  ℕ, zero, suc, ◌+◌, ◌≤◌, ◌<◌, ◌==◌, ltb, ◌≡◌, refl, ap, sym, ◌∙◌, arith, true, false, some, List,
  [], ◌∷◌, ◌++◌, append_assoc, append-nil, length-append, Bytes, length, flatten, All,
}
use servente.Common.Exec.{>>=-ok, ◌>>=◌, return, with_state}
use servente.Common.Trim.{trim, trim_start}
use servente.Common.Result
use servente.Common.Result.{Result, ok, err, >>=-eq-ok}
use servente.Http.HeaderMap
use servente.Http.HeaderMap.{HeaderMap, HeaderMapInsertionError}
use servente.Http.HeaderName
use servente.Http.HeaderValue
use servente.Http.RequestTarget.{split_once}
use servente.Http.RequestTarget.Split.{split_once-append}
use servente.Http.Syntax.{validate_token, validate_field_content}
use servente.Http1.Stream.{Stream, read_u8, lift, push_char, line_loop, read_crlf_line}
use servente.Http1.Read.{maximum_header, append_line, headers_loop, read_headers}

-- A byte that a line takes as it is.
abbrev pub IsLineByte : ℕ → Type 0
IsLineByte b = (b < 0x80) × ((b == 0x0d) ≡ false)

line_loop-append :
    (maximum_length fuel : ℕ) (buffer text more : Bytes) (pieces : Stream)
    → All IsLineByte text
    → length buffer + length text < maximum_length
    → length text < fuel
    → line_loop fuel maximum_length buffer ((text ++ 0x0d ∷ 0x0a ∷ more) ∷ pieces)
      ≡ (ok (buffer ++ text), more ∷ pieces)
unfolding line_loop read_u8 ◌>>=◌ return push_char
line_loop-append maximum_length zero buffer text more pieces plain short enough =
    absurd (omega arith)
line_loop-append maximum_length (suc fuel) buffer [] more pieces plain short enough =
    let room : ltb (length buffer) maximum_length ≡ true = ground arith in
    rw room (ap (λ b. (ok b, more ∷ pieces)) (sym (append-nil buffer)))
line_loop-append maximum_length (suc fuel) buffer (b ∷ text) more pieces plain short enough =
    let room : ltb (length buffer) maximum_length ≡ true = ground arith in
    let ascii : ltb b 0x80 ≡ true = ground (arith, plain.0.0) in
    rw (room, plain.0.1, ascii)
      (line_loop-append maximum_length fuel (buffer ++ b ∷ []) text more pieces plain.1
          (omega (arith, short, length-append buffer (b ∷ []))) (omega arith)
        ∙ ap (λ whole. (ok whole, more ∷ pieces)) (append_assoc buffer (b ∷ []) text))

read_crlf_line-append :
    (text more : Bytes) (pieces : Stream)
    → All IsLineByte text
    → length text < maximum_header
    → read_crlf_line maximum_header ((text ++ 0x0d ∷ 0x0a ∷ more) ∷ pieces)
      ≡ (ok text, more ∷ pieces)
unfolding read_crlf_line
read_crlf_line-append text more pieces plain short =
    line_loop-append maximum_header maximum_header [] text more pieces plain (omega arith)
      (omega arith)

-- A name and a value that a header line has as they are.
pub record IsField (name value : Bytes) : Type 0 where
  pub name_bytes : All IsLineByte name
  pub value_bytes : All IsLineByte value
  pub has_no_colon : All (λ b. (b == b':') ≡ false) name
  pub is_token : validate_token name ≡ ok tt
  pub is_content : validate_field_content value ≡ ok tt
  pub is_name_trimmed : trim name ≡ name
  pub is_value_trimmed : trim value ≡ value
  pub is_short : length name + length value + 2 < 4096

unfoldable pub field_line : Bytes → Bytes → Bytes
field_line name value = name ++ b':' ∷ b' ' ∷ value

unfoldable pub field_lines : List (Bytes × Bytes) → Bytes
unfolding field_line
field_lines [] = []
field_lines ((name, value) ∷ fields) = field_line name value ++ 0x0d ∷ 0x0a ∷ field_lines fields

abbrev pub AreFields : List (Bytes × Bytes) → Type 0
AreFields [] = Unit
AreFields ((name, value) ∷ fields) = IsField name value × AreFields fields

trim-space : (text : Bytes) → trim (b' ' ∷ text) ≡ trim text
unfolding trim trim_start
trim-space [] = refl
trim-space (b ∷ []) = refl
trim-space (b ∷ c ∷ text) = refl

line_bytes :
    (name value : Bytes)
    → All IsLineByte name
    → All IsLineByte value
    → All IsLineByte (field_line name value)
unfolding field_line
line_bytes [] value hn hv = ((omega arith, refl), ((omega arith, refl), hv))
line_bytes (b ∷ name) value hn hv = (hn.0, line_bytes name value hn.1 hv)

length-field_line :
    (name value : Bytes) → length (field_line name value) ≡ length name + length value + 2
unfolding field_line
length-field_line name value = omega (arith, length-append name (b':' ∷ b' ' ∷ value))

module _ (http_date : ℕ → Bytes) where
  -- The fields appended to a map in their order.
  unfoldable pub append_all :
      List (Bytes × Bytes) → HeaderMap → Result HeaderMapInsertionError HeaderMap
  append_all [] m = ok m
  append_all ((name, value) ∷ fields) m =
      Result.◌>>=◌
        (HeaderMap.append http_date m (HeaderName.from_string name) (HeaderValue.string value))
        (append_all fields)

  append_line-some :
      (name value : Bytes) (m m' : HeaderMap) (s : Stream)
      → validate_token (trim name) ≡ ok tt
      → validate_field_content (trim value) ≡ ok tt
      → HeaderMap.append http_date m
          (HeaderName.from_string (trim name))
          (HeaderValue.string (trim value))
        ≡ ok m'
      → append_line http_date m (some (name, value)) s ≡ (ok m', s)
  unfolding append_line lift return ◌>>=◌
  append_line-some name value m m' s token content appended = rw (token, content, appended) refl

  append_line-split_once :
      (name value : Bytes) (m m' : HeaderMap) (s : Stream)
      → IsField name value
      → HeaderMap.append http_date m (HeaderName.from_string name) (HeaderValue.string value)
        ≡ ok m'
      → append_line http_date m (split_once (field_line name value) b':') s ≡ (ok m', s)
  unfolding field_line
  append_line-split_once name value m m' s field appended =
      let trimmed = trim-space value ∙ field.is_value_trimmed in
      ap (λ o. append_line http_date m o s)
        (split_once-append b':' name (b' ' ∷ value) field.has_no_colon)
      ∙ append_line-some name (b' ' ∷ value) m m' s
          (ap validate_token field.is_name_trimmed ∙ field.is_token)
          (ap validate_field_content trimmed ∙ field.is_content)
          (ap
              (λ n.
                HeaderMap.append http_date m (HeaderName.from_string n)
                  (HeaderValue.string (trim (b' ' ∷ value))))
              field.is_name_trimmed
            ∙ ap
                (λ v.
                  HeaderMap.append http_date m (HeaderName.from_string name) (HeaderValue.string v))
                trimmed
            ∙ appended)

  -- One line, by what it makes of the map.
  headers_loop-field_line :
      (name value : Bytes) (fuel : ℕ) (m m' : HeaderMap) (more : Bytes) (pieces : Stream)
      → IsField name value
      → HeaderMap.append http_date m (HeaderName.from_string name) (HeaderValue.string value)
        ≡ ok m'
      → headers_loop http_date (suc fuel) m ((field_line name value ++ 0x0d ∷ 0x0a ∷ more) ∷ pieces)
        ≡ headers_loop http_date fuel m' (more ∷ pieces)
  unfolding headers_loop
  headers_loop-field_line name value fuel m m' more pieces field appended =
      let size = length-field_line name value in
      let some_byte : (length (field_line name value) == 0) ≡ false = ground (arith, size) in
      >>=-ok _ _ (
        read_crlf_line-append (field_line name value) more pieces
          (line_bytes name value field.name_bytes field.value_bytes)
          (omega (arith, size, field.is_short)))
      ∙ rw some_byte
          (>>=-ok _ _ (append_line-split_once name value m m' (more ∷ pieces) field appended))

  headers_loop-field_lines :
      (fields : List (Bytes × Bytes)) (fuel : ℕ) (m end : HeaderMap) (more : Bytes)
      (pieces : Stream)
      → length fields < fuel
      → AreFields fields
      → append_all fields m ≡ ok end
      → headers_loop http_date fuel m ((field_lines fields ++ 0x0d ∷ 0x0a ∷ more) ∷ pieces)
        ≡ (ok end, more ∷ pieces)
  unfolding headers_loop field_lines append_all return
  headers_loop-field_lines fields zero m end more pieces enough ok_fields appended =
      absurd (omega arith)
  headers_loop-field_lines [] (suc fuel) m end more pieces enough ok_fields appended =
      let same : m ≡ end = cc in
      >>=-ok _ _ (read_crlf_line-append [] more pieces tt (omega arith))
      ∙ ap (λ x. (ok x, more ∷ pieces)) same
  headers_loop-field_lines ((name, value) ∷ fields) (suc fuel) m end more pieces enough ok_fields
        appended =
      let (m', later, first) = >>=-eq-ok _ _ appended in
      ap (λ text. headers_loop http_date (suc fuel) m (text ∷ pieces))
        (append_assoc (field_line name value) (0x0d ∷ 0x0a ∷ field_lines fields)
          (0x0d ∷ 0x0a ∷ more))
      ∙ headers_loop-field_line name value fuel m m' _ pieces ok_fields.0 first
      ∙ headers_loop-field_lines fields fuel m' end more pieces (omega arith) ok_fields.1 later

  fields_bound : (fields : List (Bytes × Bytes)) → length fields ≤ length (field_lines fields)
  unfolding field_lines
  fields_bound [] = omega arith
  fields_bound ((name, value) ∷ fields) = omega (
    arith,
    fields_bound fields,
    length-append (field_line name value) (0x0d ∷ 0x0a ∷ field_lines fields),
  )

  -- Header lines are read back in one piece: the map that comes is that of their fields, appended in their order.
  pub read_headers-field_lines :
      (fields : List (Bytes × Bytes)) (end : HeaderMap) (more : Bytes) (pieces : Stream)
      → AreFields fields
      → append_all fields HeaderMap.empty ≡ ok end
      → read_headers http_date ((field_lines fields ++ 0x0d ∷ 0x0a ∷ more) ∷ pieces)
        ≡ (ok end, more ∷ pieces)
  unfolding read_headers with_state
  read_headers-field_lines fields end more pieces ok_fields appended =
      headers_loop-field_lines fields _ HeaderMap.empty end more pieces
        (omega (
          arith,
          fields_bound fields,
          length-append (field_lines fields) (0x0d ∷ 0x0a ∷ more),
          length-append (field_lines fields ++ 0x0d ∷ 0x0a ∷ more) (flatten pieces),
        ))
        ok_fields appended
