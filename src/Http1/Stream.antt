-- ===== src/Http1/Stream.antt =====
-- The reader of a connection, as servente-http1/src/read.rs uses it: the pieces of what a client sends, in
-- the sizes in which the reads of the buffer get them. At the end every read fails.
use servente.Common.{
  ℕ, zero, suc, ◌+◌, ◌-◌, ◌/◌, ◌%◌, ltb, ◌==◌, List, [], ◌∷◌, ◌++◌, Bytes, length, take, drop,
  get_or, replicate, if◌then◌else◌,
}
use servente.Common.Exec.{Exec, ◌>>=◌, ◌>>◌, return, raise}
use servente.Common.Result.{Result, ok, err}
use servente.Http.Error.{
  HttpParseError, Error, parse_error, other, panic, header_too_large, invalid_crlf,
}

abbrev pub Stream : Type 0
Stream = List Bytes

abbrev pub Reader : Type 0 → Type 0
Reader A = Exec Error Stream A

-- `AsyncReadExt::read_u8`
unfoldable pub read_u8 : Reader ℕ
read_u8 [] = (err other, [])
read_u8 ([] ∷ pieces) = read_u8 pieces
read_u8 ((byte ∷ piece) ∷ pieces) = (ok byte, piece ∷ pieces)

-- `AsyncReadExt::read` into a buffer of this length: what is there of the next piece, and nothing
-- if the buffer is empty or the stream has ended.
unfoldable pub read : ℕ → Reader Bytes
read size [] = (ok [], [])
read size ([] ∷ pieces) = read size pieces
read size ((byte ∷ piece) ∷ pieces) =
    (ok (take size (byte ∷ piece)), drop size (byte ∷ piece) ∷ pieces)

-- `AsyncReadExt::read_exact`
unfoldable pub read_exact : ℕ → Reader Bytes
unfolding read_u8
read_exact zero = return []
read_exact (suc size) = do byte ← read_u8; bytes ← read_exact size; return (byte ∷ bytes)

-- `String::push` of `byte as char`: a byte from 0x80 on is the character of that number.
unfoldable pub push_char : Bytes → ℕ → Bytes
push_char buffer byte =
    buffer ++ (if ltb byte 0x80 then byte ∷ [] else (0xc0 + byte / 64) ∷ (0x80 + byte % 64) ∷ [])

unfoldable pub lift : {A : Type 0} → Result HttpParseError A → Reader A
lift (ok a) = return a
lift (err e) = raise (parse_error e)

-- The `for` loop over the bytes of a read, of which the validator is told the places.
unfoldable pub validate_read :
    (ℕ → ℕ → Result HttpParseError (Unit {0})) → Bytes → ℕ → ℕ → ℕ → Reader (Unit {0})
unfolding lift
validate_read byte_validator buffer idx i zero = return tt
validate_read byte_validator buffer idx i (suc count) = do
  lift (byte_validator (idx + i) (get_or buffer i 0))
  validate_read byte_validator buffer idx (i + 1) count

-- The `while` loop of `consume_exact_verify`. The slice `idx..(length - idx)` panics if its end is in
-- front of its start. Each round reads a byte, so one round more than the length is enough.
unfoldable pub consume_loop :
    (ℕ → ℕ → Result HttpParseError (Unit {0})) → ℕ → ℕ → ℕ → Bytes → Reader Bytes
unfolding read validate_read
consume_loop byte_validator zero size idx buffer = raise panic
consume_loop byte_validator (suc fuel) size idx buffer =
    if idx == size then return buffer else if ltb (size - idx) idx then raise panic else (do
      bytes ← read (size - idx - idx)
      let filled = take idx buffer ++ bytes ++ drop (idx + length bytes) buffer
      let count = length bytes
      if count == 0 then raise other else (do
        validate_read byte_validator filled idx 0 count
        consume_loop byte_validator fuel size (idx + count) filled))

unfoldable pub consume_exact_verify : ℕ → (ℕ → ℕ → Result HttpParseError (Unit {0})) → Reader Bytes
unfolding consume_loop
consume_exact_verify size byte_validator =
    if size == 0
    then return []
    else consume_loop byte_validator (size + 1) size 0 (replicate size 0)

-- The loop of `read_crlf_line`. Each round adds a byte to the text, so as many rounds as the maximum are enough.
unfoldable pub line_loop : ℕ → ℕ → Bytes → Reader Bytes
unfolding read_u8 push_char
line_loop zero maximum_length text = raise (parse_error header_too_large)
line_loop (suc fuel) maximum_length text =
    if ltb (length text) maximum_length
    then (do
      byte ← read_u8
      if byte == 0x0d
          then (do
            next ← read_u8
            if next == 0x0a then return text else raise (parse_error invalid_crlf))
          else line_loop fuel maximum_length (push_char text byte))
    else raise (parse_error header_too_large)

unfoldable pub read_crlf_line : ℕ → Reader Bytes
unfolding line_loop
read_crlf_line maximum_length = line_loop maximum_length maximum_length []

unfoldable pub until_loop :
    ℕ → ℕ → HttpParseError → (ℕ → Result HttpParseError (Unit {0})) → ℕ → Bytes → Reader Bytes
unfolding read_u8 push_char lift
until_loop char maximum_length length_error byte_validator zero buffer =
    raise (parse_error length_error)
until_loop char maximum_length length_error byte_validator (suc fuel) buffer =
    if ltb (length buffer) maximum_length
    then (do
      byte ← read_u8
      if byte == char then return buffer else (do
        lift (byte_validator byte)
        until_loop char maximum_length length_error byte_validator fuel (push_char buffer byte)))
    else raise (parse_error length_error)

unfoldable pub read_string_until_character :
    ℕ → ℕ → HttpParseError → (ℕ → Result HttpParseError (Unit {0})) → Reader Bytes
unfolding until_loop
read_string_until_character char maximum_length length_error byte_validator =
    until_loop char maximum_length length_error byte_validator maximum_length []
