-- ===== src/Http1/Read/Line.antt =====
-- `read_request_line` of servente-http1/src/read.rs on a request line.
use servente.Common.{
  ℕ, zero, suc, ◌+◌, ◌<◌, ◌==◌, ltb, ◌≡◌, refl, ap, sym, ◌∙◌, arith, Bool, true, false, some, [],
  ◌∷◌, ◌++◌, append_assoc, append-nil, length-append, Bytes, length, All,
}
use servente.Common.Exec.{>>=-ok, ◌>>=◌, return}
use servente.Common.Result.{Result, ok}
use servente.Http.Error.{HttpParseError, method_too_large, request_target_too_large}
use servente.Http.Method
use servente.Http.Request.{HttpVersion, http09, http10, http11, http2, http3, to_http_version}
use servente.Http.RequestTarget
use servente.Http.RequestTarget.{RequestTarget}
use servente.Http1.Stream.{
  Stream, read_u8, read, read_exact, lift, push_char, until_loop, read_string_until_character,
  consume_exact_verify, consume_loop, validate_read,
}
use servente.Http1.Read.{
  method_byte, target_byte, parse_target, read_request_target, read_http_version, version_byte,
  version_of, consume_crlf, crlf_byte, read_request_line, maximum_method, maximum_request_target,
}

-- A byte that is added to a text as it is.
abbrev pub IsPlain : (ℕ → Result HttpParseError (Unit {0})) → ℕ → ℕ → Type 0
IsPlain byte_validator char b = (b < 0x80) × ((b == char) ≡ false) × (byte_validator b ≡ ok tt)

until_loop-append :
    (char maximum_length : ℕ) (length_error : HttpParseError)
    (byte_validator : ℕ → Result HttpParseError (Unit {0})) (fuel : ℕ) (buffer text more : Bytes)
    (pieces : Stream)
    → All (IsPlain byte_validator char) text
    → length buffer + length text < maximum_length
    → length text < fuel
    → until_loop char maximum_length length_error byte_validator fuel buffer
        ((text ++ char ∷ more) ∷ pieces)
      ≡ (ok (buffer ++ text), more ∷ pieces)
unfolding until_loop read_u8 ◌>>=◌ lift return push_char
until_loop-append char maximum_length length_error byte_validator zero buffer text more pieces plain
      short fuel =
    absurd (omega arith)
until_loop-append char maximum_length length_error byte_validator (suc fuel) buffer [] more pieces
      plain short enough =
    let room : ltb (length buffer) maximum_length ≡ true = ground arith in
    let same : (char == char) ≡ true = ground arith in
    rw (room, same) (ap (λ b. (ok b, more ∷ pieces)) (sym (append-nil buffer)))
until_loop-append char maximum_length length_error byte_validator (suc fuel) buffer (b ∷ text) more
      pieces plain short enough =
    let room : ltb (length buffer) maximum_length ≡ true = ground arith in
    let ascii : ltb b 0x80 ≡ true = ground (arith, plain.0.0) in
    rw (room, plain.0.1, plain.0.2, ascii)
      (until_loop-append char maximum_length length_error byte_validator fuel (buffer ++ b ∷ [])
          text more pieces plain.1 (omega (arith, short, length-append buffer (b ∷ [])))
          (omega arith)
        ∙ ap (λ whole. (ok whole, more ∷ pieces)) (append_assoc buffer (b ∷ []) text))

read_string_until_character-append :
    (char maximum_length : ℕ) (length_error : HttpParseError)
    (byte_validator : ℕ → Result HttpParseError (Unit {0})) (text more : Bytes) (pieces : Stream)
    → All (IsPlain byte_validator char) text
    → length text < maximum_length
    → read_string_until_character char maximum_length length_error byte_validator
        ((text ++ char ∷ more) ∷ pieces)
      ≡ (ok text, more ∷ pieces)
unfolding read_string_until_character
read_string_until_character-append char maximum_length length_error byte_validator text more pieces
      plain short =
    until_loop-append char maximum_length length_error byte_validator maximum_length [] text more
      pieces plain (omega arith) (omega arith)

-- The versions that a request line may have.
unfoldable pub is_read : HttpVersion → Bool
is_read http10 = true
is_read http11 = true
is_read http2 = true
is_read http09 = false
is_read http3 = false

read_http_version-to_http_version :
    (version : HttpVersion) (more : Bytes) (pieces : Stream)
    → is_read version ≡ true
    → read_http_version ((to_http_version version ++ more) ∷ pieces) ≡ (ok version, more ∷ pieces)
unfolding read_http_version to_http_version consume_exact_verify consume_loop read validate_read
    version_byte read_exact read_u8 version_of lift ◌>>=◌ return is_read
read_http_version-to_http_version http10 more pieces h = refl
read_http_version-to_http_version http11 more pieces h = refl
read_http_version-to_http_version http2 more pieces h = refl
read_http_version-to_http_version http09 more pieces h = cc
read_http_version-to_http_version http3 more pieces h = cc

consume_crlf-append :
    (more : Bytes) (pieces : Stream)
    → consume_crlf ((0x0d ∷ 0x0a ∷ more) ∷ pieces) ≡ (ok tt, more ∷ pieces)
unfolding consume_crlf consume_exact_verify consume_loop read validate_read crlf_byte lift ◌>>=◌
    return
consume_crlf-append more pieces = refl

parse_target-eq-ok :
    (text : Bytes) (target : RequestTarget) (s : Stream)
    → RequestTarget.parse text ≡ some target
    → parse_target text s ≡ (ok target, s)
unfolding parse_target return
parse_target-eq-ok text target s h = rw (h, parse_target) refl

-- A line of a method, a request target and a version is read back where the bytes come in one piece, the method is a
-- token of fewer than 16 bytes and the target has fewer than 1024 bytes, none of them a space.
pub read_request_line-append :
    (method target_text : Bytes) (target : RequestTarget) (version : HttpVersion) (more : Bytes)
    (pieces : Stream)
    → All (IsPlain method_byte b' ') method
    → length method < 16
    → All (IsPlain target_byte b' ') target_text
    → length target_text < 1024
    → RequestTarget.parse target_text ≡ some target
    → is_read version ≡ true
    → read_request_line (
        (method ++ b' ' ∷ (target_text ++ b' ' ∷ (to_http_version version ++ 0x0d ∷ 0x0a ∷ more)))
        ∷ pieces)
      ≡ (ok (Method.from_string method, target, version), more ∷ pieces)
unfolding read_request_line read_request_target return
read_request_line-append method target_text target version more pieces token short valid small
      parsed known =
    let behind = to_http_version version ++ 0x0d ∷ 0x0a ∷ more in
    >>=-ok _ _ (
      read_string_until_character-append b' ' maximum_method method_too_large method_byte method
        (target_text ++ b' ' ∷ behind) pieces token short)
    ∙ >>=-ok _ _ (
        >>=-ok _ _ (
          read_string_until_character-append b' ' maximum_request_target request_target_too_large
            target_byte target_text behind pieces valid small)
        ∙ parse_target-eq-ok target_text target _ parsed)
    ∙ >>=-ok _ _ (read_http_version-to_http_version version (0x0d ∷ 0x0a ∷ more) pieces known)
    ∙ >>=-ok _ _ (consume_crlf-append more pieces)
