-- ===== src/Http1/Wire.antt =====
-- What an exchange of HTTP/1 reads from and writes to, and what is sent and read without an answer of the
-- server: `ExchangeError`, `discard_request` and the fixed messages of servente-http1/src/lib.rs.
use servente.Common.{
  ℕ, zero, suc, ◌+◌, ◌==◌, [], ◌∷◌, ◌++◌, Bytes, codes, length, flatten, get_or, if◌then◌else◌,
}
use servente.Common.Decimal.{decimal}
use servente.Common.Exec.{Exec, ◌>>=◌, return, raise, with_state}
use servente.Common.Result.{Result, ok, err}
use servente.Http.Error.{
  HttpParseError, Error, parse_error, other, panic, invalid_http2_pri_upgrade_body,
}
use servente.Http1.Read.{maximum_header}
use servente.Http1.Stream.{Stream, Reader, read_crlf_line}
use servente.Http1.Transfer.{Writer}

pub data ExchangeError : Type 0 where
  malformed_data http2_upgrade timed_out io : ExchangeError
  -- A panic, which ends the task of the connection.
  panicked : ExchangeError

-- What the client has still to send, and what has been written.
pub record Wire : Type 0 where
  pub incoming : Stream
  pub output : Bytes

abbrev pub Exchange : Type 0 → Type 0
Exchange A = Exec ExchangeError Wire A

-- A read whose result is looked at.
unfoldable pub run_reader : {A : Type 0} → Reader A → Exchange (Result Error A)
run_reader reader wire =
    let (r, rest) = reader wire.incoming in (ok r, record wire { incoming = rest })

-- A write with `?`, whose error is one of I/O.
abbrev pub io_error : Error → ExchangeError
io_error (parse_error e) = io
io_error other = io
io_error panic = panicked

abbrev pub written :
    Stream → Result Error (Unit {0}) × Bytes → Result ExchangeError (Unit {0}) × Wire
written incoming (ok u, output) = (ok tt, record { incoming = incoming; output = output })
written incoming (err e, output) =
    (err (io_error e), record { incoming = incoming; output = output })

unfoldable pub run_writer : Writer → Exchange (Unit {0})
run_writer writer wire = written wire.incoming (writer wire.output)

-- A write whose error is passed over, though not a panic.
abbrev pub attempted :
    Stream → Result Error (Unit {0}) × Bytes → Result ExchangeError (Unit {0}) × Wire
attempted incoming (err panic, output) =
    (err panicked, record { incoming = incoming; output = output })
attempted incoming (r, output) = (ok tt, record { incoming = incoming; output = output })

unfoldable pub try_writer : Writer → Exchange (Unit {0})
try_writer writer wire = attempted wire.incoming (writer wire.output)

unfoldable pub pri_byte : ℕ → ℕ → Result HttpParseError (Unit {0})
pri_byte index byte =
    if get_or (codes "\r\nSM\r\n\r\n") index 0 == byte
    then ok tt
    else err invalid_http2_pri_upgrade_body

-- Settings with an acknowledgement, settings, and a GOAWAY with HTTP_1_1_REQUIRED, as they stand in the source.
abbrev pub frame_http_1_1_required : Bytes
frame_http_1_1_required =
    0 ∷ 0 ∷ 0 ∷ 4 ∷ 1 ∷ 0 ∷ 0 ∷ 0 ∷ 0 ∷ 0 ∷ 0 ∷ 0 ∷ 4 ∷ 0 ∷ 0 ∷ 0 ∷ 0 ∷ 0 ∷ 0 ∷ 0 ∷ 4 ∷ 7 ∷ 0 ∷ 0
    ∷ 0 ∷ 0 ∷ 0 ∷ 0 ∷ 0 ∷ 0 ∷ 0 ∷ 13 ∷ 0 ∷ 0 ∷ 0 ∷ []

-- The loop of `discard_request`, whose lines that go on read a byte each.
unfoldable pub discard_lines : ℕ → Reader (Unit {0})
unfolding read_crlf_line
discard_lines zero = raise panic
discard_lines (suc fuel) = do
  line ← read_crlf_line maximum_header
  if length line == 0 then return tt else discard_lines fuel

unfoldable pub discard_request : Reader (Unit {0})
unfolding discard_lines
discard_request = with_state (λ pieces. discard_lines (length (flatten pieces) + 1))

-- The message of `send_http_upgrade`.
unfoldable pub http_upgrade_message : Bytes
unfolding decimal
http_upgrade_message =
    let body = codes "HTTPS is required." in
    codes
      "HTTP/1.1 426 Upgrade Required\r\nUpgrade: TLS/1.2, HTTP/1.1\r\nConnection: Upgrade\r\nContent-Length: "
    ++ decimal (length body)
    ++ codes "\r\nContent-Type: text/plain;charset=utf-8\r\n\r\n"
    ++ body
