-- ===== src/Http1/Exchange/Upgrade.antt =====
-- The preface of HTTP/2 on a connection of HTTP/1.
use servente.Common.{ℕ, ◌≡◌, ◌∙◌, refl, ap, Bool, true, Option, none, List, ◌∷◌, ◌++◌, Bytes, codes}
use servente.Common.Exec.{◌>>=◌, >>=-ok, return, raise}
use servente.Common.Result.{ok, err}
use servente.Handling.Handlers.{method_eq}
use servente.Handling.Requests.{Answer}
use servente.Handling.Server.{Server}
use servente.Http.Error.{HttpParseError}
use servente.Http.HeaderMap
use servente.Http.HeaderMap.{is_empty}
use servente.Http.HeaderValue.{ContentCoding}
use servente.Http.Method
use servente.Http.Request.{Request, http2}
use servente.Http.RequestTarget.{asterisk}
use servente.Http1.Exchange.{
  upgraded, Timing, checked, handle_exchange, handle_head, handle_pri_method, checked_magic,
  upgrade, is_http2, process_exchanges, next_exchange,
}
use servente.Http1.Wire.{http2_upgrade, pri_byte}
use servente.Http1.Exchange.Order.{timely, run_reader-ok}
use servente.Http1.Read.{read_request_excluding_body, read_request_line, headers_of}
use servente.Http1.Stream.{Stream, consume_exact_verify}

abbrev pub preface_request : Request
preface_request = record {
  method = Method.pri;
  target = asterisk;
  version = http2;
  headers = HeaderMap.empty;
  body = none;
}

preface_read :
    (http_date : ℕ → Bytes) (more : Bytes) (pieces : Stream)
    → read_request_excluding_body http_date ((codes "PRI * HTTP/2.0\r\n" ++ more) ∷ pieces)
      ≡ (ok preface_request, more ∷ pieces)
unfolding read_request_excluding_body ◌>>=◌ read_request_line return headers_of
preface_read http_date more pieces = refl

magic_read :
    (more : Bytes) (pieces : Stream)
    → consume_exact_verify 8 pri_byte ((codes "\r\nSM\r\n\r\n" ++ more) ∷ pieces)
      ≡ (ok (codes "\r\nSM\r\n\r\n"), more ∷ pieces)
unfolding consume_exact_verify pri_byte ◌>>=◌ return
magic_read more pieces = refl

module _ (s : Server) (handle : Request → Answer) (as_ref : HttpParseError → Bytes)
    (is_file : ℕ → Bool) (file_reads : ℕ → ℕ → ℕ → List (Option Bytes)) (file_end : ℕ → ℕ)
    (encode : ContentCoding → Bytes → Bytes) where
  magic-upgrade :
      (more output : Bytes) (pieces : Stream)
      → s.has_http2 ≡ true
      → handle_pri_method s handle as_ref is_file file_reads file_end encode preface_request
          (record { incoming = (codes "\r\nSM\r\n\r\n" ++ more) ∷ pieces; output = output })
        ≡ (err http2_upgrade, record { incoming = more ∷ pieces; output = output })
  unfolding handle_pri_method checked_magic upgrade is_http2 is_empty raise
  magic-upgrade more output pieces h =
      >>=-ok _ _ (
        run_reader-ok (consume_exact_verify 8 pri_byte) _ (more ∷ pieces) output _
          (magic_read more pieces))
      ∙ rw h refl

  exchange-upgrade :
      (more output : Bytes) (pieces : Stream)
      → s.has_http2 ≡ true
      → handle_exchange s handle as_ref is_file file_reads file_end encode timely (record {
        incoming = (codes "PRI * HTTP/2.0\r\n" ++ codes "\r\nSM\r\n\r\n" ++ more) ∷ pieces;
        output = output;
      })
        ≡ (err http2_upgrade, record { incoming = more ∷ pieces; output = output })
  unfolding handle_exchange checked return handle_head method_eq
  exchange-upgrade more output pieces h =
      >>=-ok _ _ (
        run_reader-ok (read_request_excluding_body s.http_date) _ _ output _
          (preface_read s.http_date (codes "\r\nSM\r\n\r\n" ++ more) pieces))
      ∙ >>=-ok _ _ refl
      ∙ magic-upgrade more output pieces h

  -- Where HTTP/2 is built in and the preface of a connection of HTTP/2 comes in one piece and in time, the
  -- connection goes on as one of HTTP/2: the preface has been read, what is behind it is left, and nothing has been
  -- written.
  pub process_exchanges-preface :
      (timings : List Timing) (more output : Bytes) (pieces : Stream)
      → s.has_http2 ≡ true
      → process_exchanges s handle as_ref is_file file_reads file_end encode
          (timely ∷ timings)
          (record {
            incoming = (codes "PRI * HTTP/2.0\r\n" ++ codes "\r\nSM\r\n\r\n" ++ more) ∷ pieces;
            output = output;
          })
        ≡ (upgraded, record { incoming = more ∷ pieces; output = output })
  unfolding process_exchanges
  process_exchanges-preface timings more output pieces h =
      ap
        (next_exchange
          (process_exchanges s handle as_ref is_file file_reads file_end encode timings))
        (exchange-upgrade more output pieces h)
