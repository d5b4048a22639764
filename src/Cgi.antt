-- ===== src/Cgi.antt =====
-- The middleware for CGI scripts, servente-cgi/src/lib.rs. The process is a parameter: what becomes of a command
-- with the octets that are written to it.
pub mod Fields
use servente.Common.{
  ℕ, Bool, true, false, Option, none, some, List, [], ◌∷◌, ◌++◌, Bytes, bytes_eq, codes, length,
  flatten, if◌then◌else◌,
}
use servente.Common.Decimal.{decimal}
use servente.Common.Result.{Result, ok, err}
use servente.Handling.Paths.{Component, normal, components, join, find_request_path_in_wwwroot}
use servente.Handling.Requests.{Middleware, MiddlewareError, unrecoverable_error}
use servente.Handling.Server.{Server}
use servente.Http.Error.{Error}
use servente.Http.HeaderMap
use servente.Http.HeaderMap.{HeaderMap, append_or_override, contains}
use servente.Http.HeaderName
use servente.Http.HeaderName.{
  HeaderName, HeaderNameClass, cache_control, content_type, cgi_extension, connection_specific,
  other_class,
}
use servente.Http.HeaderValue
use servente.Http.HeaderValue.{HeaderValue, as_str_may_convert}
use servente.Http.Method.{as_string}
use servente.Http.Request.{
  Request, BodyKind, bytes, cached_bytes, file, static_string, string, to_http_version,
}
use servente.Http.RequestTarget.{RequestTarget, origin, absolute, authority, asterisk}
use servente.Http.Response.{Response, with_status, with_status_and_string_body}
use servente.Http.StatusCode
use servente.Http1.Read.{read_headers}
use servente.Http1.Stream.{Stream}

abbrev pub Environment : Type 0
Environment = List (Bytes × Bytes)

-- `Command::env`, which takes the place of an earlier value.
unfoldable pub env : Bytes → Bytes → Environment → Environment
env name value [] = (name, value) ∷ []
env name value ((n, v) ∷ more) =
    if bytes_eq n name then (n, value) ∷ more else (n, v) ∷ env name value more

pub record Command : Type 0 where
  pub program : Bytes
  -- The directory of the script, by its components.
  pub current_dir : List Component
  pub environment : Environment

unfoldable pub set_target : RequestTarget → Environment → Environment
unfolding env
set_target (origin path query) e = env (codes "PATH_INFO") path (env (codes "QUERY_STRING") query e)
set_target _ e = e

-- The body as octets, where it is in memory and is not static.
unfoldable pub body_octets : Option BodyKind → Option Bytes
body_octets (some (bytes octets)) = some octets
body_octets (some (string text)) = some text
body_octets _ = none

unfoldable pub set_length : Option Bytes → Environment → Environment
unfolding env decimal
set_length none e = e
set_length (some octets) e = env (codes "CONTENT_LENGTH") (decimal (length octets)) e

unfoldable pub is_content_type : HeaderName → Bool
is_content_type content_type = true
is_content_type _ = false

-- What a process comes to: it is not started, its input or output fails, it takes too long, or it ends.
pub data ProcessEnd : Type 0 where
  not_spawned timed_out : ProcessEnd
  not_written failed finished : Bytes → ProcessEnd

-- The components of a path without the last, and the last if it is a name.
unfoldable pub split_last : List Component → Option (List Component × Bytes)
split_last [] = none
split_last (normal name ∷ []) = some ([], name)
split_last (c ∷ []) = none
split_last (c ∷ d ∷ path) = elim (split_last (d ∷ path)) [
  | none ↦ none
  | some (front, name) ↦ some (c ∷ front, name)
]

-- A field of the script by the class of its name: those of a connection and of CGI are left out.
unfoldable pub take_field : HeaderNameClass → HeaderName → HeaderValue → HeaderMap → HeaderMap
unfolding append_or_override
take_field cgi_extension name value m = m
take_field connection_specific name value m = m
take_field other_class name value m = append_or_override m name value

-- The loop over the fields.
unfoldable pub take_fields : List (HeaderName × HeaderValue) → HeaderMap → HeaderMap
unfolding HeaderName.class take_field
take_fields [] m = m
take_fields ((name, value) ∷ more) m =
    take_fields more (take_field (HeaderName.class name) name value m)

unfoldable pub script_headers : HeaderMap → HeaderMap
unfolding take_fields contains append_or_override
script_headers headers =
    let taken = take_fields headers.headers HeaderMap.empty in
    if contains taken cache_control
    then taken
    else append_or_override taken cache_control (HeaderValue.static_string (codes "no-store"))

module _ (s : Server) where
  unfoldable pub set_fields : List (HeaderName × HeaderValue) → Environment → Environment
  unfolding is_content_type env as_str_may_convert
  set_fields [] e = e
  set_fields ((name, value) ∷ more) e = set_fields more (
      if is_content_type name
      then env (codes "CONTENT_TYPE") (as_str_may_convert s.http_date value) e
      else e)

  unfoldable pub set_command_environment_variables : Request → Environment → Environment
  unfolding env as_string to_http_version set_target set_length body_octets set_fields
  set_command_environment_variables request e =
      let gateway = env (codes "GATEWAY_INTERFACE") (codes "CGI/1.1") e in
      let method = env (codes "REQUEST_METHOD") (as_string request.method) gateway in
      let name = env (codes "SERVER_NAME") (codes "localhost") method in
      let port = env (codes "SERVER_PORT") (codes "8080") name in
      let protocol = env (codes "SERVER_PROTOCOL") (to_http_version request.version) port in
      let software = env (codes "SERVER_SOFTWARE") (codes "Servente") protocol in
      let targeted = set_target request.target software in
      set_fields request.headers.headers (set_length (body_octets request.body) targeted)

  unfoldable pub command_at : Request → Bytes → Option Command
  unfolding split_last components set_command_environment_variables
  command_at request script_path = elim (split_last (components script_path)) [
    | none ↦ none
    | some (parent_dir, script_file_name) ↦ some (record {
      program = codes "./" ++ script_file_name;
      current_dir = parent_dir;
      environment = set_command_environment_variables request [];
    })
  ]

  unfoldable pub create_cgi_script_command : Request → Option Command
  unfolding find_request_path_in_wwwroot join command_at
  create_cgi_script_command request = elim request.target [
    | origin path query ↦ elim s.current_dir [
      | none ↦ none
      | some directory ↦
          elim (find_request_path_in_wwwroot s.decode (join directory (codes "wwwroot")) path) [
            | ok script_path ↦ command_at request script_path
            | err refusal ↦ none
          ]
    ]
    | _ ↦ none
  ]

  -- `{e:?}` is a parameter.
  module _ (debug_text : Error → Bytes) (run : Command → Option Bytes → ProcessEnd) where
    -- What is behind the fields is the body. A failure leaves an empty response.
    unfoldable pub produced : Result Error HeaderMap × Stream → Result Bytes (Unit {0}) × Response
    unfolding with_status script_headers
    produced (err e, rest) = (err (debug_text e), with_status StatusCode.ok)
    produced (ok m, rest) = (
      ok tt,
      record (with_status StatusCode.ok) {
        headers = script_headers m;
        body = some (bytes (flatten rest));
      },
    )

    unfoldable pub produce_response_for_cgi_output : Bytes → Result Bytes (Unit {0}) × Response
    unfolding read_headers produced
    produce_response_for_cgi_output stdout = produced (read_headers s.http_date (stdout ∷ []))

    unfoldable pub process_cgi_process : ProcessEnd → Response → Result Bytes (Unit {0}) × Response
    unfolding produce_response_for_cgi_output with_status_and_string_body
    process_cgi_process not_spawned response = (ok tt, response)
    process_cgi_process (not_written e) response = (err e, response)
    process_cgi_process timed_out response = (
      ok tt,
      with_status_and_string_body StatusCode.gateway_timeout
          (BodyKind.static_string (codes "Gateway Timeout")),
    )
    process_cgi_process (failed e) response = (
      ok tt,
      with_status_and_string_body StatusCode.internal_server_error (
          if s.has_debug_assertions
          then BodyKind.string (codes "Error: " ++ e)
          else BodyKind.static_string (codes "Internal Server Error")),
    )
    process_cgi_process (finished stdout) response = produce_response_for_cgi_output stdout

    unfoldable pub invoke_cgi : Request → Response → Result Bytes (Unit {0}) × Response
    unfolding create_cgi_script_command body_octets process_cgi_process
    invoke_cgi request response = elim (create_cgi_script_command request) [
      | none ↦ (ok tt, response)
      | some command ↦ process_cgi_process (run command (body_octets request.body)) response
    ]

    abbrev pub unrecoverable :
        Result Bytes (Unit {0}) × Response → Result MiddlewareError (Unit {0}) × Response
    unrecoverable (ok u, response) = (ok u, response)
    unrecoverable (err e, response) = (err (unrecoverable_error e), response)

    unfoldable pub cgi_middleware : Middleware
    unfolding invoke_cgi
    cgi_middleware = record {
      debug_identifier = codes "servente_cgi::CgiMiddleware";
      invoke = λ request response. unrecoverable (invoke_cgi request response);
    }
