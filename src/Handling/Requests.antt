-- ===== src/Handling/Requests.antt =====
-- `handle_request` of servente-http-handling/src/lib.rs, with the middleware and the errors of reading.
pub mod Answered
pub mod Served
use servente.Common.{
  Bool, false, not, Option, none, some, List, [], ◌∷◌, ◌++◌, Bytes, codes, if◌then◌else◌,
}
use servente.Common.Result.{Result, ok, err}
use servente.Http.Error.{HttpParseError}
use servente.Http.HeaderMap
use servente.Http.HeaderMap.{append_or_override}
use servente.Http.HeaderMap.Setters.{set_content_length, set_content_type}
use servente.Http.HeaderName.{allow, content_type}
use servente.Http.HeaderValue
use servente.Http.Lists.{Weights}
use servente.Http.MediaType.{html}
use servente.Http.Method.{Method}
use servente.Http.Request.{Request, BodyKind}
use servente.Http.RequestTarget.{origin, asterisk}
use servente.Http.Response.{Response, with_status, with_status_and_string_body, not_found_response}
use servente.Http.StatusCode
use servente.Resources.Cache.{Metadata}
use servente.Handling.Files.{serve_file}
use servente.Handling.Handlers.{
  HandlerController, method_eq, check_handle, check_handle_options, append_static,
}
use servente.Handling.Paths.{join, find_request_path_in_wwwroot, refused, panic}
use servente.Handling.Paths
use servente.Handling.Server.{Server}
use servente.Handling.Welcome.{handle_welcome_page, page_not_found}

-- The errors are those of the crate anyhow, which are their texts.
pub data MiddlewareError : Type 0 where
  recoverable_error unrecoverable_error : Bytes → MiddlewareError

-- A middleware may change the response, also where it fails.
pub record Middleware : Type 0 where
  pub debug_identifier : Bytes
  pub invoke : Request → Response → Result MiddlewareError (Unit {0}) × Response

unfoldable pub string_response : StatusCode.StatusCode → Bytes → Response
unfolding with_status_and_string_body
string_response status message = with_status_and_string_body status (BodyKind.static_string message)

-- The text of an error is a parameter.
unfoldable pub handle_parse_error : (HttpParseError → Bytes) → HttpParseError → Response
unfolding with_status_and_string_body append_or_override
handle_parse_error as_ref error =
    let response =
      with_status_and_string_body StatusCode.bad_request (
        BodyKind.string (codes "<h1>Bad Request<h1>\n<hr>\n<p>" ++ as_ref error ++ codes "</p>")) in
    record response {
      headers = append_or_override response.headers content_type (HeaderValue.media_type html);
    }

-- A response, or the panic of the path of a target that is empty.
abbrev pub Answer : Type 0
Answer = Option Response

module _ (s : Server) where
  unfoldable pub handle_options_asterisk : Response
  unfolding with_status append_static set_content_length
  handle_options_asterisk = record (with_status StatusCode.ok) {
    headers =
        set_content_length
          (append_static s.http_date HeaderMap.empty allow (codes "GET, HEAD, OPTIONS, POST")) 0;
  }

  unfoldable pub handle_options : HandlerController → Request → Response
  unfolding handle_options_asterisk check_handle_options not_found_response
  handle_options controller request = elim request.target [
    | asterisk ↦ handle_options_asterisk
    | _ ↦ elim (check_handle_options s.http_date controller request) [
      | some response ↦ response
      | none ↦ not_found_response (codes "Not Found")
    ]
  ]

  -- The answer of a handler that fails is finished here already.
  unfoldable pub handler_answer : (Response → Response) → Result Bytes Response → Response
  unfolding string_response
  handler_answer finish (ok response) = response
  handler_answer finish (err e) =
      finish (string_response StatusCode.internal_server_error (codes "Internal Server Error"))

  unfoldable pub method_refused : Response
  unfolding string_response append_static
  method_refused =
      let response = string_response StatusCode.method_not_allowed (codes "Method Not Allowed") in
      record response { headers = append_static s.http_date response.headers allow (codes "GET") }

  unfoldable pub is_directory : Option Metadata → Bool
  is_directory none = false
  is_directory (some metadata) = metadata.is_dir

  unfoldable pub is_regular : Option Metadata → Bool
  is_regular none = false
  is_regular (some metadata) = metadata.is_file

  module _ {Weight : Type 0} (w : Weights Weight) (parse_f32 : Bytes → Option Weight) where
    -- The file `index.html` of a directory.
    unfoldable pub serve_index : Request → Bytes → Option Response
    unfolding is_directory is_regular join serve_file
    serve_index request path =
        let index = join path (codes "index.html") in
        if not (is_directory (s.metadata path))
        then none
        else if not (is_regular (s.metadata index))
        then none
        else serve_file s w parse_f32 request index

    -- A path that has been found: the file, the file of the directory, the welcome page or no page. The page is
    -- looked for at the root of the file system, since the path joined is absolute.
    unfoldable pub serve_path : Request → Bytes → Bytes → Bytes → Response
    unfolding serve_file serve_index join handle_welcome_page page_not_found
    serve_path request request_target root path = elim (serve_file s w parse_f32 request path) [
      | some served_file_response ↦ served_file_response
      | none ↦ elim (serve_index request path) [
        | some served_file_response ↦ served_file_response
        | none ↦
            if not (s.exists (join root (codes "/index.html")))
            then handle_welcome_page s w request request_target
            else page_not_found
      ]
    ]

    unfoldable pub serve_origin : Request → Bytes → Answer
    unfolding join find_request_path_in_wwwroot serve_path handle_welcome_page
    serve_origin request request_target = elim s.current_dir [
      | none ↦ some (handle_welcome_page s w request request_target)
      | some current_directory ↦
          elim (find_request_path_in_wwwroot s.decode (join current_directory (codes "wwwroot"))
            request_target) [
              | ok path ↦ some (
                  serve_path request request_target (join current_directory (codes "wwwroot")) path)
              | err refusal ↦ elim refusal [ refused response ↦ some response | Paths.panic ↦ none ]
            ]
    ]

    -- A request that no handler takes.
    unfoldable pub serve_target : Request → Answer
    unfolding method_eq method_refused serve_origin string_response
    serve_target request = elim request.target [
      | origin path query ↦
          if method_eq request.method Method.get
          then serve_origin request path
          else some method_refused
      | _ ↦ some (string_response StatusCode.bad_request (codes "Invalid Target"))
    ]

    module _ (finish : Response → Response) where
      unfoldable pub handle_target : HandlerController → Request → Answer
      unfolding check_handle handler_answer serve_target
      handle_target controller request = elim (check_handle controller request) [
        | some result ↦ some (handler_answer finish result)
        | none ↦ serve_target request
      ]

      unfoldable pub handle_request_inner : HandlerController → Request → Answer
      unfolding method_eq handle_options handle_target string_response
      handle_request_inner controller request =
          if method_eq request.method Method.options
          then some (handle_options controller request)
          else elim request.target [
            | asterisk ↦ some (string_response StatusCode.bad_request (codes "Invalid Target"))
            | _ ↦ handle_target controller request
          ]

      -- What is sent for a middleware that fails for good.
      unfoldable pub middleware_failure : Bytes → Bytes → Response
      unfolding with_status_and_string_body set_content_type string_response
      middleware_failure debug_identifier e =
          let response = with_status_and_string_body StatusCode.service_unavailable (
            BodyKind.string (
              codes
                "<h1>Service Unavailable</h1><hr><p>An internal error occurred whilst processing your request in middleware: <b>"
              ++ debug_identifier
              ++ codes "</b></p><h2>Error Information</h2><pre>"
              ++ e
              ++ codes "</pre>")) in
          if s.has_debug_assertions
          then record response { headers = set_content_type response.headers html }
          else string_response StatusCode.service_unavailable (codes "Service Unavailable")

      -- The loop over the middleware: one that fails for good ends it.
      unfoldable pub run_middleware : List Middleware → Request → Response → Response
      unfolding middleware_failure
      run_middleware [] request response = response
      run_middleware (middleware ∷ more) request response =
          let (result, changed) = middleware.invoke request response in
          let rest = run_middleware more request changed in
          elim result [
            | ok u ↦ rest
            | err error ↦ elim error [
              | recoverable_error e ↦ rest
              | unrecoverable_error e ↦ middleware_failure middleware.debug_identifier e
            ]
          ]

      unfoldable pub handle_request : HandlerController → List Middleware → Request → Answer
      unfolding handle_request_inner run_middleware
      handle_request controller middleware request =
          elim (handle_request_inner controller request) [
            | none ↦ none
            | some response ↦ some (run_middleware middleware request response)
          ]
