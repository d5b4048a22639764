-- ===== src/Handling/Handlers.antt =====
-- The handlers of a server, servente-http-handling/src/handler.rs: by the path and the method of a request.
pub mod Laws
use servente.Common.{
  ℕ, Bool, true, false, ◌&&◌, ◌==◌, Option, none, some, List, [], ◌∷◌, ◌++◌, Bytes, bytes_eq, codes,
  if◌then◌else◌,
}
use servente.Common.Result.{Result, ok, err}
use servente.Http.HeaderMap
use servente.Http.HeaderMap.{HeaderMap, append_or_override}
use servente.Http.HeaderMap.Setters.{set_content_length}
use servente.Http.HeaderName.{
  HeaderName, access_control_allow_methods, access_control_allow_origin, allow,
  cross_origin_resource_policy, vary,
}
use servente.Http.HeaderValue
use servente.Http.HeaderValue.{HeaderValue}
use servente.Http.Method.{Method, as_string}
use servente.Http.Method
use servente.Http.Request.{Request, BodyKind}
use servente.Http.RequestTarget
use servente.Http.Response.{Response, with_status, with_status_and_string_body}
use servente.Http.StatusCode

-- A handler fails with an error of the crate anyhow, which is its text.
abbrev pub Handler : Type 0
Handler = Request → Result Bytes Response

pub record HandlerController : Type 0 where
  pub handlers : List (Bytes × List (Method × Handler))

abbrev pub new : HandlerController
new = record { handlers = [] }

abbrev pub is_other : Method → Bool
is_other (Method.other text) = true
is_other _ = false

-- The equality that the source derives: the named methods have texts of their own.
unfoldable pub method_eq : Method → Method → Bool
unfolding as_string
method_eq a b = elim (is_other a) [
  | true ↦ is_other b && bytes_eq (as_string a) (as_string b)
  | false ↦ elim (is_other b) [ true ↦ false | false ↦ bytes_eq (as_string a) (as_string b) ]
]

unfoldable pub find_handler : Method → List (Method × Handler) → Option Handler
unfolding method_eq
find_handler method [] = none
find_handler method ((m, handler) ∷ info) =
    if method_eq m method then some handler else find_handler method info

unfoldable pub put_handler : Method → Handler → List (Method × Handler) → List (Method × Handler)
unfolding method_eq
put_handler method handler [] = (method, handler) ∷ []
put_handler method handler ((m, h) ∷ info) =
    if method_eq m method then (m, handler) ∷ info else (m, h) ∷ put_handler method handler info

unfoldable pub find_path :
    Bytes → List (Bytes × List (Method × Handler)) → Option (List (Method × Handler))
find_path path [] = none
find_path path ((p, info) ∷ handlers) =
    if bytes_eq p path then some info else find_path path handlers

-- The entry of a path: its methods with one more, or this one alone.
unfoldable pub put_path :
    Bytes
    → Method
    → Handler
    → List (Bytes × List (Method × Handler))
    → List (Bytes × List (Method × Handler))
unfolding put_handler
put_path path method handler [] = (path, (method, handler) ∷ []) ∷ []
put_path path method handler ((p, info) ∷ handlers) =
    if bytes_eq p path
    then (p, put_handler method handler info) ∷ handlers
    else (p, info) ∷ put_path path method handler handlers

unfoldable pub register : HandlerController → Bytes → Handler → Method → HandlerController
unfolding put_path
register controller path handler allowed_method = record {
  handlers = put_path path allowed_method handler controller.handlers;
}

unfoldable pub register_get : HandlerController → Bytes → Handler → HandlerController
unfolding register
register_get controller path handler = register controller path handler Method.get

unfoldable pub register_post : HandlerController → Bytes → Handler → HandlerController
unfolding register
register_post controller path handler = register controller path handler Method.post

unfoldable pub method_not_allowed_response : Response
unfolding with_status_and_string_body
method_not_allowed_response =
    with_status_and_string_body StatusCode.method_not_allowed
      (BodyKind.static_string (codes "Method Not Allowed"))

unfoldable pub handle_by : Option Handler → Request → Result Bytes Response
unfolding method_not_allowed_response
handle_by none request = ok method_not_allowed_response
handle_by (some handler) request = handler request

unfoldable pub check_handle : HandlerController → Request → Option (Result Bytes Response)
unfolding find_path find_handler handle_by RequestTarget.as_str
check_handle controller request =
    elim (find_path (RequestTarget.as_str request.target) controller.handlers) [
      | none ↦ none
      | some info ↦ some (handle_by (find_handler request.method info) request)
    ]

-- The texts of the methods, with a comma between them.
unfoldable pub allowed_methods : List (Method × Handler) → Bytes
unfolding as_string
allowed_methods [] = []
allowed_methods ((m, handler) ∷ []) = as_string m
allowed_methods ((m, handler) ∷ next ∷ info) =
    as_string m ++ codes ", " ++ allowed_methods (next ∷ info)

module _ (http_date : ℕ → Bytes) where
  -- `_ = headers.append`, whose error is passed over.
  unfoldable pub append_value : HeaderMap → HeaderName → HeaderValue → HeaderMap
  unfolding HeaderMap.append
  append_value m name value = elim (HeaderMap.append http_date m name value) [
    | ok appended ↦ appended
    | err e ↦ m
  ]

  unfoldable pub append_static : HeaderMap → HeaderName → Bytes → HeaderMap
  unfolding append_value
  append_static m name text = append_value m name (HeaderValue.static_string text)

  unfoldable pub options_response : List (Method × Handler) → Response
  unfolding with_status set_content_length append_or_override append_value append_static
      allowed_methods
  options_response info =
      let methods = HeaderValue.string (allowed_methods info) in
      let allowed = append_or_override (set_content_length HeaderMap.empty 0) allow methods in
      let listed = append_value allowed access_control_allow_methods methods in
      let open_to = append_static listed access_control_allow_origin (codes "localhost:8080") in
      let policed =
        append_or_override open_to cross_origin_resource_policy
          (HeaderValue.static_string (codes "same-site")) in
      record (with_status StatusCode.ok) { headers = append_static policed vary (codes "Origin") }

  unfoldable pub check_handle_options : HandlerController → Request → Option Response
  unfolding find_path options_response RequestTarget.as_str
  check_handle_options controller request =
      elim (find_path (RequestTarget.as_str request.target) controller.handlers) [
        | none ↦ none
        | some info ↦ some (options_response info)
      ]
