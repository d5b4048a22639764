-- ===== src/Handling/Requests/Answered.antt =====
-- Which answers `handle_request_inner` gives with a file of the disk.
use mathlib.Core.Path.{subst}
use servente.Common.{
  ◌==◌, ℕ, ◌≡◌, ◌⊎◌, refl, inl, inr, ◌||◌, Option, none, some, [], ◌∷◌, Bytes, bytes_eq, codes,
  Bool-cases, Option-cases,
}
use servente.Common.Result.{Result, ok, err, Result-cases}
use servente.Handling.Files.{field_text, serve_file}
use servente.Handling.Handlers.{
  HandlerController, check_handle, check_handle_options, options_response, method_eq, find_path,
}
use servente.Handling.Paths.{
  join, find_request_path_in_wwwroot, refused, panic, Refusal, check_path, has_prefix,
  has_parent_dir, components,
}
use servente.Handling.Requests.{
  serve_index, serve_path, serve_origin, serve_target, handle_target, handle_options,
  string_response, handle_request_inner, method_refused,
}
use servente.Handling.Server.{Server}
use servente.Handling.Welcome.{
  has_tag, dutch_response, is_page_known, page_at_root, page_in_language,
  serve_welcome_page_not_modified, welcome_response, handle_welcome_page, page_not_found,
}
use servente.Http.HeaderName.{accept_language, if_none_match}
use servente.Http.Lists.{Weights, find_best_match_in_weighted_list}
use servente.Http.Request.{Request, file}
use servente.Http.Method
use servente.Http.RequestTarget.{origin}
use servente.Http.RequestTarget
use servente.Http.Response.{Response, with_status, with_status_and_string_body, not_found_response}
use servente.Handling.Requests.Served.{
  IsServable, IsSafe, IsSafeBody, IsSafeBody-if, serve_file-IsSafe, serve_index-IsSafe,
}

module _ (s : Server) (At : Bytes → Type 0) {Weight : Type 0} (w : Weights Weight) where
  language-IsSafe :
      (request : Request) (tag : Option Bytes) (best : Option ℕ)
      → IsSafeBody s At ((page_in_language s request tag best).body)
  unfolding page_in_language dutch_response welcome_response serve_welcome_page_not_modified
      with_status
  language-IsSafe request tag none =
      IsSafeBody-if s At (has_tag s tag (codes "welcome-en")) _ _ tt tt
  language-IsSafe request tag (some i) =
      IsSafeBody-if s At (i == 0) _ _
        (IsSafeBody-if s At (has_tag s tag (codes "welcome-nl")) _ _ tt tt)
        (IsSafeBody-if s At (has_tag s tag (codes "welcome-en")) _ _ tt tt)

  root-IsSafe : (request : Request) → IsSafeBody s At ((page_at_root s w request).body)
  unfolding page_at_root welcome_response with_status
  root-IsSafe request = elim (Option-cases (field_text request.headers accept_language)) [
    | inl e ↦ rw (page_at_root, e) tt
    | inr (text, e) ↦
        rw (page_at_root, e)
          (language-IsSafe request (field_text request.headers if_none_match)
            (find_best_match_in_weighted_list w text (codes "nl" ∷ codes "en" ∷ []) w.nothing))
  ]

  welcome-IsSafe :
      (request : Request) (target : Bytes)
      → IsSafeBody s At ((handle_welcome_page s w request target).body)
  unfolding handle_welcome_page dutch_response welcome_response serve_welcome_page_not_modified
      with_status page_not_found with_status_and_string_body
  welcome-IsSafe request target = IsSafeBody-if s At (is_page_known s request) _ _ tt (
      IsSafeBody-if s At
        (bytes_eq target (codes "/")
          || bytes_eq target (codes "/index")
          || bytes_eq target (codes "/index.html"))
        _ _ (root-IsSafe request)
        (IsSafeBody-if s At (bytes_eq target (codes "/welcome.en.html")) _ _ tt
          (IsSafeBody-if s At (bytes_eq target (codes "/welcome.nl.html")) _ _ tt tt)))

  serve_path-IsSafe :
      (parse_f32 : Bytes → Option Weight) (request : Request) (request_target root path : Bytes)
      → At path
      → At (join path (codes "index.html"))
      → IsSafeBody s At ((serve_path s w parse_f32 request request_target root path).body)
  unfolding serve_path page_not_found with_status_and_string_body
  serve_path-IsSafe parse_f32 request request_target root path at at' =
      let safe = serve_file-IsSafe s At w parse_f32 request path at in
      let safe' = serve_index-IsSafe s At w parse_f32 request path at' in
      elim (Option-cases (serve_file s w parse_f32 request path)) [
        | inr (response, e) ↦ rw (serve_path, e) (subst (IsSafe s At) e safe)
        | inl e ↦ elim (Option-cases (serve_index s w parse_f32 request path)) [
          | inr (response, e') ↦ rw (serve_path, e, e') (subst (IsSafe s At) e' safe')
          | inl e' ↦ elim (Bool-cases (s.exists (join root (codes "/index.html")))) [
            | inl e'' ↦ rw (serve_path, e, e', e'') tt
            | inr e'' ↦ rw (serve_path, e, e', e'') (welcome-IsSafe request request_target)
          ]
        ]
      ]

-- A refusal of a path has no file either.
abbrev IsSafeRefusal : (s : Server) (At : Bytes → Type 0) → Result Refusal Bytes → Type 0
IsSafeRefusal s At (err (refused response)) = IsSafeBody s At response.body
IsSafeRefusal s At _ = Unit {0}

check_path-IsSafeRefusal :
    (s : Server) (At : Bytes → Type 0) (root path : Bytes)
    → IsSafeRefusal s At (check_path root path)
unfolding check_path with_status_and_string_body
check_path-IsSafeRefusal s At root path =
    elim (Bool-cases (has_prefix (components path) (components root))) [
      | inr e ↦ rw (check_path, e) tt
      | inl e ↦ elim (Bool-cases (has_parent_dir (components path))) [
        | inl e' ↦ rw (check_path, e, e') tt
        | inr e' ↦ rw (check_path, e, e') tt
      ]
    ]

find_request_path_in_wwwroot-IsSafeRefusal :
    (s : Server) (At : Bytes → Type 0) (decode : Bytes → Option Bytes) (root target : Bytes)
    → IsSafeRefusal s At (find_request_path_in_wwwroot decode root target)
unfolding find_request_path_in_wwwroot with_status_and_string_body
find_request_path_in_wwwroot-IsSafeRefusal s At decode root [] = tt
find_request_path_in_wwwroot-IsSafeRefusal s At decode root (b ∷ target) =
    elim (Option-cases (decode target)) [
      | inl e ↦ rw (find_request_path_in_wwwroot, e) tt
      | inr (text, e) ↦
          rw (find_request_path_in_wwwroot, e) (check_path-IsSafeRefusal s At root (join root text))
    ]

-- The path that a target finds in the directory `wwwroot`, or the index of it.
abbrev pub Found : Server → Bytes → Bytes → Type 0
Found s target path =
    (current : Bytes) × (found : Bytes) × (s.current_dir ≡ some current)
    × (find_request_path_in_wwwroot s.decode (join current (codes "wwwroot")) target ≡ ok found)
    × ((path ≡ found) ⊎ (path ≡ join found (codes "index.html")))

module _ (s : Server) {Weight : Type 0} (w : Weights Weight)
    (parse_f32 : Bytes → Option Weight) where
  serve_origin-IsSafe :
      (request : Request) (target : Bytes)
      → IsSafe s (Found s target) (serve_origin s w parse_f32 request target)
  unfolding serve_origin
  serve_origin-IsSafe request target = elim (Option-cases s.current_dir) [
    | inl e ↦ simp (serve_origin, e) (welcome-IsSafe s (Found s target) w request target)
    | inr (current, e) ↦
        let safe =
          find_request_path_in_wwwroot-IsSafeRefusal s (Found s target) s.decode
            (join current (codes "wwwroot")) target in
        elim (Result-cases
          (find_request_path_in_wwwroot s.decode (join current (codes "wwwroot")) target)) [
            | inl (found, e') ↦
                simp (serve_origin, e, e')
                  (serve_path-IsSafe s (Found s target) w parse_f32 request target
                    (join current (codes "wwwroot")) found (current, found, e, e', inl refl)
                    (current, found, e, e', inr refl))
            | inr (panic, e') ↦ simp (serve_origin, e, e') tt
            | inr (refused response, e') ↦
                simp (serve_origin, e, e') (subst (IsSafeRefusal s (Found s target)) e' safe)
          ]
  ]

  serve_target-IsSafe :
      (request : Request) (target : Bytes) (query : Bytes)
      → request.target ≡ origin target query
      → IsSafe s (Found s target) (serve_target s w parse_f32 request)
  unfolding serve_target method_refused string_response with_status_and_string_body
  serve_target-IsSafe request target query e =
      elim (Bool-cases (method_eq request.method Method.get)) [
        | inl e' ↦ simp (serve_target, e, e') (serve_origin-IsSafe request target)
        | inr e' ↦ simp (serve_target, e, e') tt
      ]

  check_handle_options-IsSafe :
      (controller : HandlerController) (request : Request) (target : Bytes)
      → IsSafe s (Found s target) (check_handle_options s.http_date controller request)
  unfolding check_handle_options options_response with_status
  check_handle_options-IsSafe controller request target =
      elim (Option-cases (find_path (RequestTarget.as_str request.target) controller.handlers)) [
        | inl e ↦ simp (check_handle_options, e) tt
        | inr (info, e) ↦ simp (check_handle_options, e) tt
      ]

  handle_options-IsSafe :
      (controller : HandlerController) (request : Request) (target : Bytes) (query : Bytes)
      → request.target ≡ origin target query
      → IsSafe s (Found s target) (some (handle_options s controller request))
  unfolding handle_options check_handle_options options_response not_found_response
  handle_options-IsSafe controller request target query e =
      let safe = check_handle_options-IsSafe controller request target in
      elim (Option-cases (check_handle_options s.http_date controller request)) [
        | inl e' ↦ simp (handle_options, e, e') tt
        | inr (response, e') ↦
            simp (handle_options, e, e') (subst (IsSafe s (Found s target)) e' safe)
      ]

  handle_target-IsSafe :
      (finish : Response → Response) (controller : HandlerController) (request : Request)
      (target : Bytes) (query : Bytes)
      → request.target ≡ origin target query
      → check_handle controller request ≡ none
      → IsSafe s (Found s target) (handle_request_inner s w parse_f32 finish controller request)
  unfolding handle_request_inner handle_target
  handle_target-IsSafe finish controller request target query e h =
      elim (Bool-cases (method_eq request.method Method.options)) [
        | inl e' ↦
            simp (handle_request_inner, e')
              (handle_options-IsSafe controller request target query e)
        | inr e' ↦
            simp (handle_request_inner, handle_target, e', e, h)
              (serve_target-IsSafe request target query e)
      ]

  -- Where no handler takes a request for a path, a body of the answer that is a file is a regular file that opens,
  -- has an extension that may be served, has the length that is sent and is not executable; its path is the one
  -- that the request's path finds in the directory wwwroot of the current directory, or index.html joined to it.
  pub handle_request_inner-IsServable :
      (finish : Response → Response) (controller : HandlerController) (request : Request)
      (target query : Bytes) (response : Response) (handle len : ℕ)
      → request.target ≡ origin target query
      → check_handle controller request ≡ none
      → handle_request_inner s w parse_f32 finish controller request ≡ some response
      → response.body ≡ some (file handle len)
      → (path : Bytes) × Found s target path × IsServable s path handle len
  handle_request_inner-IsServable finish controller request target query response handle len e h
        answer body =
      let safe = handle_target-IsSafe finish controller request target query e h in
      subst (IsSafeBody s (Found s target)) body (subst (IsSafe s (Found s target)) answer safe)
