-- ===== src/Tests/Paths.antt =====
-- The theorems on paths, handlers and weighted lists, at concrete inputs.
use servente.Common.{
  ℕ, ◌+◌, ◌-◌, ◌*◌, ◌^◌, ◌≡◌, refl, ltb, ◌==◌, Option, none, some, List, [], ◌∷◌, ◌++◌, Bytes,
  bytes_eq, codes, if◌then◌else◌,
}
use servente.Common.Result.{ok, err}
use servente.Handling.Handlers.{
  Handler, new, method_eq, find_handler, find_path, register, handle_by, check_handle,
}
use servente.Handling.Handlers.Laws.{methods_of, check_handle-register}
use servente.Handling.Paths.{
  is_absolute, needs_separator, components, parts_of, has_parent_dir, has_prefix, join, check_path,
  refused, find_request_path_in_wwwroot,
}
use servente.Handling.Paths.Inside.{IsInside, find_request_path_in_wwwroot-IsInside}
use servente.Handling.Paths.Relative.{find_request_path_in_wwwroot-relative}
use servente.Http.HeaderMap
use servente.Http.Lists.{Weights}
use servente.Http.Lists.Written.{Entry}
use servente.Http.Method
use servente.Http.Range.{split}
use servente.Http.Request.{Request, BodyKind, http11}
use servente.Http.RequestTarget
use servente.Http.RequestTarget.{origin}
use servente.Http.Response.{with_status, with_status_and_string_body}
use servente.Http.StatusCode
use servente.Http.StatusCode.{forbidden}

abbrev decode : Bytes → Option Bytes
decode text = some text

abbrev root : Bytes
root = codes "/srv/wwwroot"

find_request_path_in_wwwroot-IsInside_example : IsInside root (codes "/srv/wwwroot/a/b.html")
unfolding find_request_path_in_wwwroot check_path components has_prefix has_parent_dir join
find_request_path_in_wwwroot-IsInside_example =
    find_request_path_in_wwwroot-IsInside decode root (codes "/a/b.html")
      (codes "/srv/wwwroot/a/b.html") refl

find_request_path_in_wwwroot-relative_example :
    find_request_path_in_wwwroot decode root (codes "/a/../b") ≡ (
      if has_parent_dir (parts_of (split b'/' (codes "a/../b")))
      then err (
          refused
            (with_status_and_string_body forbidden (BodyKind.static_string (codes "Forbidden"))))
      else ok (root ++ b'/' ∷ codes "a/../b"))
unfolding is_absolute needs_separator has_parent_dir components
find_request_path_in_wwwroot-relative_example =
    find_request_path_in_wwwroot-relative decode root (codes "a/../b") (codes "a/../b") b'/' refl
      refl refl refl refl

abbrev request : Request
request = record {
  method = Method.get;
  target = origin (codes "/hello") [];
  version = http11;
  headers = HeaderMap.empty;
  body = none;
}

abbrev hello : Handler
hello r = ok (with_status StatusCode.ok)

check_handle-register_example :
    check_handle (register new (codes "/hello") hello Method.get) request ≡ (
      if bytes_eq (codes "/hello") (RequestTarget.as_str request.target)
      then some (
          if method_eq Method.get request.method
          then hello request
          else handle_by
              (find_handler request.method
                (methods_of (find_path (RequestTarget.as_str request.target) new.handlers)))
              request)
      else check_handle new request)
check_handle-register_example = check_handle-register new (codes "/hello") hello Method.get request

-- Weights in thousandths.
abbrev thousandths : Weights ℕ
thousandths = record {
  nothing = 0;
  whole = 1000;
  is_less = ltb;
  is_equal = ◌==◌;
  plus = ◌+◌;
  digit_at = λ digit place. digit * 10 ^ (3 - place);
}

abbrev languages : List Bytes
languages = codes "nl" ∷ codes "en" ∷ []

-- en;q=0.5,NL;q=1
abbrev entries : List Entry
entries =
    (record { name = codes "en"; quality = codes "0.5" })
    ∷ (record { name = codes "NL"; quality = codes "1" })
    ∷ []
