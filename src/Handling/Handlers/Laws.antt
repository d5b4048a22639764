-- ===== src/Handling/Handlers/Laws.antt =====
-- What a handler that is registered is called for.
use servente.Common.{
  ◌≡◌, refl, ap, sym, ◌∙◌, arith, Bool, true, false, Option, none, some, List, [], ◌∷◌, Bytes,
  bytes_eq, bytes_eq_iff, if◌then◌else◌, Bool-cases, inl, inr,
}
use servente.Http.Method.{Method, as_string}
use servente.Http.Request.{Request}
use servente.Http.RequestTarget
use servente.Handling.Handlers.{
  Handler, HandlerController, method_eq, find_handler, put_handler, find_path, put_path, register,
  handle_by, check_handle,
}

if-again :
    (b : Bool) (x y z : Option Handler)
    → (if b then x else z) ≡ (if b then x else if b then y else z)
if-again true x y z = refl
if-again false x y z = refl

handle_by-if :
    (b : Bool) (handler : Handler) (found : Option Handler) (request : Request)
    → handle_by (if b then some handler else found) request
      ≡ (if b then handler request else handle_by found request)
unfolding handle_by
handle_by-if true handler found request = refl
handle_by-if false handler found request = refl

method_eq_trans : (a b c : Method) → method_eq a b ≡ true → method_eq a c ≡ method_eq b c
unfolding method_eq
method_eq_trans a b c h = ground (
  arith,
  bytes_eq_iff (as_string a) (as_string b),
  bytes_eq_iff (as_string a) (as_string c),
  bytes_eq_iff (as_string b) (as_string c),
)

method_eq_sym : (a b : Method) → method_eq a b ≡ method_eq b a
unfolding method_eq
method_eq_sym a b =
    ground
      (arith, bytes_eq_iff (as_string a) (as_string b), bytes_eq_iff (as_string b) (as_string a))

find_handler-put_handler :
    (method m : Method) (handler : Handler) (info : List (Method × Handler))
    → find_handler m (put_handler method handler info)
      ≡ (if method_eq method m then some handler else find_handler m info)
unfolding find_handler put_handler
find_handler-put_handler method m handler [] = refl
find_handler-put_handler method m handler ((k, h) ∷ info) = elim (Bool-cases (method_eq k method)) [
  | inl e ↦
      rw (put_handler, e, find_handler, method_eq_trans k method m e)
        (if-again (method_eq method m) (some handler) (some h) (find_handler m info))
  | inr e ↦ elim (Bool-cases (method_eq k m)) [
    | inl e' ↦
        rw
          (
            put_handler,
            e,
            find_handler,
            e',
            method_eq_sym method m ∙ sym (method_eq_trans k m method e') ∙ e,
          )
          refl
    | inr e' ↦
        rw (put_handler, e, find_handler, e') (find_handler-put_handler method m handler info)
  ]
]

-- The methods of a path, where a path that has none yet has an empty list of them.
abbrev pub methods_of : Option (List (Method × Handler)) → List (Method × Handler)
methods_of none = []
methods_of (some info) = info

find_path-put_path :
    (path p : Bytes) (method : Method) (handler : Handler)
    (handlers : List (Bytes × List (Method × Handler)))
    → find_path p (put_path path method handler handlers) ≡ (
        if bytes_eq path p
        then some (put_handler method handler (methods_of (find_path p handlers)))
        else find_path p handlers)
unfolding find_path put_path put_handler
find_path-put_path path p method handler [] = ground arith
find_path-put_path path p method handler ((q, info) ∷ handlers) = ground (
  arith,
  find_path-put_path path p method handler handlers,
  bytes_eq_iff q path,
  bytes_eq_iff q p,
  bytes_eq_iff path p,
)

-- A handler that is registered for a path and a method is called for the requests of this path and method, where
-- it takes the place of an earlier one. Another request for this path is handled as before, or answered with
-- 405 if the path had no handler; a request for another path is handled as before.
pub check_handle-register :
    (controller : HandlerController) (path : Bytes) (handler : Handler) (method : Method)
    (request : Request)
    → check_handle (register controller path handler method) request ≡ (
        if bytes_eq path (RequestTarget.as_str request.target)
        then some (
            if method_eq method request.method
            then handler request
            else handle_by
                (find_handler request.method (
                  methods_of (find_path (RequestTarget.as_str request.target) controller.handlers)))
                request)
        else check_handle controller request)
unfolding check_handle register
check_handle-register controller path handler method request =
    elim (Bool-cases (bytes_eq path (RequestTarget.as_str request.target))) [
      | inl e ↦
          rw
            (
              check_handle,
              register,
              find_path-put_path path (RequestTarget.as_str request.target) method handler
                  controller.handlers,
              e,
              find_handler-put_handler method request.method handler (
                  methods_of (find_path (RequestTarget.as_str request.target) controller.handlers)),
            )
            (ap some (handle_by-if (method_eq method request.method) handler _ request))
      | inr e ↦
          rw
            (
              check_handle,
              register,
              find_path-put_path path (RequestTarget.as_str request.target) method handler
                  controller.handlers,
              e,
            )
            refl
    ]
