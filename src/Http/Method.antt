-- ===== src/Http/Method.antt =====
-- Request methods, servente-http/src/method.rs.
pub mod RoundTrip
use servente.Common.{Option, none, some, List, [], ◌∷◌, Bytes, bytes_eq, codes, if◌then◌else◌}
use native.Mathlib.Decide.{ℕ_discrete}

pub data Method : Type 0 where
  other : Bytes → Method
  acl baseline_control bind check_in check_out connect copy delete get head : Method
  label link lock merge mk_activity mk_calendar mk_col mk_redirect_ref : Method
  mk_workspace move options order_patch patch post pri prop_find prop_patch : Method
  put rebind report search trace unbind uncheckout unlink unlock update : Method
  update_redirect_ref version_control : Method

unfoldable pub as_string : Method → Bytes
as_string (other str) = str
as_string acl = codes "ACL"
as_string baseline_control = codes "BASELINE-CONTROL"
as_string bind = codes "BIND"
as_string check_in = codes "CHECKIN"
as_string check_out = codes "CHECKOUT"
as_string connect = codes "CONNECT"
as_string copy = codes "COPY"
as_string delete = codes "DELETE"
as_string get = codes "GET"
as_string head = codes "HEAD"
as_string label = codes "LABEL"
as_string link = codes "LINK"
as_string lock = codes "LOCK"
as_string merge = codes "MERGE"
as_string mk_activity = codes "MKACTIVITY"
as_string mk_calendar = codes "MKCALENDAR"
as_string mk_col = codes "MKCOL"
as_string mk_redirect_ref = codes "MKREDIRECTREF"
as_string mk_workspace = codes "MKWORKSPACE"
as_string move = codes "MOVE"
as_string options = codes "OPTIONS"
as_string order_patch = codes "ORDERPATCH"
as_string patch = codes "PATCH"
as_string post = codes "POST"
as_string pri = codes "PRI"
as_string prop_find = codes "PROPFIND"
as_string prop_patch = codes "PROPPATCH"
as_string put = codes "PUT"
as_string rebind = codes "REBIND"
as_string report = codes "REPORT"
as_string search = codes "SEARCH"
as_string trace = codes "TRACE"
as_string unbind = codes "UNBIND"
as_string uncheckout = codes "UNCHECKOUT"
as_string unlink = codes "UNLINK"
as_string unlock = codes "UNLOCK"
as_string update = codes "UPDATE"
as_string update_redirect_ref = codes "UPDATEREDIRECTREF"
as_string version_control = codes "VERSION-CONTROL"

unfoldable pub method_map : List (Bytes × Method)
method_map =
    (codes "ACL", acl)
    ∷ (codes "BASELINE-CONTROL", baseline_control)
    ∷ (codes "BIND", bind)
    ∷ (codes "CHECKIN", check_in)
    ∷ (codes "CHECKOUT", check_out)
    ∷ (codes "CONNECT", connect)
    ∷ (codes "COPY", copy)
    ∷ (codes "DELETE", delete)
    ∷ (codes "GET", get)
    ∷ (codes "HEAD", head)
    ∷ (codes "LABEL", label)
    ∷ (codes "LINK", link)
    ∷ (codes "LOCK", lock)
    ∷ (codes "MERGE", merge)
    ∷ (codes "MKACTIVITY", mk_activity)
    ∷ (codes "MKCALENDAR", mk_calendar)
    ∷ (codes "MKCOL", mk_col)
    ∷ (codes "MKREDIRECTREF", mk_redirect_ref)
    ∷ (codes "MKWORKSPACE", mk_workspace)
    ∷ (codes "MOVE", move)
    ∷ (codes "OPTIONS", options)
    ∷ (codes "ORDERPATCH", order_patch)
    ∷ (codes "PATCH", patch)
    ∷ (codes "POST", post)
    ∷ (codes "PRI", pri)
    ∷ (codes "PROPFIND", prop_find)
    ∷ (codes "PROPPATCH", prop_patch)
    ∷ (codes "PUT", put)
    ∷ (codes "REBIND", rebind)
    ∷ (codes "REPORT", report)
    ∷ (codes "SEARCH", search)
    ∷ (codes "TRACE", trace)
    ∷ (codes "UNBIND", unbind)
    ∷ (codes "UNCHECKOUT", uncheckout)
    ∷ (codes "UNLINK", unlink)
    ∷ (codes "UNLOCK", unlock)
    ∷ (codes "UPDATE", update)
    ∷ (codes "UPDATEREDIRECTREF", update_redirect_ref)
    ∷ (codes "VERSION-CONTROL", version_control)
    ∷ []

unfoldable pub find_method : Bytes → List (Bytes × Method) → Option Method
find_method value [] = none
find_method value ((key, method) ∷ entries) =
    if bytes_eq key value then some method else find_method value entries

-- `Method::from`, of a `String` or a `&str`.
unfoldable pub from_string : Bytes → Method
unfolding find_method method_map
from_string value = elim (find_method value method_map) [
  | some method ↦ method
  | none ↦ other value
]
