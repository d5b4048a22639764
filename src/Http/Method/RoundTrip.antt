-- ===== src/Http/Method/RoundTrip.antt =====
-- The names of methods in servente-http/src/method.rs, both ways.
use servente.Common.{◌≡◌, refl}
use servente.Http.Method.{
  Method, other, acl, baseline_control, bind, check_in, check_out, connect, copy, delete, get, head,
  label, link, lock, merge, mk_activity, mk_calendar, mk_col, mk_redirect_ref, mk_workspace, move,
  options, order_patch, patch, post, pri, prop_find, prop_patch, put, rebind, report, search, trace,
  unbind, uncheckout, unlink, unlock, update, update_redirect_ref, version_control, as_string,
  from_string,
}

-- A method that is not spelled out reads back as itself.
abbrev pub IsStandard : Method → Type 0
IsStandard (other str) = ⊥
IsStandard _ = Unit

-- The text of each method that has a constructor of its own names that method.
pub from_string-as_string : (m : Method) → IsStandard m → from_string (as_string m) ≡ m
unfolding from_string as_string
from_string-as_string (other str) h = absurd h
from_string-as_string acl h = refl
from_string-as_string baseline_control h = refl
from_string-as_string bind h = refl
from_string-as_string check_in h = refl
from_string-as_string check_out h = refl
from_string-as_string connect h = refl
from_string-as_string copy h = refl
from_string-as_string delete h = refl
from_string-as_string get h = refl
from_string-as_string head h = refl
from_string-as_string label h = refl
from_string-as_string link h = refl
from_string-as_string lock h = refl
from_string-as_string merge h = refl
from_string-as_string mk_activity h = refl
from_string-as_string mk_calendar h = refl
from_string-as_string mk_col h = refl
from_string-as_string mk_redirect_ref h = refl
from_string-as_string mk_workspace h = refl
from_string-as_string move h = refl
from_string-as_string options h = refl
from_string-as_string order_patch h = refl
from_string-as_string patch h = refl
from_string-as_string post h = refl
from_string-as_string pri h = refl
from_string-as_string prop_find h = refl
from_string-as_string prop_patch h = refl
from_string-as_string put h = refl
from_string-as_string rebind h = refl
from_string-as_string report h = refl
from_string-as_string search h = refl
from_string-as_string trace h = refl
from_string-as_string unbind h = refl
from_string-as_string uncheckout h = refl
from_string-as_string unlink h = refl
from_string-as_string unlock h = refl
from_string-as_string update h = refl
from_string-as_string update_redirect_ref h = refl
from_string-as_string version_control h = refl
