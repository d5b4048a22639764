-- ===== src/Http/HeaderMap/Laws.antt =====
-- `get` behind `append`, `append_or_override` and `remove` (servente-http/src/header_map.rs).
use servente.Common.{
  ℕ, ◌≡◌, ◌≢◌, ◌↔◌, refl, arith, Option, none, some, List, [], ◌∷◌, ◌++◌, Bytes, codes,
  if◌then◌else◌,
}
use servente.Common.Result.{ok, err}
use servente.Http.HeaderName.{
  HeaderName, header_name_eq, header_name_eq_iff, set_cookie, content_length,
}
use servente.Http.HeaderValue.{HeaderValue, as_str_may_convert}
use servente.Http.HeaderMap.{
  HeaderMap, multiple_content_length, find_header, put_header, get, append_or_override, remove,
  remove_header, append, append_occupied,
}

find_header-put_header :
    (k j : HeaderName) (v : HeaderValue) (m : List (HeaderName × HeaderValue))
    → find_header j (put_header k v m) ≡ (if header_name_eq k j then some v else find_header j m)
unfolding find_header put_header
find_header-put_header k j v [] = refl
find_header-put_header k j v ((n, w) ∷ m) = ground (
  arith,
  header_name_eq_iff k j,
  header_name_eq_iff n k,
  header_name_eq_iff n j,
  find_header-put_header k j v m,
)

find_header-remove_header :
    (k j : HeaderName) (m : List (HeaderName × HeaderValue))
    → find_header j (remove_header k m) ≡ (if header_name_eq k j then none else find_header j m)
unfolding find_header remove_header
find_header-remove_header k j [] = ground arith
find_header-remove_header k j ((n, w) ∷ m) = ground (
  arith,
  header_name_eq_iff k j,
  header_name_eq_iff n k,
  header_name_eq_iff n j,
  find_header-remove_header k j m,
)

-- `append_or_override` gives the name this value, whatever it had, and leaves the others.
pub get-append_or_override :
    (m : HeaderMap) (k j : HeaderName) (v : HeaderValue)
    → get (append_or_override m k v) j ≡ (if header_name_eq k j then some v else get m j)
unfolding get append_or_override
get-append_or_override m k j v = find_header-put_header k j v m.headers

-- `remove` takes the name out and leaves the others.
pub get-remove :
    (m : HeaderMap) (k j : HeaderName)
    → get (remove m k) j ≡ (if header_name_eq k j then none else get m j)
unfolding get remove
get-remove m k j = find_header-remove_header k j m.headers

module _ (http_date : ℕ → Bytes) where
  -- What an accepted value becomes beside the value that the name had.
  abbrev pub joined : Option HeaderValue → HeaderValue → HeaderValue
  joined none v = v
  joined (some old) v =
      HeaderValue.string
        (as_str_may_convert http_date old ++ codes ", " ++ as_str_may_convert http_date v)

  -- Where a value is accepted under a name other than Set-Cookie, `get` gives it for the name,
  -- joined to an earlier value by a comma, gives what it gave for every other name, and the list
  -- of cookies is unchanged.
  pub get-append :
      (m : HeaderMap) (k j : HeaderName) (v : HeaderValue) {m' : HeaderMap}
      → k ≢ set_cookie
      → append http_date m k v ≡ ok m'
      → (get m' j ≡ (if header_name_eq k j then some (joined (get m k) v) else get m j))
        × (m'.set_cookie_values ≡ m.set_cookie_values)
  unfolding get append append_occupied
  get-append m k j v ne h = ground (
    arith,
    header_name_eq_iff k set_cookie,
    find_header-put_header k j v m.headers,
    find_header-put_header k j (joined (find_header k m.headers) v) m.headers,
  )

  -- Exactly a second Content-Length is refused.
  pub append-eq-err_iff :
      (m : HeaderMap) (k : HeaderName) (v : HeaderValue)
      → (append http_date m k v ≡ err multiple_content_length)
        ↔ ((k ≡ content_length) × (get m k ≢ none))
  unfolding get append append_occupied
  append-eq-err_iff m k v =
      ground (arith, header_name_eq_iff k set_cookie, header_name_eq_iff k content_length)
