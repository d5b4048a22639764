-- ===== src/Http2/Hpack/DynamicTable.antt =====
-- `DynamicTable` of servente-http2/src/hpack.rs and its entries. A `StaticOrSharedString` is its
-- text, which is all that its equality looks at.
pub mod Laws
pub mod Eviction
use servente.Common.{
  ℕ, zero, suc, ◌+◌, ◌-◌, ◌%◌, ◌^◌, Bool, true, false, Option, none, some, List, [], ◌∷◌, ◌++◌,
  Bytes, codes, ltb, if◌then◌else◌, length, get_elem?, get_or,
}
use servente.Common.Result.{Result, ok, err}
use servente.Http.HeaderName.{HeaderName, to_string_h1}
use servente.Http.HeaderValue.{HeaderValue, string_length}
use servente.Http.Method
use servente.Http.Method.{Method}
use servente.Http2.Errors.{
  DynamicTableLookupError, invalid_index, out_of_bounds, pseudo_header_without_value,
  pseudo_header_status,
}
use servente.Http2.Hpack.StaticTable.{StaticTableEntry, static_table}

pub data DynamicTableEntry : Type 0 where
  authority : Bytes → DynamicTableEntry
  header : HeaderName → HeaderValue → DynamicTableEntry
  method : Method → DynamicTableEntry
  path scheme : Bytes → DynamicTableEntry

-- `HeaderValue::from`, of a `String`.
unfoldable pub with_value : DynamicTableEntry → Bytes → DynamicTableEntry
unfolding Method.from_string
with_value (authority s) value = authority value
with_value (header name v) value = header name (HeaderValue.string value)
with_value (method m) value = method (Method.from_string value)
with_value (path s) value = path value
with_value (scheme s) value = scheme value

-- The entries with their sizes, the newest first.
pub record DynamicTable : Type 0 where
  pub table : List (DynamicTableEntry × ℕ)
  pub current_size : ℕ
  pub max_size : ℕ

unfoldable pub new : ℕ → DynamicTable
new max_size = record { table = []; current_size = 0; max_size = max_size }

-- `pop_back`: the front and the last.
unfoldable pub pop_back {ℓ} : {A : Type ℓ} → List A → Option (List A × A)
pop_back [] = none
pop_back (x ∷ xs) = elim (pop_back xs) [
  | none ↦ some ([], x)
  | some (front, y) ↦ some (x ∷ front, y)
]

-- The branch of `get` for the static table.
unfoldable pub get_static :
    StaticTableEntry → Option Bytes → Result DynamicTableLookupError DynamicTableEntry
unfolding Method.from_string
get_static StaticTableEntry.illegal value = err invalid_index
get_static StaticTableEntry.authority (some value) = ok (authority value)
get_static StaticTableEntry.authority none = err pseudo_header_without_value
get_static (StaticTableEntry.method m) (some value) = ok (method (Method.from_string value))
get_static (StaticTableEntry.method m) none = ok (method m)
get_static (StaticTableEntry.path p) (some value) = ok (path value)
get_static (StaticTableEntry.path p) none = ok (path p)
get_static (StaticTableEntry.scheme s) (some value) = ok (scheme value)
get_static (StaticTableEntry.scheme s) none = ok (scheme s)
get_static (StaticTableEntry.status s) value = err pseudo_header_status
get_static (StaticTableEntry.header name) (some value) = ok (header name (HeaderValue.string value))
get_static (StaticTableEntry.header name) none =
    ok (header name (HeaderValue.static_string (codes "")))
get_static (StaticTableEntry.header_with_value name v) (some value) =
    ok (header name (HeaderValue.string value))
get_static (StaticTableEntry.header_with_value name v) none = ok (header name v)

unfoldable pub get_dynamic :
    Option (DynamicTableEntry × ℕ) → Option Bytes → Result DynamicTableLookupError DynamicTableEntry
unfolding with_value
get_dynamic (some (entry, size)) (some value) = ok (with_value entry value)
get_dynamic (some (entry, size)) none = ok entry
get_dynamic none value = err out_of_bounds

unfoldable pub get :
    DynamicTable → ℕ → Option Bytes → Result DynamicTableLookupError DynamicTableEntry
unfolding get_static get_dynamic static_table
get t index supplied_value =
    if ltb index (length static_table)
    then get_static (get_or static_table index StaticTableEntry.illegal) supplied_value
    else get_dynamic (get_elem? t.table (index - length static_table)) supplied_value

-- `self.current_size -= last_entry_size` on a `usize`.
abbrev pub shrink : DynamicTable → List (DynamicTableEntry × ℕ) → ℕ → DynamicTable
shrink t front last_entry_size = record t {
  table = front;
  current_size = (t.current_size + 2 ^ 64 - last_entry_size) % 2 ^ 64;
}

-- The loop of `insert`. The flag is false where the loop left the method by its `return`. A round
-- takes an entry out, so one round more than there are entries is enough.
unfoldable pub make_room : ℕ → ℕ → DynamicTable → DynamicTable × Bool
unfolding pop_back
make_room zero entry_size t = (t, false)
make_room (suc fuel) entry_size t =
    let more : DynamicTable × Bool = elim (pop_back t.table) [
      | none ↦ (t, false)
      | some (front, (entry, last_entry_size)) ↦
          make_room fuel entry_size (shrink t front last_entry_size)
    ] in
    if ltb t.max_size (t.current_size + entry_size) then more else (t, true)

-- The loop of `size_update`.
unfoldable pub size_update_loop : ℕ → ℕ → DynamicTable → DynamicTable
unfolding pop_back
size_update_loop zero size t = t
size_update_loop (suc fuel) size t =
    let more : DynamicTable = elim (pop_back t.table) [
      | none ↦ t
      | some (front, (entry, last_entry_size)) ↦
          size_update_loop fuel size (shrink t front last_entry_size)
    ] in
    if ltb size t.current_size then more else t

unfoldable pub size_update : DynamicTable → ℕ → DynamicTable
unfolding size_update_loop
size_update t size = size_update_loop (length t.table + 1) size t

module _ (http_date : ℕ → Bytes) where
  unfoldable pub calculate_size : DynamicTableEntry → ℕ
  unfolding to_string_h1 string_length Method.as_string
  calculate_size (authority s) = length (codes ":authority") + length s + 32
  calculate_size (header name value) =
      length (to_string_h1 name) + string_length http_date value + 32
  calculate_size (method m) = length (codes ":method") + length (Method.as_string m) + 32
  calculate_size (path s) = length (codes ":path") + length s + 32
  calculate_size (scheme s) = length (codes ":scheme") + length s + 32

  -- Behind the loop: the entry goes in front, unless the loop has returned.
  unfoldable pub push_front : DynamicTableEntry → ℕ → DynamicTable × Bool → DynamicTable
  push_front entry entry_size (t, true) = record t { table = (entry, entry_size) ∷ t.table }
  push_front entry entry_size (t, false) = t

  unfoldable pub insert : DynamicTable → DynamicTableEntry → DynamicTable
  unfolding calculate_size make_room push_front
  insert t entry =
      let entry_size = calculate_size entry in
      if ltb t.max_size entry_size
      then record t { table = [] }
      else push_front entry entry_size (make_room (length t.table + 1) entry_size t)
