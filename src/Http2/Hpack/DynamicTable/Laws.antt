-- ===== src/Http2/Hpack/DynamicTable/Laws.antt =====
-- The index space of the tables of servente-http2/src/hpack.rs behind an insertion.
use servente.Common.{
  ℕ, suc, ◌+◌, ◌-◌, ◌<◌, ◌≡◌, refl, sym, ◌∙◌, arith, true, false, Option, none, ◌∷◌, Bytes, ltb,
  get_elem?, get_or,
}
use servente.Common.Result.{ok}
use servente.Http2.Hpack.StaticTable.{StaticTableEntry, static_table}
use servente.Http2.Hpack.DynamicTable.{
  DynamicTable, DynamicTableEntry, get, get_dynamic, get_static,
}

-- An index of 62 or more is one of the dynamic table.
pub get-add :
    (t : DynamicTable) (i : ℕ) (v : Option Bytes)
    → get t (62 + i) v ≡ get_dynamic (get_elem? t.table i) v
unfolding get
get-add t i v =
    let dynamic : ltb (62 + i) 62 ≡ false = ground arith in
    let index : 62 + i - 62 ≡ i = omega arith in rw (dynamic, index)

-- A lower index is one of the static table, whatever the dynamic table is.
get-static_part :
    (t : DynamicTable) (i : ℕ) (v : Option Bytes)
    → i < 62
    → get t i v ≡ get_static (get_or static_table i StaticTableEntry.illegal) v
unfolding get
get-static_part t i v low = let static : ltb i 62 ≡ true = ground arith in rw static refl

-- Behind an insertion that adds its entry in front, index 62 is the new entry, each older entry has
-- the next index, and the static table is as before.
pub get-push_front :
    (t t' : DynamicTable) (e : DynamicTableEntry) (n i : ℕ) (v : Option Bytes)
    → t'.table ≡ (e, n) ∷ t.table
    → (get t' 62 none ≡ ok e)
      × (get t' (62 + suc i) v ≡ get t (62 + i) v)
      × (i < 62 → get t' i v ≡ get t i v)
get-push_front t t' e n i v h = (
  get-add t' 0 none ∙ rw h (unfold get_dynamic in refl),
  get-add t' (suc i) v ∙ rw h (sym (get-add t i v)),
  λ low. get-static_part t' i v low ∙ sym (get-static_part t i v low),
)
