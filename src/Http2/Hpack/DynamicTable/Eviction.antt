-- ===== src/Http2/Hpack/DynamicTable/Eviction.antt =====
-- The size that the dynamic table of servente-http2/src/hpack.rs keeps, and that it evicts nothing.
use servente.Common.{
  ℕ, zero, suc, ◌+◌, ◌≤◌, ◌≡◌, refl, ap, ◌∙◌, arith, true, false, ◌∷◌, Bytes, ltb, length,
  Bool-cases, inl, inr,
}
use servente.Http2.Hpack.DynamicTable.{
  DynamicTable, DynamicTableEntry, new, insert, calculate_size, make_room, size_update,
  size_update_loop,
}

-- With nothing counted, the loops stop at once.
make_room_uncounted :
    (fuel entry_size : ℕ) (t : DynamicTable)
    → t.current_size ≡ 0
    → entry_size ≤ t.max_size
    → make_room (suc fuel) entry_size t ≡ (t, true)
unfolding make_room
make_room_uncounted fuel entry_size t z h =
    let fits : ltb t.max_size (t.current_size + entry_size) ≡ false = ground arith in rw fits refl

size_update_loop_uncounted :
    (fuel size : ℕ) (t : DynamicTable) → t.current_size ≡ 0 → size_update_loop fuel size t ≡ t
unfolding size_update_loop
size_update_loop_uncounted zero size t z = refl
size_update_loop_uncounted (suc fuel) size t z =
    let fits : ltb size t.current_size ≡ false = ground arith in rw fits refl

size_update_uncounted : (t : DynamicTable) (size : ℕ) → t.current_size ≡ 0 → size_update t size ≡ t
unfolding size_update
size_update_uncounted t size z = size_update_loop_uncounted (length t.table + 1) size t z

module _ (http_date : ℕ → Bytes) where
  -- With nothing counted, an entry of at most the maximum is added and none is evicted.
  insert_uncounted :
      (t : DynamicTable) (e : DynamicTableEntry)
      → t.current_size ≡ 0
      → calculate_size http_date e ≤ t.max_size
      → insert http_date t e ≡ record t { table = (e, calculate_size http_date e) ∷ t.table }
  unfolding insert
  insert_uncounted t e z h =
      let size = calculate_size http_date e in
      let small : ltb t.max_size size ≡ false = ground arith in
      let round : length t.table + 1 ≡ suc (length t.table) = omega arith in
      rw (small, round, make_room_uncounted (length t.table) size t z h) refl

  insert_large :
      (t : DynamicTable) (e : DynamicTableEntry)
      → ltb t.max_size (calculate_size http_date e) ≡ true
      → t.current_size ≡ 0
      → ((insert http_date t e).current_size ≡ 0) × ((insert http_date t e).max_size ≡ t.max_size)
  unfolding insert
  insert_large t e large z = rw large (z, refl)

  -- What the code does with a table: insertions and size updates.
  pub data Step : DynamicTable → DynamicTable → Type 0 where
    inserts : (t : DynamicTable) (e : DynamicTableEntry) → Step t (insert http_date t e)
    updates : (t : DynamicTable) (size : ℕ) → Step t (size_update t size)

  pub data Reach (s : DynamicTable) : DynamicTable → Type 0 where
    here : Reach s s
    next : {t u : DynamicTable} → Reach s t → Step t u → Reach s u

  Step-current_size :
      {t u : DynamicTable}
      → Step t u
      → t.current_size ≡ 0
      → (u.current_size ≡ 0) × (u.max_size ≡ t.max_size)
  Step-current_size (inserts t e) z =
      elim (Bool-cases (ltb t.max_size (calculate_size http_date e))) [
        | inl large ↦ insert_large t e large z
        | inr small ↦
            let same = insert_uncounted t e z (ground arith) in
            (
              ap (λ (u : DynamicTable). u.current_size) same ∙ z,
              ap (λ (u : DynamicTable). u.max_size) same,
            )
      ]
  Step-current_size (updates t size) z =
      let same = size_update_uncounted t size z in
      (
        ap (λ (u : DynamicTable). u.current_size) same ∙ z,
        ap (λ (u : DynamicTable). u.max_size) same,
      )

  Reach-current_size :
      {m : ℕ} {t : DynamicTable} → Reach (new m) t → (t.current_size ≡ 0) × (t.max_size ≡ m)
  unfolding new
  Reach-current_size here = (refl, refl)
  Reach-current_size (next r s) =
      let (z, m) = Reach-current_size r in let (z', m') = Step-current_size s z in (z', m' ∙ m)

  -- In every table that the operations make from a new one, the size stays at 0, and an entry that
  -- is not larger than the maximum is added with all older entries kept, whatever their sizes are.
  pub Reach-insert :
      {m : ℕ} {t : DynamicTable} (e : DynamicTableEntry)
      → Reach (new m) t
      → calculate_size http_date e ≤ m
      → (t.current_size ≡ 0)
        × ((insert http_date t e).table ≡ (e, calculate_size http_date e) ∷ t.table)
  Reach-insert {t = t} e r h =
      let (z, m) = Reach-current_size r in
      (z, ap (λ (u : DynamicTable). u.table) (insert_uncounted t e z (omega arith)))
