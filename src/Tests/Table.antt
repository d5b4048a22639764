-- ===== src/Tests/Table.antt =====
-- The theorems on the dynamic table of HPACK, at concrete inputs.
use servente.Common.{ℕ, ◌≡◌, arith, ◌∷◌, Bytes, codes}
use servente.Http2.Hpack.DynamicTable.{DynamicTable, path, new, insert, calculate_size}
use servente.Http2.Hpack.DynamicTable.Eviction.{here, next, inserts, Reach-insert}

abbrev date_text : ℕ → Bytes
date_text seconds = codes "Thu, 01 Jan 1970 00:00:00 GMT"

-- A table for 80 octets, with one entry of 39.
abbrev reached : DynamicTable
reached = insert date_text (new 80) (path (codes "/a"))

Reach-insert_example :
    (reached.current_size ≡ 0)
    × ((insert date_text reached (path (codes "/b"))).table
        ≡ (path (codes "/b"), calculate_size date_text (path (codes "/b"))) ∷ reached.table)
unfolding calculate_size
Reach-insert_example =
    Reach-insert date_text (path (codes "/b")) (next here (inserts (new 80) (path (codes "/a"))))
      (omega arith)
