-- ===== src/Http2/Huffman/Tree.antt =====
-- `HuffmanTree` of servente-http2/src/hpack.rs. A hash map is the list of its entries.
use servente.Common.{ℕ, ◌+◌, Option, none, some, List, [], ◌∷◌}
use servente.Common.HashMap.{map_get, map_insert}
use servente.Http2.Huffman.Table.{HuffmanEntry, huffman_code, huffman_eos_entry}

pub data HuffmanValue : Type 0 where
  end_of_stream : HuffmanValue
  symbol : ℕ → HuffmanValue

-- The symbols by the length of their code, and then by the code.
abbrev pub HuffmanTree : Type 0
HuffmanTree = List (ℕ × List (ℕ × HuffmanValue))

-- `tree.table.entry(length).or_default().insert(code, value)`
unfoldable pub insert_code : HuffmanEntry → HuffmanValue → HuffmanTree → HuffmanTree
unfolding map_get map_insert
insert_code e v tree =
    let codes : List (ℕ × HuffmanValue) = elim (map_get e.length_in_bits tree) [
      | some m ↦ m
      | none ↦ []
    ] in
    map_insert e.length_in_bits (map_insert e.code v codes) tree

-- The `for` loop of `new`, from a symbol on.
unfoldable pub insert_symbols : ℕ → List HuffmanEntry → HuffmanTree → HuffmanTree
unfolding insert_code
insert_symbols sym [] tree = tree
insert_symbols sym (e ∷ es) tree = insert_symbols (sym + 1) es (insert_code e (symbol sym) tree)

-- `HUFFMAN_TREE`
unfoldable pub huffman_tree : HuffmanTree
unfolding insert_symbols huffman_code
huffman_tree = insert_code huffman_eos_entry end_of_stream (insert_symbols 0 huffman_code [])

-- The two lookups of `decode_huffman`.
unfoldable pub lookup_code : HuffmanTree → ℕ → ℕ → Option HuffmanValue
unfolding map_get
lookup_code tree bit_length current_number = elim (map_get bit_length tree) [
  | some symbols_for_bit_length ↦ map_get current_number symbols_for_bit_length
  | none ↦ none
]
