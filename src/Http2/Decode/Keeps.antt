-- ===== src/Http2/Decode/Keeps.antt =====
-- What every step of the decoding of servente-http2/src/hpack.rs keeps, and so the whole decoding.
use servente.Common.{
  ℕ, zero, suc, ◌+◌, ◌≡◌, Bool, true, false, Bytes, ◌==◌, bit_and, Option-cases, inl, inr,
}
use servente.Common.Result.{ok}
use servente.Http.HeaderName.{HeaderName}
use servente.Http.HeaderValue.{HeaderValue}
use servente.Http.Method.{Method}
use servente.Http2.Errors.{unexpected_end_of_file}
use servente.Http2.Transit.{HeadersInTransit, read_u8, read_integer, remaining}
use servente.Http2.Transit.Progress.{IsLater, read_u8-IsLater, read_integer-Moves}
use servente.Http2.ReadString.{read_string}
use servente.Http2.ReadString.Progress.{MovesOk-ok_or, read_string-MovesOk}
use servente.Http2.Hpack.DynamicTable
use servente.Http2.Hpack.DynamicTable.{
  DynamicTable, DynamicTableEntry, authority, header, method, path, scheme,
}
use servente.Http2.Sink.{HpackDecodeSink}
use servente.Http2.Decode.Monad.Keeps.{
  Keeps, Keeps-bind, Keeps-lift, Keeps-with_table, Keeps-with_sink, Keeps-from_request, Keeps-if,
}
use servente.Http2.Decode.Monad.{Decoding, integer, string, change_table}
use servente.Http2.Decode.{
  emit, indexed_field, new_name, incremental_new_name, insert_and_emit, incremental_indexed_name,
  table_size_update, literal_new_name, check_and_emit, indexed_name, without_indexing, decode_field,
  decode_fields, decode_hpack_sink,
}

-- What a property of the state needs to be kept: each of the three parts may change as the
-- operations on it change it.
pub record IsKept {S : Type 0} (http_date : ℕ → Bytes) (sink : HpackDecodeSink S)
    (P : Decoding S → Type 0) : Type 0 where
  pub reads :
      (d : Decoding S) (h : HeadersInTransit)
      → IsLater d.request h
      → P d
      → P (record d { request = h })
  pub inserts :
      (d : Decoding S) (e : DynamicTableEntry)
      → P d
      → P (record d { dynamic_table = DynamicTable.insert http_date d.dynamic_table e })
  pub updates :
      (d : Decoding S) (size : ℕ)
      → P d
      → P (record d { dynamic_table = DynamicTable.size_update d.dynamic_table size })
  pub adds_header :
      (d : Decoding S) (n : HeaderName) (v : HeaderValue) (s : S)
      → sink.add_header d.sink n v ≡ ok s
      → P d
      → P (record d { sink = s })
  pub sets_authority :
      (d : Decoding S) (b : Bytes) (s : S)
      → sink.set_authority d.sink b ≡ ok s
      → P d
      → P (record d { sink = s })
  pub sets_method :
      (d : Decoding S) (m : Method) (s : S)
      → sink.set_method d.sink m ≡ ok s
      → P d
      → P (record d { sink = s })
  pub sets_path :
      (d : Decoding S) (b : Bytes) (s : S)
      → sink.set_path d.sink b ≡ ok s
      → P d
      → P (record d { sink = s })
  pub sets_scheme :
      (d : Decoding S) (b : Bytes) (s : S)
      → sink.set_scheme d.sink b ≡ ok s
      → P d
      → P (record d { sink = s })

module _ (http_date : ℕ → Bytes) {S : Type 0} (sink : HpackDecodeSink S) (P : Decoding S → Type 0)
    (kept : IsKept http_date sink P) where
  integer-Keeps : (first_byte n : ℕ) → Keeps P (integer first_byte n)
  unfolding integer
  integer-Keeps first_byte n = Keeps-from_request P _ kept.reads (λ h.
      MovesOk-ok_or h (read_integer first_byte n h) unexpected_end_of_file
        (read_integer-Moves first_byte n h))

  string-Keeps : Keeps P string
  unfolding string
  string-Keeps = Keeps-from_request P read_string kept.reads read_string-MovesOk

  insert-Keeps :
      (e : DynamicTableEntry) → Keeps P (change_table (λ t. DynamicTable.insert http_date t e))
  unfolding change_table
  insert-Keeps e = record { keeps = λ d p. kept.inserts d e p }

  emit-Keeps : (e : DynamicTableEntry) → Keeps P (emit http_date sink e)
  unfolding emit
  emit-Keeps (authority s) = Keeps-with_sink P _ (λ d. kept.sets_authority d s)
  emit-Keeps (header n v) = Keeps-with_sink P _ (λ d. kept.adds_header d n v)
  emit-Keeps (method m) = Keeps-with_sink P _ (λ d. kept.sets_method d m)
  emit-Keeps (path s) = Keeps-with_sink P _ (λ d. kept.sets_path d s)
  emit-Keeps (scheme s) = Keeps-with_sink P _ (λ d. kept.sets_scheme d s)

  indexed_field-Keeps : (b : ℕ) → Keeps P (indexed_field http_date sink b)
  unfolding indexed_field
  indexed_field-Keeps b =
      Keeps-bind P _ _ (integer-Keeps (bit_and b 0x7f) 7)
        (λ index. Keeps-bind P _ _ (Keeps-with_table P _) (λ entry. emit-Keeps entry))

  new_name-Keeps : (f : Bytes → HeaderValue) → Keeps P (new_name http_date sink f)
  unfolding new_name
  new_name-Keeps f = Keeps-bind P _ _ string-Keeps (λ name. Keeps-bind P _ _ (Keeps-lift P _) (λ _.
      Keeps-bind P _ _ string-Keeps (λ value.
        Keeps-bind P _ _ (Keeps-lift P _)
          (λ _. Keeps-bind P _ _ (Keeps-lift P _) (λ _. Keeps-lift P _)))))

  insert_and_emit-Keeps : (e : DynamicTableEntry) → Keeps P (insert_and_emit http_date sink e)
  unfolding insert_and_emit
  insert_and_emit-Keeps (path s) =
      Keeps-bind P _ _ (Keeps-lift P _)
        (λ _. Keeps-bind P _ _ (insert-Keeps (path s)) (λ _. emit-Keeps (path s)))
  insert_and_emit-Keeps (authority s) =
      Keeps-bind P _ _ (insert-Keeps (authority s)) (λ _. emit-Keeps (authority s))
  insert_and_emit-Keeps (header n v) =
      Keeps-bind P _ _ (insert-Keeps (header n v)) (λ _. emit-Keeps (header n v))
  insert_and_emit-Keeps (method m) =
      Keeps-bind P _ _ (insert-Keeps (method m)) (λ _. emit-Keeps (method m))
  insert_and_emit-Keeps (scheme s) =
      Keeps-bind P _ _ (insert-Keeps (scheme s)) (λ _. emit-Keeps (scheme s))

  check_and_emit-Keeps : (e : DynamicTableEntry) → Keeps P (check_and_emit http_date sink e)
  unfolding check_and_emit
  check_and_emit-Keeps (header n v) =
      Keeps-bind P _ _ (Keeps-lift P _) (λ _. Keeps-with_sink P _ (λ d. kept.adds_header d n v))
  check_and_emit-Keeps (path s) = Keeps-bind P _ _ (Keeps-lift P _) (λ _. emit-Keeps (path s))
  check_and_emit-Keeps (authority s) = emit-Keeps (authority s)
  check_and_emit-Keeps (method m) = emit-Keeps (method m)
  check_and_emit-Keeps (scheme s) = emit-Keeps (scheme s)

  indexed_name-Keeps : (b : ℕ) → Keeps P (indexed_name http_date sink b)
  unfolding indexed_name
  indexed_name-Keeps b = Keeps-bind P _ _ (integer-Keeps _ 4) (λ index.
      Keeps-bind P _ _ string-Keeps
        (λ value. Keeps-bind P _ _ (Keeps-lift P _) (λ _. Keeps-with_table P _)))

  without_indexing-Keeps : (e : DynamicTableEntry) → Keeps P (without_indexing http_date sink e)
  unfolding without_indexing
  without_indexing-Keeps (scheme s) = insert_and_emit-Keeps (scheme s)
  without_indexing-Keeps (authority s) = check_and_emit-Keeps (authority s)
  without_indexing-Keeps (header n v) = check_and_emit-Keeps (header n v)
  without_indexing-Keeps (method m) = check_and_emit-Keeps (method m)
  without_indexing-Keeps (path s) = check_and_emit-Keeps (path s)

  literal_new_name-Keeps : Keeps P (literal_new_name http_date sink)
  unfolding literal_new_name
  literal_new_name-Keeps =
      Keeps-bind P _ _ (new_name-Keeps _)
        (λ field. let (n, v) = field in Keeps-with_sink P _ (λ d. kept.adds_header d n v))

  incremental_new_name-Keeps : Keeps P (incremental_new_name http_date sink)
  unfolding incremental_new_name
  incremental_new_name-Keeps = Keeps-bind P _ _ (new_name-Keeps _) (λ field.
      let (n, v) = field in
      Keeps-bind P _ _ (insert-Keeps (header n v))
        (λ _. Keeps-with_sink P _ (λ d. kept.adds_header d n v)))

  incremental_indexed_name-Keeps : (b : ℕ) → Keeps P (incremental_indexed_name http_date sink b)
  unfolding incremental_indexed_name
  incremental_indexed_name-Keeps b = Keeps-bind P _ _ (integer-Keeps _ 6) (λ index.
      Keeps-bind P _ _ string-Keeps
        (λ value. Keeps-bind P _ _ (Keeps-with_table P _) (λ entry. insert_and_emit-Keeps entry)))

  update-Keeps : (size : ℕ) → Keeps P (change_table (λ t. DynamicTable.size_update t size))
  unfolding change_table
  update-Keeps size = record { keeps = λ d p. kept.updates d size p }

  table_size_update-Keeps :
      (is_first : Bool) (b : ℕ) → Keeps P (table_size_update http_date sink is_first b)
  unfolding table_size_update
  table_size_update-Keeps is_first b = Keeps-bind P _ _ (integer-Keeps _ 5) (λ size.
      Keeps-bind P _ _ (Keeps-if P _ _ _ (Keeps-lift P _) (Keeps-lift P _))
        (λ _. Keeps-bind P _ _ (Keeps-with_table P _) (λ _. update-Keeps size)))

  pub decode_field-Keeps :
      (is_first : Bool) (b : ℕ) → Keeps P (decode_field http_date sink is_first b)
  unfolding decode_field
  decode_field-Keeps is_first b = Keeps-if P (bit_and b 0x80 == 0x80) _ _ (indexed_field-Keeps b) (
      Keeps-if P (bit_and b 0x40 == 0x40) _ _
        (Keeps-if P (b == 0x40) _ _ incremental_new_name-Keeps (incremental_indexed_name-Keeps b))
        (Keeps-if P (bit_and b 0x20 == 0x20) _ _ (table_size_update-Keeps is_first b) (
          Keeps-if P (bit_and b 0x10 == 0x10) _ _
            (Keeps-if P (b == 0x10) _ _ literal_new_name-Keeps
              (Keeps-bind P _ _ (indexed_name-Keeps b) check_and_emit-Keeps))
            (Keeps-if P (b == 0) _ _ literal_new_name-Keeps
              (Keeps-bind P _ _ (indexed_name-Keeps b) without_indexing-Keeps)))))

  decode_fields-Keeps :
      (fuel : ℕ) (is_first : Bool) → Keeps P (decode_fields http_date sink fuel is_first)
  unfolding decode_fields
  decode_fields-Keeps zero is_first = record { keeps = λ d p. p }
  decode_fields-Keeps (suc fuel) is_first = record {
    keeps = λ d p. elim (Option-cases (read_u8 d.request)) [
      | inl q ↦ rw (q, decode_fields) p
      | inr ((b, h), q) ↦
          rw (q, decode_fields)
            ((Keeps-bind P _ _ (decode_field-Keeps is_first b)
                (λ _. decode_fields-Keeps fuel false)).keeps
              (record d { request = h }) (kept.reads d h (read_u8-IsLater d.request b h q) p))
    ];
  }

  -- A property that the operations on each part of the state keep holds after the decoding of a
  -- whole block, with an error too, if it holds before.
  pub decode_hpack_sink-Keeps : Keeps P (decode_hpack_sink http_date sink)
  unfolding decode_hpack_sink
  decode_hpack_sink-Keeps = record {
    keeps = λ d p. (decode_fields-Keeps (remaining d.request + 1) true).keeps d p;
  }
