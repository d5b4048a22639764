-- ===== src/Tests/Decode.antt =====
-- The theorems on the decoding of header blocks, at concrete inputs.
use servente.Common.{
  ℕ, ◌≡◌, ◌↔◌, refl, false, not, ◌&&◌, ◌||◌, none, [], ◌∷◌, Bytes, codes, bytes_eq, All,
}
use servente.Common.Result.{ok}
use servente.Common.Utf8.{from_utf8}
use servente.Http.HeaderMap.{empty}
use servente.Http.Method
use servente.Http.Request.{Request, http2}
use servente.Http.RequestTarget.{asterisk, starts_with}
use servente.Http2.Decode.{decode_hpack_sink, decode_hpack_tailer_section}
use servente.Http2.Decode.Monad.{
  Decoding, ◌>>=◌, lift, from_request, integer, string, change_table, with_table, with_sink,
}
use servente.Http2.Decode.Fuel.{decode_hpack_sink-reads_all}
use servente.Http2.Decode.Sections.{HasSameHead, decode_hpack_tailer_section-HasSameHead}
use servente.Http2.Hpack.DynamicTable.{new}
use servente.Http2.Sink.{HpackDecodeSinkHeaders, headers_sink, default}
use servente.Http2.Transit.{HeadersInTransit, read_u8, peek_u8, read_integer}
use servente.Http2.ReadString.{read_string, read_octets}
use servente.Http2.Validate.{validate_header_name, validate_header_value, is_empty, ends_with}
use servente.Http2.Validate.Laws.{IsNameByte, validate_header_name_iff, validate_header_value_iff}

abbrev date_text : ℕ → Bytes
date_text seconds = codes "Thu, 01 Jan 1970 00:00:00 GMT"

-- `:method GET`, `:path /`, `:scheme https` and a field of its own name.
abbrev block : HeadersInTransit
block = record {
  headers = (0x82 ∷ 0x84 ∷ []) ∷ (0x87 ∷ 0x40 ∷ 0x01 ∷ b'a' ∷ 0x01 ∷ b'b' ∷ []) ∷ [];
  cursor = 0;
}

abbrev decoding : Decoding HpackDecodeSinkHeaders
decoding = record { request = block; dynamic_table = new 4096; sink = default }

abbrev decoded : Decoding HpackDecodeSinkHeaders
unfolding decode_hpack_sink ◌>>=◌ lift from_request integer string change_table with_table with_sink
    headers_sink
decoded = let (r, d) = decode_hpack_sink date_text (headers_sink date_text) decoding in d

decode_hpack_sink-reads_all_example : read_u8 decoded.request ≡ none
unfolding decode_hpack_sink ◌>>=◌ lift from_request integer string change_table with_table with_sink
    headers_sink read_u8 peek_u8 read_integer read_string read_octets from_utf8
decode_hpack_sink-reads_all_example =
    decode_hpack_sink-reads_all date_text (headers_sink date_text) decoding decoded refl

-- A request whose trailer section sends a pseudo field.
abbrev request : Request
request = record {
  method = Method.get;
  target = asterisk;
  version = http2;
  headers = empty;
  body = none;
}

decode_hpack_tailer_section-HasSameHead_example :
    let (r, t, request') = decode_hpack_tailer_section date_text block (new 4096) request in
    HasSameHead request request'
decode_hpack_tailer_section-HasSameHead_example =
    decode_hpack_tailer_section-HasSameHead date_text block (new 4096) request

validate_header_name_iff_example :
    validate_header_name (codes "a:") ≡ ok tt
    ↔ (is_empty (codes "a:") ≡ false)
      × ((starts_with (codes "a:") (codes ":") && not (bytes_eq (codes "a:") (codes ":protocol")))
          ≡ false)
      × All IsNameByte (codes "a:")
validate_header_name_iff_example = validate_header_name_iff (codes "a:")

validate_header_value_iff_example :
    validate_header_value (codes "b ") ≡ ok tt
    ↔ ((starts_with (codes "b ") (codes " ") || starts_with (codes "b ") (9 ∷ [])) ≡ false)
      × ((ends_with (codes "b ") b' ' || ends_with (codes "b ") 9) ≡ false)
      × All (λ c. (c ≡ 0 → ⊥) × (c ≡ 10 → ⊥) × (c ≡ 13 → ⊥)) (codes "b ")
validate_header_value_iff_example = validate_header_value_iff (codes "b ")
