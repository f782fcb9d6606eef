-- ===== src/Messages/ByteRange.antt =====
-- `ByteRange` of crates/sidevers-net/src/storage_protocol.rs, which is only decoded within a `StorageGetPayload`.
use sidevers_protocol.Cbor.Array.{uint_codec}
use sidevers_protocol.Cbor.Codec.{Codec}
use sidevers_protocol.Cbor.Field.{expect_count, expect_key, flat, encode_map-flat, IsKey}
use sidevers_protocol.Cbor.Head.{head}
use sidevers_protocol.Cbor.Items.{map_header-head}
use sidevers_protocol.Cbor.Nullable.{StartsNotNull, head-StartsNotNull}
use sidevers_protocol.Cbor.Reader.{◌>>=◌, ◌>>◌, Read, pure, read_u64}
use sidevers_protocol.Cbor.Reads.{Reads-pure, Parses-pure, Reads, Parses}
use sidevers_protocol.Cbor.Struct.{Reads-map, Parses-map, Reads-field, Parses-field}
use sidevers_protocol.Cbor.Utf8.{valid_utf8}
use sidevers_protocol.Cbor.Writer.{Bytes, write_map_header, uint, text, encode_map, MapEntry}
use sidevers_protocol.Common.{
  codes, ℕ, ◌^◌, ◌<◌, ◌≡◌, refl, sym, ap, ◌∙◌, subst, List, [], ◌∷◌, ◌++◌, arith,
}

pub record ByteRange : Type 0 where
  pub start : ℕ
  pub end : ℕ

abbrev pub entries : ByteRange → List MapEntry
entries p =
    record { key = text (codes "end"); value = uint p.end }
    ∷ record { key = text (codes "start"); value = uint p.start }
    ∷ []

unfoldable pub encode : ByteRange → Bytes
encode p = encode_map (entries p)

unfoldable pub body : Read ByteRange
body = do
  expect_count 2
  expect_key (codes "end")
  end ← read_u64
  expect_key (codes "start")
  start ← read_u64
  pure (record { start = start; end = end })

abbrev pub Valid : ByteRange → Type 0
Valid p = (p.end < 2 ^ 64) × (p.start < 2 ^ 64)

end-IsKey : IsKey (codes "end")
unfolding valid_utf8
end-IsKey = (omega arith, refl)

start-IsKey : IsKey (codes "start")
unfolding valid_utf8
start-IsKey = (omega arith, refl)

pub reads : (p : ByteRange) → Valid p → Reads body (encode p) p
unfolding body encode flat
reads p h = rw (encode_map-flat (entries p)) (
    Reads-map 2 _ (omega arith) (
      Reads-field (codes "end") (uint_codec) _ p.end end-IsKey h.0
        (Reads-field (codes "start") (uint_codec) _ p.start start-IsKey h.1 (Reads-pure p))))

pub parses : Parses body (λ p bs. Valid p × (bs ≡ encode p))
unfolding body encode flat
parses = Parses-map 2 _ (
    Parses-field (codes "end") (uint_codec) _ λ x0 h0.
      Parses-field (codes "start") (uint_codec) _
        λ x1 h1. Parses-pure _ ((h0, h1), sym (encode_map-flat _)))

abbrev pub codec : Codec ByteRange
codec = record { encode = encode; body = body; Valid = Valid; reads = reads; parses = parses }

-- The first byte of the encoding is the head of a map.
pub encode-StartsNotNull : (p : ByteRange) → Valid p → StartsNotNull (encode p)
unfolding encode
encode-StartsNotNull p h =
    subst (λ (t : Bytes). StartsNotNull t)
      (sym (encode_map-flat (entries p) ∙ ap (λ (t : Bytes). t ++ flat (entries p)) map_head))
      (head-StartsNotNull 5 2 (flat (entries p)) (omega arith))
  where
    map_head : write_map_header [] 2 ≡ head 5 2
    map_head = map_header-head [] 2 (omega arith)
