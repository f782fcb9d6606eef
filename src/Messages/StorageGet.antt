-- ===== src/Messages/StorageGet.antt =====
-- `StorageGetPayload` of crates/sidevers-net/src/storage_protocol.rs.
use sidevers_protocol.Cbor.Array.{fixed_codec}
use sidevers_protocol.Cbor.Codec.{decode_prefix, decode_prefix_iff, Codec}
use sidevers_protocol.Cbor.Field.{
  expect_count, expect_key, read_fixed, flat, encode_map-flat, IsKey, IsArray,
}
use sidevers_protocol.Cbor.Nullable.{read_nullable, encode_nullable, OnSome, nullable}
use sidevers_protocol.Cbor.Reader.{◌>>=◌, ◌>>◌, usize_mod, Read, pure}
use sidevers_protocol.Cbor.Reads.{Reads-pure, Parses-pure, Reads, Parses}
use sidevers_protocol.Cbor.Struct.{Reads-map, Parses-map, Reads-field, Parses-field}
use sidevers_protocol.Cbor.Utf8.{valid_utf8}
use sidevers_protocol.Cbor.Writer.{Bytes, bytes, text, encode_map, MapEntry}
use sidevers_protocol.Common.{
  IsBytes, codes, ◌<◌, ◌≡◌, refl, sym, ◌↔◌, Option, List, [], ◌∷◌, ◌++◌, arith, length,
}
use sidevers_protocol.Errors.{Error, Result, ok}
use sidevers_protocol.Messages.ByteRange

pub record StorageGetPayload : Type 0 where
  pub hash : Bytes
  pub range : Option ByteRange.ByteRange

abbrev pub entries : StorageGetPayload → List MapEntry
entries p =
    record { key = text (codes "hash"); value = bytes p.hash }
    ∷ record { key = text (codes "range"); value = encode_nullable ByteRange.encode p.range }
    ∷ []

unfoldable pub encode : StorageGetPayload → Bytes
encode p = encode_map (entries p)

unfoldable pub body : Read StorageGetPayload
body = do
  expect_count 2
  expect_key (codes "hash")
  hash ← read_fixed "hash" 32
  expect_key (codes "range")
  range ← read_nullable ByteRange.body
  pure (record { hash = hash; range = range })

unfoldable pub decode : Bytes → Result Error StorageGetPayload
decode bs = decode_prefix body bs

abbrev pub Valid : StorageGetPayload → Type 0
Valid p = (IsArray 32 p.hash) × (OnSome ByteRange.Valid p.range)

hash-IsKey : IsKey (codes "hash")
unfolding valid_utf8
hash-IsKey = (omega arith, refl)

range-IsKey : IsKey (codes "range")
unfolding valid_utf8
range-IsKey = (omega arith, refl)

reads : (p : StorageGetPayload) → Valid p → Reads body (encode p) p
unfolding body encode flat
reads p h = rw (encode_map-flat (entries p)) (
    Reads-map 2 _ (omega arith) (
      Reads-field (codes "hash") (fixed_codec "hash" 32 (omega arith)) _ p.hash hash-IsKey h.0 (
        Reads-field (codes "range") (nullable ByteRange.codec ByteRange.encode-StartsNotNull) _
          p.range range-IsKey h.1 (Reads-pure p))))

parses : Parses body (λ p bs. Valid p × (bs ≡ encode p))
unfolding body encode flat
parses = Parses-map 2 _ (
    Parses-field (codes "hash") (fixed_codec "hash" 32 (omega arith)) _ λ x0 h0.
      Parses-field (codes "range") (nullable ByteRange.codec ByteRange.encode-StartsNotNull) _
        λ x1 h1. Parses-pure _ ((h0, h1), sym (encode_map-flat _)))

abbrev codec : Codec StorageGetPayload
codec = record { encode = encode; body = body; Valid = Valid; reads = reads; parses = parses }

-- From bytes that fit the address space, the decoder gives `p` exactly if `p` can be encoded and the
-- bytes begin with its encoding.
pub storage_get_iff :
    (bs : Bytes) (p : StorageGetPayload)
    → IsBytes bs
    → length bs < usize_mod
    → (decode bs ≡ ok p) ↔ Valid p × ((junk : Bytes) × (bs ≡ encode p ++ junk))
unfolding decode
storage_get_iff bs p hb fits = decode_prefix_iff codec bs p hb fits
