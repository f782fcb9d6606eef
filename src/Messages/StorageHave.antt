-- ===== src/Messages/StorageHave.antt =====
-- `StorageHavePayload` of crates/sidevers-net/src/storage_protocol.rs.
use sidevers_protocol.Cbor.Array.{bytes_codec, fixed_codec}
use sidevers_protocol.Cbor.Boolean.{bool_codec}
use sidevers_protocol.Cbor.Codec.{decode_prefix, decode_prefix_iff, Codec}
use sidevers_protocol.Cbor.Field.{
  expect_count, expect_key, read_fixed, flat, encode_map-flat, IsKey, IsArray,
}
use sidevers_protocol.Cbor.Reader.{◌>>=◌, ◌>>◌, usize_mod, Read, pure, read_bytes, read_bool}
use sidevers_protocol.Cbor.Reads.{Reads-pure, Parses-pure, Reads, Parses}
use sidevers_protocol.Cbor.Struct.{Reads-map, Parses-map, Reads-field, Parses-field}
use sidevers_protocol.Cbor.Utf8.{valid_utf8}
use sidevers_protocol.Cbor.Writer.{Bytes, bytes, text, boolean, encode_map, MapEntry}
use sidevers_protocol.Common.{
  IsBytes, codes, ◌^◌, ◌<◌, ◌≡◌, refl, sym, ◌↔◌, Bool, List, [], ◌∷◌, ◌++◌, arith, length,
}
use sidevers_protocol.Errors.{Error, Result, ok}

pub record StorageHavePayload : Type 0 where
  pub hash : Bytes
  pub body_bytes : Bytes
  pub final : Bool

abbrev pub entries : StorageHavePayload → List MapEntry
entries p =
    record { key = text (codes "hash"); value = bytes p.hash }
    ∷ record { key = text (codes "bytes"); value = bytes p.body_bytes }
    ∷ record { key = text (codes "final"); value = boolean p.final }
    ∷ []

unfoldable pub encode : StorageHavePayload → Bytes
encode p = encode_map (entries p)

unfoldable pub body : Read StorageHavePayload
body = do
  expect_count 3
  expect_key (codes "hash")
  hash ← read_fixed "hash" 32
  expect_key (codes "bytes")
  body_bytes ← read_bytes
  expect_key (codes "final")
  final ← read_bool
  pure (record { hash = hash; body_bytes = body_bytes; final = final })

unfoldable pub decode : Bytes → Result Error StorageHavePayload
decode bs = decode_prefix body bs

abbrev pub Valid : StorageHavePayload → Type 0
Valid p = (IsArray 32 p.hash) × ((length p.body_bytes < 2 ^ 64) × IsBytes p.body_bytes) × (Unit {0})

hash-IsKey : IsKey (codes "hash")
unfolding valid_utf8
hash-IsKey = (omega arith, refl)

bytes-IsKey : IsKey (codes "bytes")
unfolding valid_utf8
bytes-IsKey = (omega arith, refl)

final-IsKey : IsKey (codes "final")
unfolding valid_utf8
final-IsKey = (omega arith, refl)

reads : (p : StorageHavePayload) → Valid p → Reads body (encode p) p
unfolding body encode flat
reads p h = rw (encode_map-flat (entries p)) (
    Reads-map 3 _ (omega arith) (
      Reads-field (codes "hash") (fixed_codec "hash" 32 (omega arith)) _ p.hash hash-IsKey h.0 (
        Reads-field (codes "bytes") (bytes_codec) _ p.body_bytes bytes-IsKey h.1
          (Reads-field (codes "final") (bool_codec) _ p.final final-IsKey h.2 (Reads-pure p)))))

parses : Parses body (λ p bs. Valid p × (bs ≡ encode p))
unfolding body encode flat
parses = Parses-map 3 _ (
    Parses-field (codes "hash") (fixed_codec "hash" 32 (omega arith)) _ λ x0 h0.
      Parses-field (codes "bytes") (bytes_codec) _ λ x1 h1.
        Parses-field (codes "final") (bool_codec) _
          λ x2 h2. Parses-pure _ ((h0, h1, h2), sym (encode_map-flat _)))

abbrev codec : Codec StorageHavePayload
codec = record { encode = encode; body = body; Valid = Valid; reads = reads; parses = parses }

-- From bytes that fit the address space, the decoder gives `p` exactly if `p` can be encoded and the
-- bytes begin with its encoding.
pub storage_have_iff :
    (bs : Bytes) (p : StorageHavePayload)
    → IsBytes bs
    → length bs < usize_mod
    → (decode bs ≡ ok p) ↔ Valid p × ((junk : Bytes) × (bs ≡ encode p ++ junk))
unfolding decode
storage_have_iff bs p hb fits = decode_prefix_iff codec bs p hb fits
