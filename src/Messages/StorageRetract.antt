-- ===== src/Messages/StorageRetract.antt =====
-- `StorageRetractPayload` of crates/sidevers-net/src/storage_protocol.rs.
use sidevers_protocol.Cbor.Array.{fixed_codec}
use sidevers_protocol.Cbor.Codec.{decode_prefix, decode_prefix_iff, Codec}
use sidevers_protocol.Cbor.Field.{
  expect_count, expect_key, read_fixed, flat, encode_map-flat, IsKey, IsArray,
}
use sidevers_protocol.Cbor.Reader.{◌>>=◌, ◌>>◌, usize_mod, Read, pure}
use sidevers_protocol.Cbor.Reads.{Reads-pure, Parses-pure, Reads, Parses}
use sidevers_protocol.Cbor.Struct.{Reads-map, Parses-map, Reads-field, Parses-field}
use sidevers_protocol.Cbor.Utf8.{valid_utf8}
use sidevers_protocol.Cbor.Writer.{Bytes, bytes, text, encode_map, MapEntry}
use sidevers_protocol.Common.{
  IsBytes, codes, ◌<◌, ◌≡◌, refl, sym, ◌↔◌, List, [], ◌∷◌, ◌++◌, arith, length,
}
use sidevers_protocol.Errors.{Error, Result, ok}

pub record StorageRetractPayload : Type 0 where
  pub hash : Bytes

abbrev pub entries : StorageRetractPayload → List MapEntry
entries p = record { key = text (codes "hash"); value = bytes p.hash } ∷ []

unfoldable pub encode : StorageRetractPayload → Bytes
encode p = encode_map (entries p)

unfoldable pub body : Read StorageRetractPayload
body = do
  expect_count 1
  expect_key (codes "hash")
  hash ← read_fixed "hash" 32
  pure (record { hash = hash })

unfoldable pub decode : Bytes → Result Error StorageRetractPayload
decode bs = decode_prefix body bs

abbrev pub Valid : StorageRetractPayload → Type 0
Valid p = IsArray 32 p.hash

hash-IsKey : IsKey (codes "hash")
unfolding valid_utf8
hash-IsKey = (omega arith, refl)

reads : (p : StorageRetractPayload) → Valid p → Reads body (encode p) p
unfolding body encode flat
reads p h = rw (encode_map-flat (entries p)) (
    Reads-map 1 _ (omega arith) (
      Reads-field (codes "hash") (fixed_codec "hash" 32 (omega arith)) _ p.hash hash-IsKey h
        (Reads-pure p)))

parses : Parses body (λ p bs. Valid p × (bs ≡ encode p))
unfolding body encode flat
parses = Parses-map 1 _ (
    Parses-field (codes "hash") (fixed_codec "hash" 32 (omega arith)) _
      λ x0 h0. Parses-pure _ (h0, sym (encode_map-flat _)))

abbrev codec : Codec StorageRetractPayload
codec = record { encode = encode; body = body; Valid = Valid; reads = reads; parses = parses }

-- From bytes that fit the address space, the decoder gives `p` exactly if `p` can be encoded and the
-- bytes begin with its encoding.
pub storage_retract_iff :
    (bs : Bytes) (p : StorageRetractPayload)
    → IsBytes bs
    → length bs < usize_mod
    → (decode bs ≡ ok p) ↔ Valid p × ((junk : Bytes) × (bs ≡ encode p ++ junk))
unfolding decode
storage_retract_iff bs p hb fits = decode_prefix_iff codec bs p hb fits
