-- ===== src/Messages/StorageMiss.antt =====
-- `StorageMissPayload` of crates/sidevers-net/src/storage_protocol.rs.
use sidevers_protocol.Cbor.Array.{array, fixed_codec}
use sidevers_protocol.Cbor.Codec.{decode_prefix, decode_prefix_iff, Codec}
use sidevers_protocol.Cbor.Field.{
  expect_count, expect_key, read_fixed, read_array, encode_array, flat, encode_map-flat, IsKey,
  IsArray,
}
use sidevers_protocol.Cbor.Reader.{◌>>=◌, ◌>>◌, usize_mod, max_cbor_entries, Read, pure}
use sidevers_protocol.Cbor.Reads.{Reads-pure, Parses-pure, Reads, Parses}
use sidevers_protocol.Cbor.Struct.{Reads-map, Parses-map, Reads-field, Parses-field}
use sidevers_protocol.Cbor.Utf8.{valid_utf8}
use sidevers_protocol.Cbor.Writer.{Bytes, bytes, text, encode_map, MapEntry}
use sidevers_protocol.Common.{
  IsBytes, codes, ◌≤◌, ◌<◌, ◌≡◌, refl, sym, ◌↔◌, List, [], ◌∷◌, ◌++◌, arith, length, All,
}
use sidevers_protocol.Errors.{Error, Result, ok}

pub record StorageMissPayload : Type 0 where
  pub hash : Bytes
  pub hints : List Bytes

abbrev pub entries : StorageMissPayload → List MapEntry
entries p =
    record { key = text (codes "hash"); value = bytes p.hash }
    ∷ record { key = text (codes "hints"); value = encode_array bytes p.hints }
    ∷ []

unfoldable pub encode : StorageMissPayload → Bytes
encode p = encode_map (entries p)

unfoldable pub body : Read StorageMissPayload
body = do
  expect_count 2
  expect_key (codes "hash")
  hash ← read_fixed "hash" 32
  expect_key (codes "hints")
  hints ← read_array (read_fixed "hint" 32)
  pure (record { hash = hash; hints = hints })

unfoldable pub decode : Bytes → Result Error StorageMissPayload
decode bs = decode_prefix body bs

abbrev pub Valid : StorageMissPayload → Type 0
Valid p = (IsArray 32 p.hash) × ((length p.hints ≤ max_cbor_entries) × All (IsArray 32) p.hints)

hash-IsKey : IsKey (codes "hash")
unfolding valid_utf8
hash-IsKey = (omega arith, refl)

hints-IsKey : IsKey (codes "hints")
unfolding valid_utf8
hints-IsKey = (omega arith, refl)

reads : (p : StorageMissPayload) → Valid p → Reads body (encode p) p
unfolding body encode flat
reads p h = rw (encode_map-flat (entries p)) (
    Reads-map 2 _ (omega arith) (
      Reads-field (codes "hash") (fixed_codec "hash" 32 (omega arith)) _ p.hash hash-IsKey h.0 (
        Reads-field (codes "hints") (array (fixed_codec "hint" 32 (omega arith))) _ p.hints
          hints-IsKey h.1 (Reads-pure p))))

parses : Parses body (λ p bs. Valid p × (bs ≡ encode p))
unfolding body encode flat
parses = Parses-map 2 _ (
    Parses-field (codes "hash") (fixed_codec "hash" 32 (omega arith)) _ λ x0 h0.
      Parses-field (codes "hints") (array (fixed_codec "hint" 32 (omega arith))) _
        λ x1 h1. Parses-pure _ ((h0, h1), sym (encode_map-flat _)))

abbrev codec : Codec StorageMissPayload
codec = record { encode = encode; body = body; Valid = Valid; reads = reads; parses = parses }

-- From bytes that fit the address space, the decoder gives `p` exactly if `p` can be encoded and the
-- bytes begin with its encoding.
pub storage_miss_iff :
    (bs : Bytes) (p : StorageMissPayload)
    → IsBytes bs
    → length bs < usize_mod
    → (decode bs ≡ ok p) ↔ Valid p × ((junk : Bytes) × (bs ≡ encode p ++ junk))
unfolding decode
storage_miss_iff bs p hb fits = decode_prefix_iff codec bs p hb fits
