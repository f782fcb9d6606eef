-- ===== src/Storage/Manifest.antt =====
-- The chunk manifest of crates/sidevers-storage/src/chunking.rs.
use sidevers_protocol.Cbor.Array.{array, uint_codec, fixed_codec}
use sidevers_protocol.Cbor.Codec.{decode_whole, decode_whole_iff, Codec}
use sidevers_protocol.Cbor.Field.{
  expect_count, expect_key, read_fixed, read_array, encode_array, flat, encode_map-flat, IsKey,
  IsArray,
}
use sidevers_protocol.Cbor.Reader.{◌>>=◌, ◌>>◌, usize_mod, max_cbor_entries, Read, pure, read_u64}
use sidevers_protocol.Cbor.Reads.{Reads-pure, Parses-pure, Reads, Parses}
use sidevers_protocol.Cbor.Struct.{Reads-map, Parses-map, Reads-field, Parses-field}
use sidevers_protocol.Cbor.Utf8.{valid_utf8}
use sidevers_protocol.Cbor.Writer.{Bytes, key, uint, bytes, text, encode_map, MapEntry}
use sidevers_protocol.Common.{
  IsBytes, codes, ℕ, ◌^◌, ◌≤◌, ◌<◌, ◌≡◌, refl, sym, ◌↔◌, List, [], ◌∷◌, arith, length, All,
}
use sidevers_protocol.Errors.{Error, Result, ok}

pub record Manifest : Type 0 where
  pub total_size : ℕ
  pub chunks : List Bytes

abbrev pub entries : Manifest → List MapEntry
entries p =
    record { key = key (codes "chunks"); value = encode_array bytes p.chunks }
    ∷ record { key = key (codes "total_size"); value = uint p.total_size }
    ∷ []

unfoldable pub encode_manifest : Manifest → Bytes
encode_manifest p = encode_map (entries p)

unfoldable pub body : Read Manifest
body = do
  expect_count 2
  expect_key (codes "chunks")
  chunks ← read_array (read_fixed "chunk.hash" 32)
  expect_key (codes "total_size")
  total_size ← read_u64
  pure (record { total_size = total_size; chunks = chunks })

unfoldable pub decode_manifest : Bytes → Result Error Manifest
decode_manifest bs = decode_whole body bs

abbrev pub Valid : Manifest → Type 0
Valid p =
    ((length p.chunks ≤ max_cbor_entries) × All (IsArray 32) p.chunks) × (p.total_size < 2 ^ 64)

chunks-IsKey : IsKey (codes "chunks")
unfolding valid_utf8
chunks-IsKey = (omega arith, refl)

total_size-IsKey : IsKey (codes "total_size")
unfolding valid_utf8
total_size-IsKey = (omega arith, refl)

pub reads : (p : Manifest) → Valid p → Reads body (encode_manifest p) p
unfolding body encode_manifest flat key text
reads p h = rw (encode_map-flat (entries p)) (
    Reads-map 2 _ (omega arith) (
      Reads-field (codes "chunks") (array (fixed_codec "chunk.hash" 32 (omega arith))) _ p.chunks
        chunks-IsKey h.0
        (Reads-field (codes "total_size") (uint_codec) _ p.total_size total_size-IsKey h.1
          (Reads-pure p))))

parses : Parses body (λ p bs. Valid p × (bs ≡ encode_manifest p))
unfolding body encode_manifest flat key text
parses = Parses-map 2 _ (
    Parses-field (codes "chunks") (array (fixed_codec "chunk.hash" 32 (omega arith))) _ λ x0 h0.
      Parses-field (codes "total_size") (uint_codec) _
        λ x1 h1. Parses-pure _ ((h0, h1), sym (encode_map-flat _)))

abbrev codec : Codec Manifest
codec = record {
  encode = encode_manifest;
  body = body;
  Valid = Valid;
  reads = reads;
  parses = parses;
}

-- From bytes that fit the address space, the decoder gives `p` exactly if `p` can be encoded and the
-- bytes are its encoding.
pub manifest_iff :
    (bs : Bytes) (p : Manifest)
    → IsBytes bs
    → length bs < usize_mod
    → (decode_manifest bs ≡ ok p) ↔ Valid p × (bs ≡ encode_manifest p)
unfolding decode_manifest
manifest_iff bs p hb fits = decode_whole_iff codec bs p hb fits
