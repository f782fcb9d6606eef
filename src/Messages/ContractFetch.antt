-- ===== src/Messages/ContractFetch.antt =====
-- `ContractFetchPayload` of crates/sidevers-core/src/messages/verse.rs.
use sidevers_protocol.Cbor.Array.{uint_codec}
use sidevers_protocol.Cbor.Codec.{decode_prefix, decode_prefix_iff, Codec}
use sidevers_protocol.Cbor.Field.{expect_count, expect_key, flat, encode_map-flat, IsKey}
use sidevers_protocol.Cbor.Nullable.{
  read_nullable, encode_nullable, OnSome, nullable, uint-StartsNotNull,
}
use sidevers_protocol.Cbor.Reader.{◌>>=◌, ◌>>◌, usize_mod, Read, pure, read_u64}
use sidevers_protocol.Cbor.Reads.{Reads-pure, Parses-pure, Reads, Parses}
use sidevers_protocol.Cbor.Struct.{Reads-map, Parses-map, Reads-field, Parses-field}
use sidevers_protocol.Cbor.Utf8.{valid_utf8}
use sidevers_protocol.Cbor.Writer.{uint, text, Bytes, encode_map, MapEntry}
use sidevers_protocol.Common.{
  IsBytes, codes, ℕ, ◌^◌, ◌<◌, ◌≡◌, refl, sym, ◌↔◌, Option, List, [], ◌∷◌, ◌++◌, arith, length,
}
use sidevers_protocol.Errors.{Error, Result, ok}

pub record ContractFetchPayload : Type 0 where
  pub version : Option ℕ

abbrev pub entries : ContractFetchPayload → List MapEntry
entries p = record { key = text (codes "version"); value = encode_nullable uint p.version } ∷ []

unfoldable pub encode : ContractFetchPayload → Bytes
encode p = encode_map (entries p)

unfoldable pub body : Read ContractFetchPayload
body = do
  expect_count 1
  expect_key (codes "version")
  version ← read_nullable read_u64
  pure (record { version = version })

unfoldable pub decode : Bytes → Result Error ContractFetchPayload
decode bs = decode_prefix body bs

abbrev pub Valid : ContractFetchPayload → Type 0
Valid p = OnSome (λ n. n < 2 ^ 64) p.version

version-IsKey : IsKey (codes "version")
unfolding valid_utf8
version-IsKey = (omega arith, refl)

reads : (p : ContractFetchPayload) → Valid p → Reads body (encode p) p
unfolding body encode flat
reads p h = rw (encode_map-flat (entries p)) (
    Reads-map 1 _ (omega arith) (
      Reads-field (codes "version") (nullable uint_codec uint-StartsNotNull) _ p.version
        version-IsKey h (Reads-pure p)))

parses : Parses body (λ p bs. Valid p × (bs ≡ encode p))
unfolding body encode flat
parses = Parses-map 1 _ (
    Parses-field (codes "version") (nullable uint_codec uint-StartsNotNull) _
      λ x0 h0. Parses-pure _ (h0, sym (encode_map-flat _)))

abbrev codec : Codec ContractFetchPayload
codec = record { encode = encode; body = body; Valid = Valid; reads = reads; parses = parses }

-- From bytes that fit the address space, the decoder gives `p` exactly if `p` can be encoded and the
-- bytes begin with its encoding.
pub contract_fetch_iff :
    (bs : Bytes) (p : ContractFetchPayload)
    → IsBytes bs
    → length bs < usize_mod
    → (decode bs ≡ ok p) ↔ Valid p × ((junk : Bytes) × (bs ≡ encode p ++ junk))
unfolding decode
contract_fetch_iff bs p hb fits = decode_prefix_iff codec bs p hb fits
