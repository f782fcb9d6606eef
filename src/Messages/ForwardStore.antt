-- ===== src/Messages/ForwardStore.antt =====
-- `ForwardStorePayload` of crates/sidevers-core/src/messages/forward.rs.
use sidevers_protocol.Cbor.Array.{uint_codec, bytes_codec, fixed_codec}
use sidevers_protocol.Cbor.Codec.{decode_prefix, decode_prefix_iff, Codec}
use sidevers_protocol.Cbor.Field.{
  expect_count, expect_key, read_fixed, flat, encode_map-flat, IsKey, IsArray,
}
use sidevers_protocol.Cbor.Reader.{◌>>=◌, ◌>>◌, usize_mod, Read, pure, read_u64, read_bytes}
use sidevers_protocol.Cbor.Reads.{Reads-pure, Parses-pure, Reads, Parses}
use sidevers_protocol.Cbor.Struct.{Reads-map, Parses-map, Reads-field, Parses-field}
use sidevers_protocol.Cbor.Utf8.{valid_utf8}
use sidevers_protocol.Cbor.Writer.{Bytes, uint, bytes, text, encode_map, MapEntry}
use sidevers_protocol.Common.{
  IsBytes, codes, ℕ, ◌^◌, ◌<◌, ◌≡◌, refl, sym, ◌↔◌, List, [], ◌∷◌, ◌++◌, arith, length,
}
use sidevers_protocol.Errors.{Error, Result, ok}

pub record ForwardStorePayload : Type 0 where
  pub envelope : Bytes
  pub recipient : Bytes
  pub ttl_secs : ℕ

abbrev pub entries : ForwardStorePayload → List MapEntry
entries p =
    record { key = text (codes "envelope"); value = bytes p.envelope }
    ∷ record { key = text (codes "ttl_secs"); value = uint p.ttl_secs }
    ∷ record { key = text (codes "recipient"); value = bytes p.recipient }
    ∷ []

unfoldable pub encode : ForwardStorePayload → Bytes
encode p = encode_map (entries p)

unfoldable pub body : Read ForwardStorePayload
body = do
  expect_count 3
  expect_key (codes "envelope")
  envelope ← read_bytes
  expect_key (codes "ttl_secs")
  ttl_secs ← read_u64
  expect_key (codes "recipient")
  recipient ← read_fixed "recipient" 32
  pure (record { envelope = envelope; recipient = recipient; ttl_secs = ttl_secs })

unfoldable pub decode : Bytes → Result Error ForwardStorePayload
decode bs = decode_prefix body bs

abbrev pub Valid : ForwardStorePayload → Type 0
Valid p =
    ((length p.envelope < 2 ^ 64) × IsBytes p.envelope)
    × (p.ttl_secs < 2 ^ 64)
    × (IsArray 32 p.recipient)

envelope-IsKey : IsKey (codes "envelope")
unfolding valid_utf8
envelope-IsKey = (omega arith, refl)

ttl_secs-IsKey : IsKey (codes "ttl_secs")
unfolding valid_utf8
ttl_secs-IsKey = (omega arith, refl)

recipient-IsKey : IsKey (codes "recipient")
unfolding valid_utf8
recipient-IsKey = (omega arith, refl)

reads : (p : ForwardStorePayload) → Valid p → Reads body (encode p) p
unfolding body encode flat
reads p h = rw (encode_map-flat (entries p)) (
    Reads-map 3 _ (omega arith) (
      Reads-field (codes "envelope") (bytes_codec) _ p.envelope envelope-IsKey h.0 (
        Reads-field (codes "ttl_secs") (uint_codec) _ p.ttl_secs ttl_secs-IsKey h.1 (
          Reads-field (codes "recipient") (fixed_codec "recipient" 32 (omega arith)) _ p.recipient
            recipient-IsKey h.2 (Reads-pure p)))))

parses : Parses body (λ p bs. Valid p × (bs ≡ encode p))
unfolding body encode flat
parses = Parses-map 3 _ (
    Parses-field (codes "envelope") (bytes_codec) _ λ x0 h0.
      Parses-field (codes "ttl_secs") (uint_codec) _ λ x1 h1.
        Parses-field (codes "recipient") (fixed_codec "recipient" 32 (omega arith)) _
          λ x2 h2. Parses-pure _ ((h0, h1, h2), sym (encode_map-flat _)))

abbrev codec : Codec ForwardStorePayload
codec = record { encode = encode; body = body; Valid = Valid; reads = reads; parses = parses }

-- From bytes that fit the address space, the decoder gives `p` exactly if `p` can be encoded and the
-- bytes begin with its encoding.
pub forward_store_iff :
    (bs : Bytes) (p : ForwardStorePayload)
    → IsBytes bs
    → length bs < usize_mod
    → (decode bs ≡ ok p) ↔ Valid p × ((junk : Bytes) × (bs ≡ encode p ++ junk))
unfolding decode
forward_store_iff bs p hb fits = decode_prefix_iff codec bs p hb fits
