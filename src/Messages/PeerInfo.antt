-- ===== src/Messages/PeerInfo.antt =====
-- `PeerInfo` of crates/sidevers-core/src/messages/peer.rs, which is only decoded within a `PeerTell`.
use sidevers_protocol.Cbor.Array.{array, IsText, text_codec, uint_codec, fixed_codec}
use sidevers_protocol.Cbor.Codec.{Codec}
use sidevers_protocol.Cbor.Field.{
  expect_count, expect_key, read_fixed, read_array, encode_array, flat, encode_map-flat, IsKey,
  IsArray,
}
use sidevers_protocol.Cbor.Optional.{read_u8, u8_codec}
use sidevers_protocol.Cbor.Reader.{◌>>=◌, ◌>>◌, max_cbor_entries, Read, pure, read_u64, read_text}
use sidevers_protocol.Cbor.Reads.{Reads-pure, Parses-pure, Reads, Parses}
use sidevers_protocol.Cbor.Struct.{Reads-map, Parses-map, Reads-field, Parses-field}
use sidevers_protocol.Cbor.Utf8.{valid_utf8}
use sidevers_protocol.Cbor.Writer.{Bytes, uint, bytes, text, encode_map, MapEntry}
use sidevers_protocol.Common.{
  codes, ℕ, ◌^◌, ◌≤◌, ◌<◌, ◌≡◌, refl, sym, List, [], ◌∷◌, arith, length, All,
}

pub record PeerInfo : Type 0 where
  pub address : Bytes
  pub intents : List ℕ
  pub endpoints : List Bytes
  pub last_seen : ℕ

abbrev pub entries : PeerInfo → List MapEntry
entries p =
    record { key = text (codes "address"); value = bytes p.address }
    ∷ record { key = text (codes "intents"); value = encode_array uint p.intents }
    ∷ record { key = text (codes "endpoints"); value = encode_array text p.endpoints }
    ∷ record { key = text (codes "last_seen"); value = uint p.last_seen }
    ∷ []

unfoldable pub encode : PeerInfo → Bytes
encode p = encode_map (entries p)

unfoldable pub body : Read PeerInfo
body = do
  expect_count 4
  expect_key (codes "address")
  address ← read_fixed "address" 32
  expect_key (codes "intents")
  intents ← read_array read_u8
  expect_key (codes "endpoints")
  endpoints ← read_array read_text
  expect_key (codes "last_seen")
  last_seen ← read_u64
  pure (record {
    address = address;
    intents = intents;
    endpoints = endpoints;
    last_seen = last_seen;
  })

abbrev pub Valid : PeerInfo → Type 0
Valid p =
    (IsArray 32 p.address)
    × ((length p.intents ≤ max_cbor_entries) × All (λ n. n ≤ 0xff) p.intents)
    × ((length p.endpoints ≤ max_cbor_entries) × All IsText p.endpoints)
    × (p.last_seen < 2 ^ 64)

address-IsKey : IsKey (codes "address")
unfolding valid_utf8
address-IsKey = (omega arith, refl)

intents-IsKey : IsKey (codes "intents")
unfolding valid_utf8
intents-IsKey = (omega arith, refl)

endpoints-IsKey : IsKey (codes "endpoints")
unfolding valid_utf8
endpoints-IsKey = (omega arith, refl)

last_seen-IsKey : IsKey (codes "last_seen")
unfolding valid_utf8
last_seen-IsKey = (omega arith, refl)

pub reads : (p : PeerInfo) → Valid p → Reads body (encode p) p
unfolding body encode flat
reads p h = rw (encode_map-flat (entries p)) (
    Reads-map 4 _ (omega arith) (
      Reads-field (codes "address") (fixed_codec "address" 32 (omega arith)) _ p.address
        address-IsKey h.0
        (Reads-field (codes "intents") (array u8_codec) _ p.intents intents-IsKey h.1 (
          Reads-field (codes "endpoints") (array text_codec) _ p.endpoints endpoints-IsKey h.2 (
            Reads-field (codes "last_seen") (uint_codec) _ p.last_seen last_seen-IsKey h.3
              (Reads-pure p))))))

pub parses : Parses body (λ p bs. Valid p × (bs ≡ encode p))
unfolding body encode flat
parses = Parses-map 4 _ (
    Parses-field (codes "address") (fixed_codec "address" 32 (omega arith)) _ λ x0 h0.
      Parses-field (codes "intents") (array u8_codec) _ λ x1 h1.
        Parses-field (codes "endpoints") (array text_codec) _ λ x2 h2.
          Parses-field (codes "last_seen") (uint_codec) _
            λ x3 h3. Parses-pure _ ((h0, h1, h2, h3), sym (encode_map-flat _)))

abbrev pub codec : Codec PeerInfo
codec = record { encode = encode; body = body; Valid = Valid; reads = reads; parses = parses }
