-- ===== src/Messages/RendezvousAck.antt =====
-- `RendezvousAckPayload` of crates/sidevers-core/src/messages/rendezvous.rs.
use sidevers_protocol.Cbor.Array.{array, IsText, text_codec, fixed_codec}
use sidevers_protocol.Cbor.Codec.{decode_prefix, decode_prefix_iff, Codec}
use sidevers_protocol.Cbor.Field.{
  expect_count, expect_key, read_fixed, read_array, encode_array, flat, encode_map-flat, IsKey,
  IsArray,
}
use sidevers_protocol.Cbor.Reader.{◌>>=◌, ◌>>◌, usize_mod, max_cbor_entries, Read, pure, read_text}
use sidevers_protocol.Cbor.Reads.{Reads-pure, Parses-pure, Reads, Parses}
use sidevers_protocol.Cbor.Struct.{Reads-map, Parses-map, Reads-field, Parses-field}
use sidevers_protocol.Cbor.Utf8.{valid_utf8}
use sidevers_protocol.Cbor.Writer.{Bytes, bytes, text, encode_map, MapEntry}
use sidevers_protocol.Common.{
  IsBytes, codes, ◌≤◌, ◌<◌, ◌≡◌, refl, sym, ◌↔◌, List, [], ◌∷◌, ◌++◌, arith, length, All,
}
use sidevers_protocol.Errors.{Error, Result, ok}

pub record RendezvousAckPayload : Type 0 where
  pub target : Bytes
  pub endpoints : List Bytes

abbrev pub entries : RendezvousAckPayload → List MapEntry
entries p =
    record { key = text (codes "target"); value = bytes p.target }
    ∷ record { key = text (codes "endpoints"); value = encode_array text p.endpoints }
    ∷ []

unfoldable pub encode : RendezvousAckPayload → Bytes
encode p = encode_map (entries p)

unfoldable pub body : Read RendezvousAckPayload
body = do
  expect_count 2
  expect_key (codes "target")
  target ← read_fixed "target" 32
  expect_key (codes "endpoints")
  endpoints ← read_array read_text
  pure (record { target = target; endpoints = endpoints })

unfoldable pub decode : Bytes → Result Error RendezvousAckPayload
decode bs = decode_prefix body bs

abbrev pub Valid : RendezvousAckPayload → Type 0
Valid p = (IsArray 32 p.target) × ((length p.endpoints ≤ max_cbor_entries) × All IsText p.endpoints)

target-IsKey : IsKey (codes "target")
unfolding valid_utf8
target-IsKey = (omega arith, refl)

endpoints-IsKey : IsKey (codes "endpoints")
unfolding valid_utf8
endpoints-IsKey = (omega arith, refl)

reads : (p : RendezvousAckPayload) → Valid p → Reads body (encode p) p
unfolding body encode flat
reads p h = rw (encode_map-flat (entries p)) (
    Reads-map 2 _ (omega arith) (
      Reads-field (codes "target") (fixed_codec "target" 32 (omega arith)) _ p.target target-IsKey
        h.0
        (Reads-field (codes "endpoints") (array text_codec) _ p.endpoints endpoints-IsKey h.1
          (Reads-pure p))))

parses : Parses body (λ p bs. Valid p × (bs ≡ encode p))
unfolding body encode flat
parses = Parses-map 2 _ (
    Parses-field (codes "target") (fixed_codec "target" 32 (omega arith)) _ λ x0 h0.
      Parses-field (codes "endpoints") (array text_codec) _
        λ x1 h1. Parses-pure _ ((h0, h1), sym (encode_map-flat _)))

abbrev codec : Codec RendezvousAckPayload
codec = record { encode = encode; body = body; Valid = Valid; reads = reads; parses = parses }

-- From bytes that fit the address space, the decoder gives `p` exactly if `p` can be encoded and the
-- bytes begin with its encoding.
pub rendezvous_ack_iff :
    (bs : Bytes) (p : RendezvousAckPayload)
    → IsBytes bs
    → length bs < usize_mod
    → (decode bs ≡ ok p) ↔ Valid p × ((junk : Bytes) × (bs ≡ encode p ++ junk))
unfolding decode
rendezvous_ack_iff bs p hb fits = decode_prefix_iff codec bs p hb fits
