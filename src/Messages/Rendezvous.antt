-- ===== src/Messages/Rendezvous.antt =====
-- `RendezvousPayload` of crates/sidevers-core/src/messages/rendezvous.rs. The decoder does not look
-- at what follows the last field.
use sidevers_protocol.Cbor.Array.{fixed_codec}
use sidevers_protocol.Cbor.Codec.{decode_prefix, decode_prefix_iff, Codec}
use sidevers_protocol.Cbor.Field.{
  expect_count, expect_key, read_fixed, flat, encode_map-flat, IsKey, IsArray,
}
use sidevers_protocol.Cbor.Reader.{◌>>=◌, ◌>>◌, usize_mod, Read, pure}
use sidevers_protocol.Cbor.Reads.{Reads-pure, Parses-pure, Reads, Parses}
use sidevers_protocol.Cbor.Struct.{Reads-map, Parses-map, Reads-field, Parses-field}
use sidevers_protocol.Cbor.Utf8.{valid_utf8}
use sidevers_protocol.Cbor.Writer.{Bytes, bytes, text, encode_map, MapEntry}
use sidevers_protocol.Common.{
  IsBytes, codes, ◌<◌, ◌≡◌, refl, sym, ◌↔◌, List, [], ◌∷◌, ◌++◌, arith, length,
}
use sidevers_protocol.Errors.{Error, Result, ok}

pub record RendezvousPayload : Type 0 where
  pub target : Bytes

abbrev pub entries : RendezvousPayload → List MapEntry
entries p = record { key = text (codes "target"); value = bytes p.target } ∷ []

unfoldable pub encode : RendezvousPayload → Bytes
encode p = encode_map (entries p)

unfoldable pub body : Read RendezvousPayload
body = do
  expect_count 1
  expect_key (codes "target")
  target ← read_fixed "target" 32
  pure (record { target = target })

unfoldable pub decode : Bytes → Result Error RendezvousPayload
decode bs = decode_prefix body bs

abbrev pub Valid : RendezvousPayload → Type 0
Valid p = IsArray 32 p.target

target-IsKey : IsKey (codes "target")
unfolding valid_utf8
target-IsKey = (omega arith, refl)

reads : (p : RendezvousPayload) → Valid p → Reads body (encode p) p
unfolding body encode flat
reads p h = rw (encode_map-flat (entries p)) (
    Reads-map 1 _ (omega arith) (
      Reads-field (codes "target") (fixed_codec "target" 32 (omega arith)) _ p.target target-IsKey h
        (Reads-pure p)))

parses : Parses body (λ p bs. Valid p × (bs ≡ encode p))
unfolding body encode flat
parses = Parses-map 1 _ (
    Parses-field (codes "target") (fixed_codec "target" 32 (omega arith)) _
      λ x0 h0. Parses-pure _ (h0, sym (encode_map-flat _)))

abbrev codec : Codec RendezvousPayload
codec = record { encode = encode; body = body; Valid = Valid; reads = reads; parses = parses }

-- From bytes that fit the address space, the decoder gives `p` exactly if `p` can be encoded and the
-- bytes begin with its encoding.
pub rendezvous_iff :
    (bs : Bytes) (p : RendezvousPayload)
    → IsBytes bs
    → length bs < usize_mod
    → (decode bs ≡ ok p) ↔ Valid p × ((junk : Bytes) × (bs ≡ encode p ++ junk))
unfolding decode
rendezvous_iff bs p hb fits = decode_prefix_iff codec bs p hb fits
