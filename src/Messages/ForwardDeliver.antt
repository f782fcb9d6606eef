-- ===== src/Messages/ForwardDeliver.antt =====
-- `ForwardDeliverPayload` of crates/sidevers-core/src/messages/forward.rs.
use sidevers_protocol.Cbor.Array.{uint_codec, bytes_codec}
use sidevers_protocol.Cbor.Codec.{decode_prefix, decode_prefix_iff, Codec}
use sidevers_protocol.Cbor.Field.{expect_count, expect_key, flat, encode_map-flat, IsKey}
use sidevers_protocol.Cbor.Reader.{◌>>=◌, ◌>>◌, usize_mod, Read, pure, read_u64, read_bytes}
use sidevers_protocol.Cbor.Reads.{Reads-pure, Parses-pure, Reads, Parses}
use sidevers_protocol.Cbor.Struct.{Reads-map, Parses-map, Reads-field, Parses-field}
use sidevers_protocol.Cbor.Utf8.{valid_utf8}
use sidevers_protocol.Cbor.Writer.{Bytes, uint, bytes, text, encode_map, MapEntry}
use sidevers_protocol.Common.{
  IsBytes, codes, ℕ, ◌^◌, ◌<◌, ◌≡◌, refl, sym, ◌↔◌, List, [], ◌∷◌, ◌++◌, arith, length,
}
use sidevers_protocol.Errors.{Error, Result, ok}

pub record ForwardDeliverPayload : Type 0 where
  pub envelope : Bytes
  pub stored_at : ℕ

abbrev pub entries : ForwardDeliverPayload → List MapEntry
entries p =
    record { key = text (codes "envelope"); value = bytes p.envelope }
    ∷ record { key = text (codes "stored_at"); value = uint p.stored_at }
    ∷ []

unfoldable pub encode : ForwardDeliverPayload → Bytes
encode p = encode_map (entries p)

unfoldable pub body : Read ForwardDeliverPayload
body = do
  expect_count 2
  expect_key (codes "envelope")
  envelope ← read_bytes
  expect_key (codes "stored_at")
  stored_at ← read_u64
  pure (record { envelope = envelope; stored_at = stored_at })

unfoldable pub decode : Bytes → Result Error ForwardDeliverPayload
decode bs = decode_prefix body bs

abbrev pub Valid : ForwardDeliverPayload → Type 0
Valid p = ((length p.envelope < 2 ^ 64) × IsBytes p.envelope) × (p.stored_at < 2 ^ 64)

envelope-IsKey : IsKey (codes "envelope")
unfolding valid_utf8
envelope-IsKey = (omega arith, refl)

stored_at-IsKey : IsKey (codes "stored_at")
unfolding valid_utf8
stored_at-IsKey = (omega arith, refl)

reads : (p : ForwardDeliverPayload) → Valid p → Reads body (encode p) p
unfolding body encode flat
reads p h = rw (encode_map-flat (entries p)) (
    Reads-map 2 _ (omega arith) (
      Reads-field (codes "envelope") (bytes_codec) _ p.envelope envelope-IsKey h.0 (
        Reads-field (codes "stored_at") (uint_codec) _ p.stored_at stored_at-IsKey h.1
          (Reads-pure p))))

parses : Parses body (λ p bs. Valid p × (bs ≡ encode p))
unfolding body encode flat
parses = Parses-map 2 _ (
    Parses-field (codes "envelope") (bytes_codec) _ λ x0 h0.
      Parses-field (codes "stored_at") (uint_codec) _
        λ x1 h1. Parses-pure _ ((h0, h1), sym (encode_map-flat _)))

abbrev codec : Codec ForwardDeliverPayload
codec = record { encode = encode; body = body; Valid = Valid; reads = reads; parses = parses }

-- From bytes that fit the address space, the decoder gives `p` exactly if `p` can be encoded and the
-- bytes begin with its encoding.
pub forward_deliver_iff :
    (bs : Bytes) (p : ForwardDeliverPayload)
    → IsBytes bs
    → length bs < usize_mod
    → (decode bs ≡ ok p) ↔ Valid p × ((junk : Bytes) × (bs ≡ encode p ++ junk))
unfolding decode
forward_deliver_iff bs p hb fits = decode_prefix_iff codec bs p hb fits
