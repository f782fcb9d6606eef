-- ===== src/Messages/PeerTell.antt =====
-- `PeerTellPayload` of crates/sidevers-core/src/messages/peer.rs.
use sidevers_protocol.Cbor.Array.{array}
use sidevers_protocol.Cbor.Codec.{decode_prefix, decode_prefix_iff, Codec}
use sidevers_protocol.Cbor.Field.{
  expect_count, expect_key, read_array, encode_array, flat, encode_map-flat, IsKey,
}
use sidevers_protocol.Cbor.Reader.{◌>>=◌, ◌>>◌, usize_mod, max_cbor_entries, Read, pure}
use sidevers_protocol.Cbor.Reads.{Reads-pure, Parses-pure, Reads, Parses}
use sidevers_protocol.Cbor.Struct.{Reads-map, Parses-map, Reads-field, Parses-field}
use sidevers_protocol.Cbor.Utf8.{valid_utf8}
use sidevers_protocol.Cbor.Writer.{Bytes, text, encode_map, MapEntry}
use sidevers_protocol.Common.{
  IsBytes, codes, ◌≤◌, ◌<◌, ◌≡◌, refl, sym, ◌↔◌, List, [], ◌∷◌, ◌++◌, arith, length, All,
}
use sidevers_protocol.Errors.{Error, Result, ok}
use sidevers_protocol.Messages.PeerInfo

pub record PeerTellPayload : Type 0 where
  pub peers : List PeerInfo.PeerInfo

abbrev pub entries : PeerTellPayload → List MapEntry
entries p = record { key = text (codes "peers"); value = encode_array PeerInfo.encode p.peers } ∷ []

unfoldable pub encode : PeerTellPayload → Bytes
encode p = encode_map (entries p)

unfoldable pub body : Read PeerTellPayload
body = do
  expect_count 1
  expect_key (codes "peers")
  peers ← read_array PeerInfo.body
  pure (record { peers = peers })

unfoldable pub decode : Bytes → Result Error PeerTellPayload
decode bs = decode_prefix body bs

abbrev pub Valid : PeerTellPayload → Type 0
Valid p = (length p.peers ≤ max_cbor_entries) × All PeerInfo.Valid p.peers

peers-IsKey : IsKey (codes "peers")
unfolding valid_utf8
peers-IsKey = (omega arith, refl)

reads : (p : PeerTellPayload) → Valid p → Reads body (encode p) p
unfolding body encode flat
reads p h = rw (encode_map-flat (entries p)) (
    Reads-map 1 _ (omega arith)
      (Reads-field (codes "peers") (array PeerInfo.codec) _ p.peers peers-IsKey h (Reads-pure p)))

parses : Parses body (λ p bs. Valid p × (bs ≡ encode p))
unfolding body encode flat
parses = Parses-map 1 _ (
    Parses-field (codes "peers") (array PeerInfo.codec) _
      λ x0 h0. Parses-pure _ (h0, sym (encode_map-flat _)))

abbrev codec : Codec PeerTellPayload
codec = record { encode = encode; body = body; Valid = Valid; reads = reads; parses = parses }

-- From bytes that fit the address space, the decoder gives `p` exactly if `p` can be encoded and the
-- bytes begin with its encoding.
pub peer_tell_iff :
    (bs : Bytes) (p : PeerTellPayload)
    → IsBytes bs
    → length bs < usize_mod
    → (decode bs ≡ ok p) ↔ Valid p × ((junk : Bytes) × (bs ≡ encode p ++ junk))
unfolding decode
peer_tell_iff bs p hb fits = decode_prefix_iff codec bs p hb fits
