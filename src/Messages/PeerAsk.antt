-- ===== src/Messages/PeerAsk.antt =====
-- `PeerAskPayload` of crates/sidevers-core/src/messages/peer.rs.
use sidevers_protocol.Cbor.Array.{uint_codec}
use sidevers_protocol.Cbor.Codec.{decode_prefix, decode_prefix_iff, Codec}
use sidevers_protocol.Cbor.Field.{expect_count, expect_key, flat, encode_map-flat, IsKey}
use sidevers_protocol.Cbor.Nullable.{
  read_nullable, encode_nullable, OnSome, nullable, uint-StartsNotNull,
}
use sidevers_protocol.Cbor.Optional.{read_u8, u8_codec}
use sidevers_protocol.Cbor.Reader.{◌>>=◌, ◌>>◌, usize_mod, Read, pure, read_u64}
use sidevers_protocol.Cbor.Reads.{Reads-pure, Parses-pure, Reads, Parses}
use sidevers_protocol.Cbor.Struct.{Reads-map, Parses-map, Reads-field, Parses-field}
use sidevers_protocol.Cbor.Utf8.{valid_utf8}
use sidevers_protocol.Cbor.Writer.{Bytes, uint, text, encode_map, MapEntry}
use sidevers_protocol.Common.{
  IsBytes, codes, ℕ, ◌^◌, ◌≤◌, ◌<◌, ◌≡◌, refl, sym, ◌↔◌, Option, List, [], ◌∷◌, ◌++◌, arith, length,
}
use sidevers_protocol.Errors.{Error, Result, ok}

pub record PeerAskPayload : Type 0 where
  pub limit : ℕ
  pub intent_filter : Option ℕ

abbrev pub entries : PeerAskPayload → List MapEntry
entries p =
    record { key = text (codes "limit"); value = uint p.limit }
    ∷ record { key = text (codes "intent_filter"); value = encode_nullable uint p.intent_filter }
    ∷ []

unfoldable pub encode : PeerAskPayload → Bytes
encode p = encode_map (entries p)

unfoldable pub body : Read PeerAskPayload
body = do
  expect_count 2
  expect_key (codes "limit")
  limit ← read_u64
  expect_key (codes "intent_filter")
  intent_filter ← read_nullable read_u8
  pure (record { limit = limit; intent_filter = intent_filter })

unfoldable pub decode : Bytes → Result Error PeerAskPayload
decode bs = decode_prefix body bs

abbrev pub Valid : PeerAskPayload → Type 0
Valid p = (p.limit < 2 ^ 64) × (OnSome (λ n. n ≤ 0xff) p.intent_filter)

limit-IsKey : IsKey (codes "limit")
unfolding valid_utf8
limit-IsKey = (omega arith, refl)

intent_filter-IsKey : IsKey (codes "intent_filter")
unfolding valid_utf8
intent_filter-IsKey = (omega arith, refl)

reads : (p : PeerAskPayload) → Valid p → Reads body (encode p) p
unfolding body encode flat
reads p h = rw (encode_map-flat (entries p)) (
    Reads-map 2 _ (omega arith) (
      Reads-field (codes "limit") (uint_codec) _ p.limit limit-IsKey h.0 (
        Reads-field (codes "intent_filter")
          (nullable u8_codec (λ n h. uint-StartsNotNull n (omega (arith, h)))) _ p.intent_filter
          intent_filter-IsKey h.1 (Reads-pure p))))

parses : Parses body (λ p bs. Valid p × (bs ≡ encode p))
unfolding body encode flat
parses = Parses-map 2 _ (
    Parses-field (codes "limit") (uint_codec) _ λ x0 h0.
      Parses-field (codes "intent_filter")
        (nullable u8_codec (λ n h. uint-StartsNotNull n (omega (arith, h)))) _
        λ x1 h1. Parses-pure _ ((h0, h1), sym (encode_map-flat _)))

abbrev codec : Codec PeerAskPayload
codec = record { encode = encode; body = body; Valid = Valid; reads = reads; parses = parses }

-- From bytes that fit the address space, the decoder gives `p` exactly if `p` can be encoded and the
-- bytes begin with its encoding.
pub peer_ask_iff :
    (bs : Bytes) (p : PeerAskPayload)
    → IsBytes bs
    → length bs < usize_mod
    → (decode bs ≡ ok p) ↔ Valid p × ((junk : Bytes) × (bs ≡ encode p ++ junk))
unfolding decode
peer_ask_iff bs p hb fits = decode_prefix_iff codec bs p hb fits
