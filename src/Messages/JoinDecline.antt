-- ===== src/Messages/JoinDecline.antt =====
-- `JoinDeclinePayload` of crates/sidevers-core/src/messages/verse.rs.
use sidevers_protocol.Cbor.Array.{IsText, text_codec, fixed_codec}
use sidevers_protocol.Cbor.Codec.{decode_prefix, decode_prefix_iff, Codec}
use sidevers_protocol.Cbor.Field.{
  expect_count, expect_key, read_fixed, flat, encode_map-flat, IsKey, IsArray,
}
use sidevers_protocol.Cbor.Reader.{◌>>=◌, ◌>>◌, usize_mod, Read, pure, read_text}
use sidevers_protocol.Cbor.Reads.{Reads-pure, Parses-pure, Reads, Parses}
use sidevers_protocol.Cbor.Struct.{Reads-map, Parses-map, Reads-field, Parses-field}
use sidevers_protocol.Cbor.Utf8.{valid_utf8}
use sidevers_protocol.Cbor.Writer.{bytes, text, Bytes, encode_map, MapEntry}
use sidevers_protocol.Common.{
  IsBytes, codes, ◌<◌, ◌≡◌, refl, sym, ◌↔◌, List, [], ◌∷◌, ◌++◌, arith, length,
}
use sidevers_protocol.Errors.{Error, Result, ok}

pub record JoinDeclinePayload : Type 0 where
  pub contract_hash : Bytes
  pub reason : Bytes

abbrev pub entries : JoinDeclinePayload → List MapEntry
entries p =
    record { key = text (codes "reason"); value = text p.reason }
    ∷ record { key = text (codes "contract_hash"); value = bytes p.contract_hash }
    ∷ []

unfoldable pub encode : JoinDeclinePayload → Bytes
encode p = encode_map (entries p)

unfoldable pub body : Read JoinDeclinePayload
body = do
  expect_count 2
  expect_key (codes "reason")
  reason ← read_text
  expect_key (codes "contract_hash")
  contract_hash ← read_fixed "contract_hash" 32
  pure (record { contract_hash = contract_hash; reason = reason })

unfoldable pub decode : Bytes → Result Error JoinDeclinePayload
decode bs = decode_prefix body bs

abbrev pub Valid : JoinDeclinePayload → Type 0
Valid p = (IsText p.reason) × (IsArray 32 p.contract_hash)

reason-IsKey : IsKey (codes "reason")
unfolding valid_utf8
reason-IsKey = (omega arith, refl)

contract_hash-IsKey : IsKey (codes "contract_hash")
unfolding valid_utf8
contract_hash-IsKey = (omega arith, refl)

reads : (p : JoinDeclinePayload) → Valid p → Reads body (encode p) p
unfolding body encode flat
reads p h = rw (encode_map-flat (entries p)) (
    Reads-map 2 _ (omega arith) (
      Reads-field (codes "reason") (text_codec) _ p.reason reason-IsKey h.0 (
        Reads-field (codes "contract_hash") (fixed_codec "contract_hash" 32 (omega arith)) _
          p.contract_hash contract_hash-IsKey h.1 (Reads-pure p))))

parses : Parses body (λ p bs. Valid p × (bs ≡ encode p))
unfolding body encode flat
parses = Parses-map 2 _ (
    Parses-field (codes "reason") (text_codec) _ λ x0 h0.
      Parses-field (codes "contract_hash") (fixed_codec "contract_hash" 32 (omega arith)) _
        λ x1 h1. Parses-pure _ ((h0, h1), sym (encode_map-flat _)))

abbrev codec : Codec JoinDeclinePayload
codec = record { encode = encode; body = body; Valid = Valid; reads = reads; parses = parses }

-- From bytes that fit the address space, the decoder gives `p` exactly if `p` can be encoded and the
-- bytes begin with its encoding.
pub join_decline_iff :
    (bs : Bytes) (p : JoinDeclinePayload)
    → IsBytes bs
    → length bs < usize_mod
    → (decode bs ≡ ok p) ↔ Valid p × ((junk : Bytes) × (bs ≡ encode p ++ junk))
unfolding decode
join_decline_iff bs p hb fits = decode_prefix_iff codec bs p hb fits
