-- ===== src/Messages/Confirm.antt =====
-- `ConfirmPayload` of crates/sidevers-core/src/messages/handshake.rs.
use sidevers_protocol.Cbor.Array.{fixed_codec}
use sidevers_protocol.Cbor.Codec.{decode_whole, decode_whole_iff, Codec}
use sidevers_protocol.Cbor.Field.{
  expect_count, expect_key, read_fixed, flat, encode_map-flat, IsKey, IsArray,
}
use sidevers_protocol.Cbor.Reader.{◌>>=◌, ◌>>◌, usize_mod, Read, pure}
use sidevers_protocol.Cbor.Reads.{Reads-pure, Parses-pure, Reads, Parses}
use sidevers_protocol.Cbor.Struct.{Reads-map, Parses-map, Reads-field, Parses-field}
use sidevers_protocol.Cbor.Utf8.{valid_utf8}
use sidevers_protocol.Cbor.Writer.{Bytes, bytes, text, encode_map, MapEntry}
use sidevers_protocol.Common.{
  IsBytes, codes, ◌<◌, ◌≡◌, refl, sym, ◌↔◌, List, [], ◌∷◌, arith, length,
}
use sidevers_protocol.Errors.{Error, Result, ok}

pub record ConfirmPayload : Type 0 where
  pub proof : Bytes

abbrev pub entries : ConfirmPayload → List MapEntry
entries p = record { key = text (codes "proof"); value = bytes p.proof } ∷ []

unfoldable pub encode : ConfirmPayload → Bytes
encode p = encode_map (entries p)

unfoldable pub body : Read ConfirmPayload
body = do
  expect_count 1
  expect_key (codes "proof")
  proof ← read_fixed "proof" 32
  pure (record { proof = proof })

unfoldable pub decode : Bytes → Result Error ConfirmPayload
decode bs = decode_whole body bs

abbrev pub Valid : ConfirmPayload → Type 0
Valid p = IsArray 32 p.proof

proof-IsKey : IsKey (codes "proof")
unfolding valid_utf8
proof-IsKey = (omega arith, refl)

reads : (p : ConfirmPayload) → Valid p → Reads body (encode p) p
unfolding body encode flat
reads p h = rw (encode_map-flat (entries p)) (
    Reads-map 1 _ (omega arith) (
      Reads-field (codes "proof") (fixed_codec "proof" 32 (omega arith)) _ p.proof proof-IsKey h
        (Reads-pure p)))

parses : Parses body (λ p bs. Valid p × (bs ≡ encode p))
unfolding body encode flat
parses = Parses-map 1 _ (
    Parses-field (codes "proof") (fixed_codec "proof" 32 (omega arith)) _
      λ x0 h0. Parses-pure _ (h0, sym (encode_map-flat _)))

abbrev codec : Codec ConfirmPayload
codec = record { encode = encode; body = body; Valid = Valid; reads = reads; parses = parses }

-- From bytes that fit the address space, the decoder gives `p` exactly if `p` can be encoded and the
-- bytes are its encoding.
pub confirm_iff :
    (bs : Bytes) (p : ConfirmPayload)
    → IsBytes bs
    → length bs < usize_mod
    → (decode bs ≡ ok p) ↔ Valid p × (bs ≡ encode p)
unfolding decode
confirm_iff bs p hb fits = decode_whole_iff codec bs p hb fits
