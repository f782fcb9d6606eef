-- ===== src/Messages/DirectReceipt.antt =====
-- `DirectReceiptPayload` of crates/sidevers-core/src/messages/direct.rs, whose field `message_ref` has the key `ref`.
use sidevers_protocol.Cbor.Array.{fixed_codec}
use sidevers_protocol.Cbor.Codec.{decode_whole, decode_whole_iff, Codec}
use sidevers_protocol.Cbor.Field.{
  expect_count, expect_key, read_fixed, flat, encode_map-flat, IsKey, IsArray,
}
use sidevers_protocol.Cbor.Reader.{◌>>=◌, ◌>>◌, usize_mod, Read, pure}
use sidevers_protocol.Cbor.Reads.{Reads-pure, Parses-pure, Reads, Parses}
use sidevers_protocol.Cbor.Spelled.{read_spelled, IsSpelled}
use sidevers_protocol.Cbor.Struct.{Reads-map, Parses-map, Reads-field, Parses-field}
use sidevers_protocol.Cbor.Utf8.{valid_utf8}
use sidevers_protocol.Cbor.Writer.{Bytes, key, bytes, text, encode_map, MapEntry}
use sidevers_protocol.Common.{
  IsBytes, codes, ◌<◌, ◌≡◌, refl, sym, ◌↔◌, List, [], ◌∷◌, arith, length,
}
use sidevers_protocol.Errors.{Error, Result, ok}
use sidevers_protocol.Messages.ReceiptStatus

pub record DirectReceiptPayload : Type 0 where
  pub message_ref : Bytes
  pub status : ReceiptStatus.ReceiptStatus

abbrev pub entries : DirectReceiptPayload → List MapEntry
entries p =
    record { key = key (codes "ref"); value = bytes p.message_ref }
    ∷ record { key = key (codes "status"); value = text (ReceiptStatus.as_str p.status) }
    ∷ []

unfoldable pub encode : DirectReceiptPayload → Bytes
encode p = encode_map (entries p)

unfoldable pub body : Read DirectReceiptPayload
body = do
  expect_count 2
  expect_key (codes "ref")
  message_ref ← read_fixed "ref" 32
  expect_key (codes "status")
  status ← read_spelled ReceiptStatus.parse
  pure (record { message_ref = message_ref; status = status })

unfoldable pub decode : Bytes → Result Error DirectReceiptPayload
decode bs = decode_whole body bs

abbrev pub Valid : DirectReceiptPayload → Type 0
Valid p = (IsArray 32 p.message_ref) × (IsSpelled ReceiptStatus.as_str ReceiptStatus.parse p.status)

ref-IsKey : IsKey (codes "ref")
unfolding valid_utf8
ref-IsKey = (omega arith, refl)

status-IsKey : IsKey (codes "status")
unfolding valid_utf8
status-IsKey = (omega arith, refl)

reads : (p : DirectReceiptPayload) → Valid p → Reads body (encode p) p
unfolding body encode flat key text
reads p h = rw (encode_map-flat (entries p)) (
    Reads-map 2 _ (omega arith) (
      Reads-field (codes "ref") (fixed_codec "ref" 32 (omega arith)) _ p.message_ref ref-IsKey h.0 (
        Reads-field (codes "status") (ReceiptStatus.receipt_status_codec) _ p.status status-IsKey
          h.1 (Reads-pure p))))

parses : Parses body (λ p bs. Valid p × (bs ≡ encode p))
unfolding body encode flat key text
parses = Parses-map 2 _ (
    Parses-field (codes "ref") (fixed_codec "ref" 32 (omega arith)) _ λ x0 h0.
      Parses-field (codes "status") (ReceiptStatus.receipt_status_codec) _
        λ x1 h1. Parses-pure _ ((h0, h1), sym (encode_map-flat _)))

abbrev codec : Codec DirectReceiptPayload
codec = record { encode = encode; body = body; Valid = Valid; reads = reads; parses = parses }

-- From bytes that fit the address space, the decoder gives `p` exactly if `p` can be encoded and the
-- bytes are its encoding.
pub direct_receipt_iff :
    (bs : Bytes) (p : DirectReceiptPayload)
    → IsBytes bs
    → length bs < usize_mod
    → (decode bs ≡ ok p) ↔ Valid p × (bs ≡ encode p)
unfolding decode
direct_receipt_iff bs p hb fits = decode_whole_iff codec bs p hb fits
