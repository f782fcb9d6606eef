-- ===== src/Messages/ReceiptStatus.antt =====
-- `ReceiptStatus` of crates/sidevers-core/src/messages/direct.rs.
use sidevers_protocol.Cbor.Codec.{Codec}
use sidevers_protocol.Cbor.Spelled.{spelled}
use sidevers_protocol.Cbor.Writer.{Bytes}
use sidevers_protocol.Common.{
  bytes_eq, codes, bytes_eq_iff, ◌≡◌, refl, sym, inl, inr, if◌then◌else◌, Bool-cases,
}

pub data ReceiptStatus : Type 0 where
  delivered read : ReceiptStatus
  other : Bytes → ReceiptStatus

abbrev pub as_str : ReceiptStatus → Bytes
as_str delivered = codes "delivered"
as_str read = codes "read"
as_str (other s) = s

unfoldable pub parse : Bytes → ReceiptStatus
parse s =
    if bytes_eq s (codes "delivered")
    then delivered
    else if bytes_eq s (codes "read")
    then read
    else other s

-- Parsing keeps the spelling.
pub as_str-parse : (s : Bytes) → as_str (parse s) ≡ s
unfolding parse
as_str-parse s = elim (Bool-cases (bytes_eq s (codes "delivered"))) [
  | inl h ↦ rw h (sym ((bytes_eq_iff s (codes "delivered")).0 h))
  | inr h ↦ rw h (elim (Bool-cases (bytes_eq s (codes "read"))) [
    | inl h ↦ rw h (sym ((bytes_eq_iff s (codes "read")).0 h))
    | inr h ↦ rw h (refl)
  ])
]

abbrev pub receipt_status_codec : Codec ReceiptStatus
receipt_status_codec = spelled as_str parse as_str-parse
