-- ===== src/Messages/TypingState.antt =====
-- `TypingState` of crates/sidevers-core/src/messages/direct.rs.
use sidevers_protocol.Cbor.Codec.{Codec}
use sidevers_protocol.Cbor.Spelled.{spelled}
use sidevers_protocol.Cbor.Writer.{Bytes}
use sidevers_protocol.Common.{
  bytes_eq, codes, bytes_eq_iff, ◌≡◌, refl, sym, inl, inr, if◌then◌else◌, Bool-cases,
}

pub data TypingState : Type 0 where
  started stopped : TypingState
  other : Bytes → TypingState

abbrev pub as_str : TypingState → Bytes
as_str started = codes "started"
as_str stopped = codes "stopped"
as_str (other s) = s

unfoldable pub parse : Bytes → TypingState
parse s =
    if bytes_eq s (codes "started")
    then started
    else if bytes_eq s (codes "stopped")
    then stopped
    else other s

-- Parsing keeps the spelling.
pub as_str-parse : (s : Bytes) → as_str (parse s) ≡ s
unfolding parse
as_str-parse s = elim (Bool-cases (bytes_eq s (codes "started"))) [
  | inl h ↦ rw h (sym ((bytes_eq_iff s (codes "started")).0 h))
  | inr h ↦ rw h (elim (Bool-cases (bytes_eq s (codes "stopped"))) [
    | inl h ↦ rw h (sym ((bytes_eq_iff s (codes "stopped")).0 h))
    | inr h ↦ rw h (refl)
  ])
]

abbrev pub typing_state_codec : Codec TypingState
typing_state_codec = spelled as_str parse as_str-parse
