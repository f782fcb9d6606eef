-- ===== src/Messages/DirectTyping.antt =====
-- `DirectTypingPayload` of crates/sidevers-core/src/messages/direct.rs.
use sidevers_protocol.Cbor.Codec.{decode_whole, decode_whole_iff, Codec}
use sidevers_protocol.Cbor.Field.{expect_count, expect_key, flat, encode_map-flat, IsKey}
use sidevers_protocol.Cbor.Reader.{◌>>=◌, ◌>>◌, usize_mod, Read, pure}
use sidevers_protocol.Cbor.Reads.{Reads-pure, Parses-pure, Reads, Parses}
use sidevers_protocol.Cbor.Spelled.{read_spelled, IsSpelled}
use sidevers_protocol.Cbor.Struct.{Reads-map, Parses-map, Reads-field, Parses-field}
use sidevers_protocol.Cbor.Utf8.{valid_utf8}
use sidevers_protocol.Cbor.Writer.{Bytes, key, text, encode_map, MapEntry}
use sidevers_protocol.Common.{
  IsBytes, codes, ◌<◌, ◌≡◌, refl, sym, ◌↔◌, List, [], ◌∷◌, arith, length,
}
use sidevers_protocol.Errors.{Error, Result, ok}
use sidevers_protocol.Messages.TypingState

pub record DirectTypingPayload : Type 0 where
  pub state : TypingState.TypingState

abbrev pub entries : DirectTypingPayload → List MapEntry
entries p = record { key = key (codes "state"); value = text (TypingState.as_str p.state) } ∷ []

unfoldable pub encode : DirectTypingPayload → Bytes
encode p = encode_map (entries p)

unfoldable pub body : Read DirectTypingPayload
body = do
  expect_count 1
  expect_key (codes "state")
  state ← read_spelled TypingState.parse
  pure (record { state = state })

unfoldable pub decode : Bytes → Result Error DirectTypingPayload
decode bs = decode_whole body bs

abbrev pub Valid : DirectTypingPayload → Type 0
Valid p = IsSpelled TypingState.as_str TypingState.parse p.state

state-IsKey : IsKey (codes "state")
unfolding valid_utf8
state-IsKey = (omega arith, refl)

reads : (p : DirectTypingPayload) → Valid p → Reads body (encode p) p
unfolding body encode flat key text
reads p h = rw (encode_map-flat (entries p)) (
    Reads-map 1 _ (omega arith) (
      Reads-field (codes "state") (TypingState.typing_state_codec) _ p.state state-IsKey h
        (Reads-pure p)))

parses : Parses body (λ p bs. Valid p × (bs ≡ encode p))
unfolding body encode flat key text
parses = Parses-map 1 _ (
    Parses-field (codes "state") (TypingState.typing_state_codec) _
      λ x0 h0. Parses-pure _ (h0, sym (encode_map-flat _)))

abbrev codec : Codec DirectTypingPayload
codec = record { encode = encode; body = body; Valid = Valid; reads = reads; parses = parses }

-- From bytes that fit the address space, the decoder gives `p` exactly if `p` can be encoded and the
-- bytes are its encoding.
pub direct_typing_iff :
    (bs : Bytes) (p : DirectTypingPayload)
    → IsBytes bs
    → length bs < usize_mod
    → (decode bs ≡ ok p) ↔ Valid p × (bs ≡ encode p)
unfolding decode
direct_typing_iff bs p hb fits = decode_whole_iff codec bs p hb fits
