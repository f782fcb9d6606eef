-- ===== src/Messages/HandleResolve.antt =====
-- `HandleResolvePayload` of crates/sidevers-core/src/messages/public.rs.
use sidevers_protocol.Cbor.Array.{IsText, text_codec}
use sidevers_protocol.Cbor.Codec.{decode_whole, decode_whole_iff, Codec}
use sidevers_protocol.Cbor.Field.{expect_count, expect_key, flat, encode_map-flat}
use sidevers_protocol.Cbor.Reader.{◌>>=◌, ◌>>◌, usize_mod, Read, pure, read_text}
use sidevers_protocol.Cbor.Reads.{Reads-pure, Parses-pure, Reads, Parses}
use sidevers_protocol.Cbor.Struct.{Reads-map, Parses-map, Reads-field, Parses-field}
use sidevers_protocol.Cbor.Utf8.{valid_utf8}
use sidevers_protocol.Cbor.Writer.{Bytes, key, text, encode_map, MapEntry}
use sidevers_protocol.Common.{
  IsBytes, codes, ◌<◌, ◌≡◌, refl, sym, ◌↔◌, List, [], ◌∷◌, arith, length,
}
use sidevers_protocol.Errors.{Error, Result, ok}

pub record HandleResolvePayload : Type 0 where
  pub handle_local : Bytes
  pub domain : Bytes

abbrev pub entries : HandleResolvePayload → List MapEntry
entries p =
    record { key = key (codes "domain"); value = text p.domain }
    ∷ record { key = key (codes "handle_local"); value = text p.handle_local }
    ∷ []

unfoldable pub encode : HandleResolvePayload → Bytes
encode p = encode_map (entries p)

unfoldable pub body : Read HandleResolvePayload
body = do
  expect_count 2
  expect_key (codes "domain")
  domain ← read_text
  expect_key (codes "handle_local")
  handle_local ← read_text
  pure (record { handle_local = handle_local; domain = domain })

abbrev pub Valid : HandleResolvePayload → Type 0
Valid p = IsText p.domain × IsText p.handle_local

reads : (p : HandleResolvePayload) → Valid p → Reads body (encode p) p
unfolding body encode flat key text valid_utf8
reads p h = rw (encode_map-flat (entries p)) (
    Reads-map 2 _ (omega arith) (
      Reads-field (codes "domain") (text_codec) _ p.domain (omega arith, refl) h.0
        (Reads-field (codes "handle_local") (text_codec) _ p.handle_local (omega arith, refl) h.1
          (Reads-pure p))))

parses : Parses body (λ p bs. Valid p × (bs ≡ encode p))
unfolding body encode flat key text
parses = Parses-map 2 _ (
    Parses-field (codes "domain") (text_codec) _ λ x0 h0.
      Parses-field (codes "handle_local") (text_codec) _
        λ x1 h1. Parses-pure _ ((h0, h1), sym (encode_map-flat _)))

abbrev codec : Codec HandleResolvePayload
codec = record { encode = encode; body = body; Valid = Valid; reads = reads; parses = parses }

unfoldable pub decode : Bytes → Result Error HandleResolvePayload
decode bs = decode_whole body bs

-- From bytes that fit the address space, the decoder gives `p` exactly if `p` can be encoded and the
-- bytes are its encoding.
pub handle_resolve_iff :
    (bs : Bytes) (p : HandleResolvePayload)
    → IsBytes bs
    → length bs < usize_mod
    → (decode bs ≡ ok p) ↔ Valid p × (bs ≡ encode p)
unfolding decode
handle_resolve_iff bs p hb fits = decode_whole_iff codec bs p hb fits
