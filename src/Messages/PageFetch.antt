-- ===== src/Messages/PageFetch.antt =====
-- `PageFetchPayload` of crates/sidevers-core/src/messages/public.rs.
use sidevers_protocol.Cbor.Array.{IsText, text_codec, fixed_codec}
use sidevers_protocol.Cbor.Codec.{decode_whole, decode_whole_iff, Codec}
use sidevers_protocol.Cbor.Field.{
  expect_count, expect_key, read_fixed, flat, encode_map-flat, IsArray,
}
use sidevers_protocol.Cbor.Reader.{◌>>=◌, ◌>>◌, usize_mod, Read, pure, read_text}
use sidevers_protocol.Cbor.Reads.{Reads-pure, Parses-pure, Reads, Parses}
use sidevers_protocol.Cbor.Struct.{Reads-map, Parses-map, Reads-field, Parses-field}
use sidevers_protocol.Cbor.Utf8.{valid_utf8}
use sidevers_protocol.Cbor.Writer.{Bytes, key, bytes, text, encode_map, MapEntry}
use sidevers_protocol.Common.{
  IsBytes, codes, ◌<◌, ◌≡◌, refl, sym, ◌↔◌, List, [], ◌∷◌, arith, length,
}
use sidevers_protocol.Errors.{Error, Result, ok}

pub record PageFetchPayload : Type 0 where
  pub side : Bytes
  pub slug : Bytes

abbrev pub entries : PageFetchPayload → List MapEntry
entries p =
    record { key = key (codes "side"); value = bytes p.side }
    ∷ record { key = key (codes "slug"); value = text p.slug }
    ∷ []

unfoldable pub encode : PageFetchPayload → Bytes
encode p = encode_map (entries p)

unfoldable pub body : Read PageFetchPayload
body = do
  expect_count 2
  expect_key (codes "side")
  side ← read_fixed "side" 32
  expect_key (codes "slug")
  slug ← read_text
  pure (record { side = side; slug = slug })

abbrev pub Valid : PageFetchPayload → Type 0
Valid p = IsArray 32 p.side × IsText p.slug

reads : (p : PageFetchPayload) → Valid p → Reads body (encode p) p
unfolding body encode flat key text valid_utf8
reads p h = rw (encode_map-flat (entries p)) (
    Reads-map 2 _ (omega arith) (
      Reads-field (codes "side") (fixed_codec "side" 32 (omega arith)) _ p.side (omega arith, refl)
        h.0
        (Reads-field (codes "slug") (text_codec) _ p.slug (omega arith, refl) h.1 (Reads-pure p))))

parses : Parses body (λ p bs. Valid p × (bs ≡ encode p))
unfolding body encode flat key text
parses = Parses-map 2 _ (
    Parses-field (codes "side") (fixed_codec "side" 32 (omega arith)) _ λ x0 h0.
      Parses-field (codes "slug") (text_codec) _
        λ x1 h1. Parses-pure _ ((h0, h1), sym (encode_map-flat _)))

abbrev codec : Codec PageFetchPayload
codec = record { encode = encode; body = body; Valid = Valid; reads = reads; parses = parses }

unfoldable pub decode : Bytes → Result Error PageFetchPayload
decode bs = decode_whole body bs

-- From bytes that fit the address space, the decoder gives `p` exactly if `p` can be encoded and the
-- bytes are its encoding.
pub page_fetch_iff :
    (bs : Bytes) (p : PageFetchPayload)
    → IsBytes bs
    → length bs < usize_mod
    → (decode bs ≡ ok p) ↔ Valid p × (bs ≡ encode p)
unfolding decode
page_fetch_iff bs p hb fits = decode_whole_iff codec bs p hb fits
