-- ===== src/Messages/VersePost.antt =====
-- `VersePostPayload` of crates/sidevers-core/src/messages/verse.rs.
use sidevers_protocol.Cbor.Array.{bytes_codec, fixed_codec}
use sidevers_protocol.Cbor.Codec.{decode_prefix, decode_prefix_iff, Codec}
use sidevers_protocol.Cbor.Field.{
  expect_count, expect_key, read_fixed, flat, encode_map-flat, IsKey, IsArray,
}
use sidevers_protocol.Cbor.Reader.{◌>>=◌, ◌>>◌, usize_mod, Read, pure, read_bytes}
use sidevers_protocol.Cbor.Reads.{Reads-pure, Parses-pure, Reads, Parses}
use sidevers_protocol.Cbor.Struct.{Reads-map, Parses-map, Reads-field, Parses-field}
use sidevers_protocol.Cbor.Utf8.{valid_utf8}
use sidevers_protocol.Cbor.Writer.{bytes, text, Bytes, encode_map, MapEntry}
use sidevers_protocol.Common.{
  IsBytes, codes, ◌^◌, ◌<◌, ◌≡◌, refl, sym, ◌↔◌, List, [], ◌∷◌, ◌++◌, arith, length,
}
use sidevers_protocol.Errors.{Error, Result, ok}

pub record VersePostPayload : Type 0 where
  pub nonce : Bytes
  pub ciphertext : Bytes

abbrev pub entries : VersePostPayload → List MapEntry
entries p =
    record { key = text (codes "nonce"); value = bytes p.nonce }
    ∷ record { key = text (codes "ciphertext"); value = bytes p.ciphertext }
    ∷ []

unfoldable pub encode : VersePostPayload → Bytes
encode p = encode_map (entries p)

unfoldable pub body : Read VersePostPayload
body = do
  expect_count 2
  expect_key (codes "nonce")
  nonce ← read_fixed "nonce" 12
  expect_key (codes "ciphertext")
  ciphertext ← read_bytes
  pure (record { nonce = nonce; ciphertext = ciphertext })

unfoldable pub decode : Bytes → Result Error VersePostPayload
decode bs = decode_prefix body bs

abbrev pub Valid : VersePostPayload → Type 0
Valid p = (IsArray 12 p.nonce) × ((length p.ciphertext < 2 ^ 64) × IsBytes p.ciphertext)

nonce-IsKey : IsKey (codes "nonce")
unfolding valid_utf8
nonce-IsKey = (omega arith, refl)

ciphertext-IsKey : IsKey (codes "ciphertext")
unfolding valid_utf8
ciphertext-IsKey = (omega arith, refl)

reads : (p : VersePostPayload) → Valid p → Reads body (encode p) p
unfolding body encode flat
reads p h = rw (encode_map-flat (entries p)) (
    Reads-map 2 _ (omega arith) (
      Reads-field (codes "nonce") (fixed_codec "nonce" 12 (omega arith)) _ p.nonce nonce-IsKey h.0 (
        Reads-field (codes "ciphertext") (bytes_codec) _ p.ciphertext ciphertext-IsKey h.1
          (Reads-pure p))))

parses : Parses body (λ p bs. Valid p × (bs ≡ encode p))
unfolding body encode flat
parses = Parses-map 2 _ (
    Parses-field (codes "nonce") (fixed_codec "nonce" 12 (omega arith)) _ λ x0 h0.
      Parses-field (codes "ciphertext") (bytes_codec) _
        λ x1 h1. Parses-pure _ ((h0, h1), sym (encode_map-flat _)))

abbrev codec : Codec VersePostPayload
codec = record { encode = encode; body = body; Valid = Valid; reads = reads; parses = parses }

-- From bytes that fit the address space, the decoder gives `p` exactly if `p` can be encoded and the
-- bytes begin with its encoding.
pub verse_post_iff :
    (bs : Bytes) (p : VersePostPayload)
    → IsBytes bs
    → length bs < usize_mod
    → (decode bs ≡ ok p) ↔ Valid p × ((junk : Bytes) × (bs ≡ encode p ++ junk))
unfolding decode
verse_post_iff bs p hb fits = decode_prefix_iff codec bs p hb fits
