-- ===== src/Messages/PagePublish.antt =====
-- `PagePublishPayload` of crates/sidevers-core/src/messages/public.rs.
use sidevers_protocol.Cbor.Array.{
  IsText, text_codec, uint_codec, bytes_codec, fixed_codec, IsBlob, IsU64,
}
use sidevers_protocol.Cbor.Codec.{decode_whole, Codec}
use sidevers_protocol.Cbor.Field.{
  expect_count, expect_key, read_fixed, flat, encode_map-flat, IsArray,
}
use sidevers_protocol.Cbor.Reader.{
  ◌>>=◌, ◌>>◌, usize_mod, Read, pure, read_u64, read_bytes, read_text,
}
use sidevers_protocol.Cbor.Reads.{Reads-pure, Parses-pure, Reads, Parses}
use sidevers_protocol.Cbor.Struct.{Reads-map, Parses-map, Reads-field, Parses-field}
use sidevers_protocol.Cbor.Utf8.{valid_utf8}
use sidevers_protocol.Cbor.Writer.{Bytes, key, uint, bytes, text, encode_map, MapEntry}
use sidevers_protocol.Common.{
  IsBytes, codes, ℕ, ◌<◌, ◌≡◌, refl, sym, ◌↔◌, List, [], ◌∷◌, arith, length,
}
use sidevers_protocol.Crypto.{Crypto, IsSound}
use sidevers_protocol.Errors.{Error, Result, ok}
use sidevers_protocol.Signing.{
  and_then, check_signature, IsSigned, check_signature-ok, check_signature-eq-ok, sign-IsSigned,
  check_reencoded, checked_whole_iff, checked_whole-encode,
}

pub record PagePublishPayload : Type 0 where
  pub side : Bytes
  pub slug : Bytes
  pub mime : Bytes
  pub content : Bytes
  pub published_at : ℕ
  pub signature : Bytes

abbrev pub unsigned_entries : PagePublishPayload → List MapEntry
unsigned_entries p =
    record { key = key (codes "mime"); value = text p.mime }
    ∷ record { key = key (codes "side"); value = bytes p.side }
    ∷ record { key = key (codes "slug"); value = text p.slug }
    ∷ record { key = key (codes "content"); value = bytes p.content }
    ∷ record { key = key (codes "published_at"); value = uint p.published_at }
    ∷ []

abbrev pub entries : PagePublishPayload → List MapEntry
entries p =
    record { key = key (codes "mime"); value = text p.mime }
    ∷ record { key = key (codes "side"); value = bytes p.side }
    ∷ record { key = key (codes "slug"); value = text p.slug }
    ∷ record { key = key (codes "content"); value = bytes p.content }
    ∷ record { key = key (codes "signature"); value = bytes p.signature }
    ∷ record { key = key (codes "published_at"); value = uint p.published_at }
    ∷ []

-- `encode_unsigned` does not look at the signature.
unfoldable pub encode_unsigned : PagePublishPayload → Bytes
encode_unsigned p = encode_map (unsigned_entries p)

unfoldable pub to_wire_bytes : PagePublishPayload → Bytes
to_wire_bytes p = encode_map (entries p)

unfoldable pub body : Read PagePublishPayload
body = do
  expect_count 6
  expect_key (codes "mime")
  mime ← read_text
  expect_key (codes "side")
  side ← read_fixed "side" 32
  expect_key (codes "slug")
  slug ← read_text
  expect_key (codes "content")
  content ← read_bytes
  expect_key (codes "signature")
  signature ← read_fixed "signature" 64
  expect_key (codes "published_at")
  published_at ← read_u64
  pure (record {
    side = side;
    slug = slug;
    mime = mime;
    content = content;
    published_at = published_at;
    signature = signature;
  })

abbrev pub Valid : PagePublishPayload → Type 0
Valid p =
    IsText p.mime
    × IsArray 32 p.side
    × IsText p.slug
    × IsBlob p.content
    × IsArray 64 p.signature
    × IsU64 p.published_at

reads : (p : PagePublishPayload) → Valid p → Reads body (to_wire_bytes p) p
unfolding body to_wire_bytes flat key text valid_utf8
reads p h = rw (encode_map-flat (entries p)) (
    Reads-map 6 _ (omega arith) (
      Reads-field (codes "mime") (text_codec) _ p.mime (omega arith, refl) h.0
        (Reads-field (codes "side") (fixed_codec "side" 32 (omega arith)) _ p.side
          (omega arith, refl) h.1
          (Reads-field (codes "slug") (text_codec) _ p.slug (omega arith, refl) h.2
            (Reads-field (codes "content") (bytes_codec) _ p.content (omega arith, refl) h.3
              (Reads-field (codes "signature") (fixed_codec "signature" 64 (omega arith)) _
                p.signature (omega arith, refl) h.4
                (Reads-field (codes "published_at") (uint_codec) _ p.published_at
                  (omega arith, refl) h.5 (Reads-pure p))))))))

parses : Parses body (λ p bs. Valid p × (bs ≡ to_wire_bytes p))
unfolding body to_wire_bytes flat key text
parses = Parses-map 6 _ (
    Parses-field (codes "mime") (text_codec) _ λ x0 h0.
      Parses-field (codes "side") (fixed_codec "side" 32 (omega arith)) _ λ x1 h1.
        Parses-field (codes "slug") (text_codec) _ λ x2 h2.
          Parses-field (codes "content") (bytes_codec) _ λ x3 h3.
            Parses-field (codes "signature") (fixed_codec "signature" 64 (omega arith)) _ λ x4 h4.
              Parses-field (codes "published_at") (uint_codec) _
                λ x5 h5. Parses-pure _ ((h0, h1, h2, h3, h4, h5), sym (encode_map-flat _)))

abbrev codec : Codec PagePublishPayload
codec = record {
  encode = to_wire_bytes;
  body = body;
  Valid = Valid;
  reads = reads;
  parses = parses;
}

module _ (c : Crypto) where
  unfoldable pub sign : c.SigningKey → Bytes → Bytes → Bytes → ℕ → PagePublishPayload
  sign side_key slug mime content published_at =
      let unsigned : PagePublishPayload = record {
        side = c.public_bytes side_key;
        slug = slug;
        mime = mime;
        content = content;
        published_at = published_at;
        signature = [];
      } in
      record unsigned { signature = c.sign side_key (c.blake3 (encode_unsigned unsigned)) }

  -- The signature by `side` of the digest of the other fields.
  abbrev pub Authentic : PagePublishPayload → Type 0
  Authentic p = IsSigned c p.side (encode_unsigned p) p.signature

  abbrev check : PagePublishPayload → Result Error (Unit {0})
  check p = check_signature c p.side (encode_unsigned p) p.signature

  unfoldable pub from_wire_bytes : Bytes → Result Error PagePublishPayload
  from_wire_bytes bs = and_then (decode_whole body bs) λ p.
      and_then (check_signature c p.side (encode_unsigned p) p.signature)
        λ _. and_then (check_reencoded (to_wire_bytes p) bs) λ _. ok p

  -- From bytes that fit the address space, the decoder gives `p` exactly if `p` can be encoded, the
  -- bytes are its encoding and its signature holds.
  pub page_publish_iff :
      (bs : Bytes) (p : PagePublishPayload)
      → IsBytes bs
      → length bs < usize_mod
      → (from_wire_bytes bs ≡ ok p) ↔ Valid p × (bs ≡ to_wire_bytes p) × Authentic p
  unfolding from_wire_bytes
  page_publish_iff bs p hb fits =
      let (f, g) = checked_whole_iff codec check bs p hb fits in
      (
        λ e. let (v, s, k) = f e in (v, s, check_signature-eq-ok c p.side _ _ k),
        λ (v, s, k). g (v, s, check_signature-ok c p.side _ _ k),
      )

  -- What is signed of fields of the right widths is accepted with them.
  pub sign-page_publish :
      IsSound c
      → (side_key : c.SigningKey) (p : PagePublishPayload) → Valid p
      → length (to_wire_bytes (sign side_key p.slug p.mime p.content p.published_at)) < usize_mod
      → from_wire_bytes (to_wire_bytes (sign side_key p.slug p.mime p.content p.published_at))
        ≡ ok (sign side_key p.slug p.mime p.content p.published_at)
  unfolding from_wire_bytes sign encode_unsigned
  sign-page_publish s side_key p h fits =
      let signed = sign-IsSigned c s side_key _ in
      checked_whole-encode codec check _
        (h.0, s.key_array side_key, h.2, h.3, s.sign_array side_key _, h.5)
        (check_signature-ok c _ _ _ signed) fits
