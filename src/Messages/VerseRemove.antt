-- ===== src/Messages/VerseRemove.antt =====
-- `VerseRemovePayload` of crates/sidevers-core/src/messages/verse.rs.
use sidevers_protocol.Cbor.Array.{IsText, text_codec, uint_codec, fixed_codec, IsU64}
use sidevers_protocol.Cbor.Codec.{decode_prefix, Codec}
use sidevers_protocol.Cbor.Field.{
  expect_count, expect_key, read_fixed, flat, encode_map-flat, IsArray,
}
use sidevers_protocol.Cbor.Reader.{◌>>=◌, ◌>>◌, usize_mod, Read, pure, read_u64, read_text}
use sidevers_protocol.Cbor.Reads.{Reads-pure, Parses-pure, Reads, Parses}
use sidevers_protocol.Cbor.Struct.{Reads-map, Parses-map, Reads-field, Parses-field}
use sidevers_protocol.Cbor.Utf8.{valid_utf8}
use sidevers_protocol.Cbor.Writer.{Bytes, uint, bytes, text, encode_map, MapEntry}
use sidevers_protocol.Common.{
  IsBytes, codes, ℕ, ◌<◌, ◌≡◌, refl, sym, ◌↔◌, List, [], ◌∷◌, ◌++◌, arith, length,
}
use sidevers_protocol.Crypto.{Crypto, IsSound}
use sidevers_protocol.Errors.{Error, Result, ok}
use sidevers_protocol.Signing.{
  and_then, check_signature, IsSigned, check_signature-ok, check_signature-eq-ok, sign-IsSigned,
  checked_prefix_iff, checked_prefix-encode,
}

pub record VerseRemovePayload : Type 0 where
  pub verse : Bytes
  pub side : Bytes
  pub reason : Bytes
  pub issued_by : Bytes
  pub issued_at : ℕ
  pub signature : Bytes

abbrev pub unsigned_entries : VerseRemovePayload → List MapEntry
unsigned_entries p =
    record { key = text (codes "side"); value = bytes p.side }
    ∷ record { key = text (codes "verse"); value = bytes p.verse }
    ∷ record { key = text (codes "reason"); value = text p.reason }
    ∷ record { key = text (codes "issued_at"); value = uint p.issued_at }
    ∷ record { key = text (codes "issued_by"); value = bytes p.issued_by }
    ∷ []

abbrev pub entries : VerseRemovePayload → List MapEntry
entries p =
    record { key = text (codes "side"); value = bytes p.side }
    ∷ record { key = text (codes "verse"); value = bytes p.verse }
    ∷ record { key = text (codes "reason"); value = text p.reason }
    ∷ record { key = text (codes "issued_at"); value = uint p.issued_at }
    ∷ record { key = text (codes "issued_by"); value = bytes p.issued_by }
    ∷ record { key = text (codes "signature"); value = bytes p.signature }
    ∷ []

-- `encode_unsigned` does not look at the signature.
unfoldable pub encode_unsigned : VerseRemovePayload → Bytes
encode_unsigned p = encode_map (unsigned_entries p)

unfoldable pub encode : VerseRemovePayload → Bytes
encode p = encode_map (entries p)

unfoldable pub body : Read VerseRemovePayload
body = do
  expect_count 6
  expect_key (codes "side")
  side ← read_fixed "side" 32
  expect_key (codes "verse")
  verse ← read_fixed "verse" 32
  expect_key (codes "reason")
  reason ← read_text
  expect_key (codes "issued_at")
  issued_at ← read_u64
  expect_key (codes "issued_by")
  issued_by ← read_fixed "issued_by" 32
  expect_key (codes "signature")
  signature ← read_fixed "signature" 64
  pure (record {
    verse = verse;
    side = side;
    reason = reason;
    issued_by = issued_by;
    issued_at = issued_at;
    signature = signature;
  })

abbrev pub Valid : VerseRemovePayload → Type 0
Valid p =
    IsArray 32 p.side
    × IsArray 32 p.verse
    × IsText p.reason
    × IsU64 p.issued_at
    × IsArray 32 p.issued_by
    × IsArray 64 p.signature

reads : (p : VerseRemovePayload) → Valid p → Reads body (encode p) p
unfolding body encode flat valid_utf8
reads p h = rw (encode_map-flat (entries p)) (
    Reads-map 6 _ (omega arith) (
      Reads-field (codes "side") (fixed_codec "side" 32 (omega arith)) _ p.side (omega arith, refl)
        h.0
        (Reads-field (codes "verse") (fixed_codec "verse" 32 (omega arith)) _ p.verse
          (omega arith, refl) h.1
          (Reads-field (codes "reason") (text_codec) _ p.reason (omega arith, refl) h.2
            (Reads-field (codes "issued_at") (uint_codec) _ p.issued_at (omega arith, refl) h.3
              (Reads-field (codes "issued_by") (fixed_codec "issued_by" 32 (omega arith)) _
                p.issued_by (omega arith, refl) h.4
                (Reads-field (codes "signature") (fixed_codec "signature" 64 (omega arith)) _
                  p.signature (omega arith, refl) h.5 (Reads-pure p))))))))

parses : Parses body (λ p bs. Valid p × (bs ≡ encode p))
unfolding body encode flat
parses = Parses-map 6 _ (
    Parses-field (codes "side") (fixed_codec "side" 32 (omega arith)) _ λ x0 h0.
      Parses-field (codes "verse") (fixed_codec "verse" 32 (omega arith)) _ λ x1 h1.
        Parses-field (codes "reason") (text_codec) _ λ x2 h2.
          Parses-field (codes "issued_at") (uint_codec) _ λ x3 h3.
            Parses-field (codes "issued_by") (fixed_codec "issued_by" 32 (omega arith)) _ λ x4 h4.
              Parses-field (codes "signature") (fixed_codec "signature" 64 (omega arith)) _
                λ x5 h5. Parses-pure _ ((h0, h1, h2, h3, h4, h5), sym (encode_map-flat _)))

abbrev codec : Codec VerseRemovePayload
codec = record { encode = encode; body = body; Valid = Valid; reads = reads; parses = parses }

module _ (c : Crypto) where
  unfoldable pub sign : c.SigningKey → Bytes → Bytes → Bytes → ℕ → VerseRemovePayload
  sign moderator_key verse side reason issued_at =
      let unsigned : VerseRemovePayload = record {
        verse = verse;
        side = side;
        reason = reason;
        issued_by = c.public_bytes moderator_key;
        issued_at = issued_at;
        signature = [];
      } in
      record unsigned { signature = c.sign moderator_key (c.blake3 (encode_unsigned unsigned)) }

  -- The signature by `issued_by` of the digest of the other fields.
  abbrev pub Authentic : VerseRemovePayload → Type 0
  Authentic p = IsSigned c p.issued_by (encode_unsigned p) p.signature

  abbrev check : VerseRemovePayload → Result Error (Unit {0})
  check p = check_signature c p.issued_by (encode_unsigned p) p.signature

  unfoldable pub decode : Bytes → Result Error VerseRemovePayload
  decode bs =
      and_then (decode_prefix body bs)
        λ p. and_then (check_signature c p.issued_by (encode_unsigned p) p.signature) λ _. ok p

  -- From bytes that fit the address space, the decoder gives `p` exactly if `p` can be encoded, the
  -- bytes begin with its encoding and its signature holds.
  pub verse_remove_iff :
      (bs : Bytes) (p : VerseRemovePayload)
      → IsBytes bs
      → length bs < usize_mod
      → (decode bs ≡ ok p) ↔ Valid p × ((junk : Bytes) × (bs ≡ encode p ++ junk)) × Authentic p
  unfolding decode
  verse_remove_iff bs p hb fits =
      let (f, g) = checked_prefix_iff codec check bs p hb fits in
      (
        λ e. let (v, s, k) = f e in (v, s, check_signature-eq-ok c p.issued_by _ _ k),
        λ (v, s, k). g (v, s, check_signature-ok c p.issued_by _ _ k),
      )

  -- What is signed of fields of the right widths is accepted with them.
  pub sign-verse_remove :
      IsSound c
      → (moderator_key : c.SigningKey) (p : VerseRemovePayload) → Valid p
      → length (encode (sign moderator_key p.verse p.side p.reason p.issued_at)) < usize_mod
      → decode (encode (sign moderator_key p.verse p.side p.reason p.issued_at))
        ≡ ok (sign moderator_key p.verse p.side p.reason p.issued_at)
  unfolding decode sign encode_unsigned
  sign-verse_remove s moderator_key p h fits =
      let signed = sign-IsSigned c s moderator_key _ in
      checked_prefix-encode codec check _
        (h.0, h.1, h.2, h.3, s.key_array moderator_key, s.sign_array moderator_key _)
        (check_signature-ok c _ _ _ signed) fits
