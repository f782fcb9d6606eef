-- ===== src/Messages/VerseLeave.antt =====
-- `VerseLeavePayload` of crates/sidevers-core/src/messages/verse.rs.
use sidevers_protocol.Cbor.Array.{IsText, fixed_codec}
use sidevers_protocol.Cbor.Codec.{decode_prefix, Codec}
use sidevers_protocol.Cbor.Field.{
  expect_count, expect_key, read_fixed, flat, encode_map-flat, IsArray,
}
use sidevers_protocol.Cbor.Nullable.{read_nullable, encode_nullable, OnSome, optional_text}
use sidevers_protocol.Cbor.Reader.{◌>>=◌, ◌>>◌, usize_mod, Read, pure, read_text}
use sidevers_protocol.Cbor.Reads.{Reads-pure, Parses-pure, Reads, Parses}
use sidevers_protocol.Cbor.Struct.{Reads-map, Parses-map, Reads-field, Parses-field}
use sidevers_protocol.Cbor.Utf8.{valid_utf8}
use sidevers_protocol.Cbor.Writer.{Bytes, bytes, text, encode_map, MapEntry}
use sidevers_protocol.Common.{
  IsBytes, codes, ◌<◌, ◌≡◌, refl, sym, ◌↔◌, Option, List, [], ◌∷◌, ◌++◌, arith, length,
}
use sidevers_protocol.Crypto.{Crypto, IsSound}
use sidevers_protocol.Errors.{Error, Result, ok}
use sidevers_protocol.Messages.DataDisposition.{
  DataDisposition, as_str, read_disposition, disposition_codec, IsDisposition,
}
use sidevers_protocol.Signing.{
  and_then, check_signature, IsSigned, check_signature-ok, check_signature-eq-ok, sign-IsSigned,
  checked_prefix_iff, checked_prefix-encode,
}

pub record VerseLeavePayload : Type 0 where
  pub verse : Bytes
  pub side : Bytes
  pub membership_hash : Bytes
  pub reason : Option Bytes
  pub disposition : DataDisposition
  pub signature : Bytes

abbrev pub unsigned_entries : VerseLeavePayload → List MapEntry
unsigned_entries p =
    record { key = text (codes "side"); value = bytes p.side }
    ∷ record { key = text (codes "verse"); value = bytes p.verse }
    ∷ record { key = text (codes "reason"); value = encode_nullable text p.reason }
    ∷ record { key = text (codes "disposition"); value = text (as_str p.disposition) }
    ∷ record { key = text (codes "membership_hash"); value = bytes p.membership_hash }
    ∷ []

abbrev pub entries : VerseLeavePayload → List MapEntry
entries p =
    record { key = text (codes "side"); value = bytes p.side }
    ∷ record { key = text (codes "verse"); value = bytes p.verse }
    ∷ record { key = text (codes "reason"); value = encode_nullable text p.reason }
    ∷ record { key = text (codes "signature"); value = bytes p.signature }
    ∷ record { key = text (codes "disposition"); value = text (as_str p.disposition) }
    ∷ record { key = text (codes "membership_hash"); value = bytes p.membership_hash }
    ∷ []

-- `encode_unsigned` does not look at the signature.
unfoldable pub encode_unsigned : VerseLeavePayload → Bytes
encode_unsigned p = encode_map (unsigned_entries p)

unfoldable pub encode : VerseLeavePayload → Bytes
encode p = encode_map (entries p)

unfoldable pub body : Read VerseLeavePayload
body = do
  expect_count 6
  expect_key (codes "side")
  side ← read_fixed "side" 32
  expect_key (codes "verse")
  verse ← read_fixed "verse" 32
  expect_key (codes "reason")
  reason ← read_nullable read_text
  expect_key (codes "signature")
  signature ← read_fixed "signature" 64
  expect_key (codes "disposition")
  disposition ← read_disposition
  expect_key (codes "membership_hash")
  membership_hash ← read_fixed "membership_hash" 32
  pure (record {
    verse = verse;
    side = side;
    membership_hash = membership_hash;
    reason = reason;
    disposition = disposition;
    signature = signature;
  })

abbrev pub Valid : VerseLeavePayload → Type 0
Valid p =
    IsArray 32 p.side
    × IsArray 32 p.verse
    × OnSome IsText p.reason
    × IsArray 64 p.signature
    × IsDisposition p.disposition
    × IsArray 32 p.membership_hash

reads : (p : VerseLeavePayload) → Valid p → Reads body (encode p) p
unfolding body encode flat valid_utf8
reads p h = rw (encode_map-flat (entries p)) (
    Reads-map 6 _ (omega arith) (
      Reads-field (codes "side") (fixed_codec "side" 32 (omega arith)) _ p.side (omega arith, refl)
        h.0
        (Reads-field (codes "verse") (fixed_codec "verse" 32 (omega arith)) _ p.verse
          (omega arith, refl) h.1
          (Reads-field (codes "reason") (optional_text) _ p.reason (omega arith, refl) h.2
            (Reads-field (codes "signature") (fixed_codec "signature" 64 (omega arith)) _
              p.signature (omega arith, refl) h.3
              (Reads-field (codes "disposition") (disposition_codec) _ p.disposition
                (omega arith, refl) h.4
                (Reads-field (codes "membership_hash")
                  (fixed_codec "membership_hash" 32 (omega arith)) _ p.membership_hash
                  (omega arith, refl) h.5 (Reads-pure p))))))))

parses : Parses body (λ p bs. Valid p × (bs ≡ encode p))
unfolding body encode flat
parses = Parses-map 6 _ (
    Parses-field (codes "side") (fixed_codec "side" 32 (omega arith)) _ λ x0 h0.
      Parses-field (codes "verse") (fixed_codec "verse" 32 (omega arith)) _ λ x1 h1.
        Parses-field (codes "reason") (optional_text) _ λ x2 h2.
          Parses-field (codes "signature") (fixed_codec "signature" 64 (omega arith)) _ λ x3 h3.
            Parses-field (codes "disposition") (disposition_codec) _ λ x4 h4.
              Parses-field (codes "membership_hash")
                (fixed_codec "membership_hash" 32 (omega arith)) _
                λ x5 h5. Parses-pure _ ((h0, h1, h2, h3, h4, h5), sym (encode_map-flat _)))

abbrev codec : Codec VerseLeavePayload
codec = record { encode = encode; body = body; Valid = Valid; reads = reads; parses = parses }

module _ (c : Crypto) where
  unfoldable pub sign :
      c.SigningKey → Bytes → Bytes → Option Bytes → DataDisposition → VerseLeavePayload
  sign side_key verse membership_hash reason disposition =
      let unsigned : VerseLeavePayload = record {
        verse = verse;
        side = c.public_bytes side_key;
        membership_hash = membership_hash;
        reason = reason;
        disposition = disposition;
        signature = [];
      } in
      record unsigned { signature = c.sign side_key (c.blake3 (encode_unsigned unsigned)) }

  -- The signature by `side` of the digest of the other fields.
  abbrev pub Authentic : VerseLeavePayload → Type 0
  Authentic p = IsSigned c p.side (encode_unsigned p) p.signature

  abbrev check : VerseLeavePayload → Result Error (Unit {0})
  check p = check_signature c p.side (encode_unsigned p) p.signature

  unfoldable pub decode : Bytes → Result Error VerseLeavePayload
  decode bs =
      and_then (decode_prefix body bs)
        λ p. and_then (check_signature c p.side (encode_unsigned p) p.signature) λ _. ok p

  -- From bytes that fit the address space, the decoder gives `p` exactly if `p` can be encoded, the
  -- bytes begin with its encoding and its signature holds.
  pub verse_leave_iff :
      (bs : Bytes) (p : VerseLeavePayload)
      → IsBytes bs
      → length bs < usize_mod
      → (decode bs ≡ ok p) ↔ Valid p × ((junk : Bytes) × (bs ≡ encode p ++ junk)) × Authentic p
  unfolding decode
  verse_leave_iff bs p hb fits =
      let (f, g) = checked_prefix_iff codec check bs p hb fits in
      (
        λ e. let (v, s, k) = f e in (v, s, check_signature-eq-ok c p.side _ _ k),
        λ (v, s, k). g (v, s, check_signature-ok c p.side _ _ k),
      )

  -- What is signed of fields of the right widths is accepted with them.
  pub sign-verse_leave :
      IsSound c
      → (side_key : c.SigningKey) (p : VerseLeavePayload) → Valid p
      → length (encode (sign side_key p.verse p.membership_hash p.reason p.disposition)) < usize_mod
      → decode (encode (sign side_key p.verse p.membership_hash p.reason p.disposition))
        ≡ ok (sign side_key p.verse p.membership_hash p.reason p.disposition)
  unfolding decode sign encode_unsigned
  sign-verse_leave s side_key p h fits =
      let signed = sign-IsSigned c s side_key _ in
      checked_prefix-encode codec check _
        (s.key_array side_key, h.1, h.2, s.sign_array side_key _, h.4, h.5)
        (check_signature-ok c _ _ _ signed) fits
