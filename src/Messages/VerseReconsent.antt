-- ===== src/Messages/VerseReconsent.antt =====
-- `VerseReconsentPayload` of crates/sidevers-core/src/messages/verse.rs.
use sidevers_protocol.Cbor.Array.{fixed_codec}
use sidevers_protocol.Cbor.Codec.{decode_prefix, Codec}
use sidevers_protocol.Cbor.Field.{
  expect_count, expect_key, read_fixed, flat, encode_map-flat, IsArray,
}
use sidevers_protocol.Cbor.Reader.{◌>>=◌, ◌>>◌, usize_mod, Read, pure}
use sidevers_protocol.Cbor.Reads.{Reads-pure, Parses-pure, Reads, Parses}
use sidevers_protocol.Cbor.Struct.{Reads-map, Parses-map, Reads-field, Parses-field}
use sidevers_protocol.Cbor.Utf8.{valid_utf8}
use sidevers_protocol.Cbor.Writer.{Bytes, bytes, text, encode_map, MapEntry}
use sidevers_protocol.Common.{
  IsBytes, codes, ◌<◌, ◌≡◌, refl, sym, ◌↔◌, List, [], ◌∷◌, ◌++◌, arith, length,
}
use sidevers_protocol.Crypto.{Crypto, IsSound}
use sidevers_protocol.Errors.{Error, Result, ok}
use sidevers_protocol.Signing.{
  and_then, check_signature, IsSigned, check_signature-ok, check_signature-eq-ok, sign-IsSigned,
  checked_prefix_iff, checked_prefix-encode,
}

pub record VerseReconsentPayload : Type 0 where
  pub contract_hash : Bytes
  pub signature : Bytes

abbrev pub unsigned_entries : VerseReconsentPayload → List MapEntry
unsigned_entries p =
    record { key = text (codes "contract_hash"); value = bytes p.contract_hash } ∷ []

abbrev pub entries : VerseReconsentPayload → List MapEntry
entries p =
    record { key = text (codes "signature"); value = bytes p.signature }
    ∷ record { key = text (codes "contract_hash"); value = bytes p.contract_hash }
    ∷ []

-- `encode_unsigned` does not look at the signature.
unfoldable pub encode_unsigned : VerseReconsentPayload → Bytes
encode_unsigned p = encode_map (unsigned_entries p)

unfoldable pub encode : VerseReconsentPayload → Bytes
encode p = encode_map (entries p)

unfoldable pub body : Read VerseReconsentPayload
body = do
  expect_count 2
  expect_key (codes "signature")
  signature ← read_fixed "signature" 64
  expect_key (codes "contract_hash")
  contract_hash ← read_fixed "contract_hash" 32
  pure (record { contract_hash = contract_hash; signature = signature })

abbrev pub Valid : VerseReconsentPayload → Type 0
Valid p = IsArray 64 p.signature × IsArray 32 p.contract_hash

reads : (p : VerseReconsentPayload) → Valid p → Reads body (encode p) p
unfolding body encode flat valid_utf8
reads p h = rw (encode_map-flat (entries p)) (
    Reads-map 2 _ (omega arith) (
      Reads-field (codes "signature") (fixed_codec "signature" 64 (omega arith)) _ p.signature
        (omega arith, refl) h.0
        (Reads-field (codes "contract_hash") (fixed_codec "contract_hash" 32 (omega arith)) _
          p.contract_hash (omega arith, refl) h.1 (Reads-pure p))))

parses : Parses body (λ p bs. Valid p × (bs ≡ encode p))
unfolding body encode flat
parses = Parses-map 2 _ (
    Parses-field (codes "signature") (fixed_codec "signature" 64 (omega arith)) _ λ x0 h0.
      Parses-field (codes "contract_hash") (fixed_codec "contract_hash" 32 (omega arith)) _
        λ x1 h1. Parses-pure _ ((h0, h1), sym (encode_map-flat _)))

abbrev codec : Codec VerseReconsentPayload
codec = record { encode = encode; body = body; Valid = Valid; reads = reads; parses = parses }

module _ (c : Crypto) where
  unfoldable pub sign : c.SigningKey → Bytes → VerseReconsentPayload
  sign side_key contract_hash =
      let unsigned : VerseReconsentPayload = record {
        contract_hash = contract_hash;
        signature = [];
      } in
      record unsigned { signature = c.sign side_key (c.blake3 (encode_unsigned unsigned)) }

  -- The signature by `side_pubkey` of the digest of the other fields.
  abbrev pub Authentic : Bytes → VerseReconsentPayload → Type 0
  Authentic side_pubkey p = IsSigned c side_pubkey (encode_unsigned p) p.signature

  abbrev check : Bytes → VerseReconsentPayload → Result Error (Unit {0})
  check side_pubkey p = check_signature c side_pubkey (encode_unsigned p) p.signature

  unfoldable pub decode_and_verify : Bytes → Bytes → Result Error VerseReconsentPayload
  decode_and_verify bs side_pubkey =
      and_then (decode_prefix body bs)
        λ p. and_then (check_signature c side_pubkey (encode_unsigned p) p.signature) λ _. ok p

  -- From bytes that fit the address space, the decoder gives `p` exactly if `p` can be encoded, the
  -- bytes begin with its encoding and its signature holds.
  pub verse_reconsent_iff :
      (side_pubkey : Bytes) (bs : Bytes) (p : VerseReconsentPayload)
      → IsBytes bs
      → length bs < usize_mod
      → (decode_and_verify bs side_pubkey ≡ ok p)
        ↔ Valid p × ((junk : Bytes) × (bs ≡ encode p ++ junk)) × Authentic side_pubkey p
  unfolding decode_and_verify
  verse_reconsent_iff side_pubkey bs p hb fits =
      let (f, g) = checked_prefix_iff codec (check side_pubkey) bs p hb fits in
      (
        λ e. let (v, s, k) = f e in (v, s, check_signature-eq-ok c side_pubkey _ _ k),
        λ (v, s, k). g (v, s, check_signature-ok c side_pubkey _ _ k),
      )

  -- What is signed of fields of the right widths is accepted with them.
  pub sign-verse_reconsent :
      IsSound c
      → (side_key : c.SigningKey) (p : VerseReconsentPayload) → Valid p
      → length (encode (sign side_key p.contract_hash)) < usize_mod
      → decode_and_verify (encode (sign side_key p.contract_hash)) (c.public_bytes side_key)
        ≡ ok (sign side_key p.contract_hash)
  unfolding decode_and_verify sign encode_unsigned
  sign-verse_reconsent s side_key p h fits =
      let signed = sign-IsSigned c s side_key _ in
      checked_prefix-encode codec (check (c.public_bytes side_key)) _ (s.sign_array side_key _, h.1)
        (check_signature-ok c _ _ _ signed) fits
