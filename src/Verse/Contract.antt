-- ===== src/Verse/Contract.antt =====
-- `ContractObject` of crates/sidevers-core/src/verse.rs.
use sidevers_protocol.Cbor.Array.{
  array, IsText, text_codec, uint_codec, fixed_codec, IsArrays, IsU64, IsTexts,
}
use sidevers_protocol.Cbor.Codec.{decode_prefix, Codec}
use sidevers_protocol.Cbor.Field.{
  expect_count, expect_key, read_fixed, read_array, encode_array, flat, encode_map-flat, IsArray,
}
use sidevers_protocol.Cbor.Reader.{◌>>=◌, ◌>>◌, usize_mod, Read, pure, read_u64, read_text}
use sidevers_protocol.Cbor.Reads.{Reads-pure, Parses-pure, Reads, Parses}
use sidevers_protocol.Cbor.Struct.{Reads-map, Parses-map, Reads-field, Parses-field}
use sidevers_protocol.Cbor.Utf8.{valid_utf8}
use sidevers_protocol.Cbor.Writer.{Bytes, uint, bytes, text, encode_map, MapEntry}
use sidevers_protocol.Common.{
  IsBytes, codes, ℕ, ◌<◌, ◌≡◌, refl, sym, ◌↔◌, List, [], ◌∷◌, arith, length,
}
use sidevers_protocol.Crypto.{Crypto, IsSound}
use sidevers_protocol.Errors.{Error, Result, ok}
use sidevers_protocol.Signing.{
  and_then, check_signature, IsSigned, check_signature-ok, check_signature-eq-ok, sign-IsSigned,
  check_reencoded, checked_reencoded_iff, checked_reencoded-encode,
}
use sidevers_protocol.Verse.{FieldSpec, PolicyClause, ContractObject}
use sidevers_protocol.Verse.Fields.{AreFields}
use sidevers_protocol.Verse.Policies.{ArePolicies}
use sidevers_protocol.Verse.Fields
use sidevers_protocol.Verse.Policies

abbrev pub unsigned_entries : ContractObject → List MapEntry
unsigned_entries p =
    record { key = text (codes "title"); value = text p.title }
    ∷ record { key = text (codes "verse"); value = bytes p.verse }
    ∷ record { key = text (codes "scoped"); value = encode_array text p.scoped }
    ∷ record { key = text (codes "version"); value = uint p.version }
    ∷ record { key = text (codes "optional"); value = encode_array Fields.encode p.optional }
    ∷ record { key = text (codes "policies"); value = encode_array Policies.encode p.policies }
    ∷ record { key = text (codes "required"); value = encode_array Fields.encode p.required }
    ∷ record { key = text (codes "forbidden"); value = encode_array text p.forbidden }
    ∷ record { key = text (codes "issued_at"); value = uint p.issued_at }
    ∷ record { key = text (codes "moderators"); value = encode_array bytes p.moderators }
    ∷ record { key = text (codes "description"); value = text p.description }
    ∷ []

abbrev pub entries : ContractObject → List MapEntry
entries p =
    record { key = text (codes "title"); value = text p.title }
    ∷ record { key = text (codes "verse"); value = bytes p.verse }
    ∷ record { key = text (codes "scoped"); value = encode_array text p.scoped }
    ∷ record { key = text (codes "version"); value = uint p.version }
    ∷ record { key = text (codes "optional"); value = encode_array Fields.encode p.optional }
    ∷ record { key = text (codes "policies"); value = encode_array Policies.encode p.policies }
    ∷ record { key = text (codes "required"); value = encode_array Fields.encode p.required }
    ∷ record { key = text (codes "forbidden"); value = encode_array text p.forbidden }
    ∷ record { key = text (codes "issued_at"); value = uint p.issued_at }
    ∷ record { key = text (codes "signature"); value = bytes p.signature }
    ∷ record { key = text (codes "moderators"); value = encode_array bytes p.moderators }
    ∷ record { key = text (codes "description"); value = text p.description }
    ∷ []

-- `encode_unsigned` does not look at the signature.
unfoldable pub encode_unsigned : ContractObject → Bytes
encode_unsigned p = encode_map (unsigned_entries p)

unfoldable pub to_wire_bytes : ContractObject → Bytes
to_wire_bytes p = encode_map (entries p)

unfoldable pub body : Read ContractObject
body = do
  expect_count 12
  expect_key (codes "title")
  title ← read_text
  expect_key (codes "verse")
  verse ← read_fixed "verse" 32
  expect_key (codes "scoped")
  scoped ← read_array read_text
  expect_key (codes "version")
  version ← read_u64
  expect_key (codes "optional")
  optional ← read_array Fields.body
  expect_key (codes "policies")
  policies ← read_array Policies.body
  expect_key (codes "required")
  required ← read_array Fields.body
  expect_key (codes "forbidden")
  forbidden ← read_array read_text
  expect_key (codes "issued_at")
  issued_at ← read_u64
  expect_key (codes "signature")
  signature ← read_fixed "signature" 64
  expect_key (codes "moderators")
  moderators ← read_array (read_fixed "moderator" 32)
  expect_key (codes "description")
  description ← read_text
  pure (record {
    verse = verse;
    version = version;
    title = title;
    description = description;
    required = required;
    optional = optional;
    forbidden = forbidden;
    scoped = scoped;
    policies = policies;
    moderators = moderators;
    issued_at = issued_at;
    signature = signature;
  })

abbrev pub Valid : ContractObject → Type 0
Valid p =
    IsText p.title
    × IsArray 32 p.verse
    × IsTexts p.scoped
    × IsU64 p.version
    × AreFields p.optional
    × ArePolicies p.policies
    × AreFields p.required
    × IsTexts p.forbidden
    × IsU64 p.issued_at
    × IsArray 64 p.signature
    × IsArrays p.moderators
    × IsText p.description

pub reads : (p : ContractObject) → Valid p → Reads body (to_wire_bytes p) p
unfolding body to_wire_bytes flat valid_utf8
reads p h = rw (encode_map-flat (entries p)) (
    Reads-map 12 _ (omega arith) (
      Reads-field (codes "title") (text_codec) _ p.title (omega arith, refl) h.0
        (Reads-field (codes "verse") (fixed_codec "verse" 32 (omega arith)) _ p.verse
          (omega arith, refl) h.1
          (Reads-field (codes "scoped") (array text_codec) _ p.scoped (omega arith, refl) h.2
            (Reads-field (codes "version") (uint_codec) _ p.version (omega arith, refl) h.3
              (Reads-field (codes "optional") (array Fields.codec) _ p.optional (omega arith, refl)
                h.4
                (Reads-field (codes "policies") (array Policies.codec) _ p.policies
                  (omega arith, refl) h.5
                  (Reads-field (codes "required") (array Fields.codec) _ p.required
                    (omega arith, refl) h.6
                    (Reads-field (codes "forbidden") (array text_codec) _ p.forbidden
                      (omega arith, refl) h.7
                      (Reads-field (codes "issued_at") (uint_codec) _ p.issued_at
                        (omega arith, refl) h.8
                        (Reads-field (codes "signature") (fixed_codec "signature" 64 (omega arith))
                          _ p.signature (omega arith, refl) h.9
                          (Reads-field (codes "moderators")
                            (array (fixed_codec "moderator" 32 (omega arith))) _ p.moderators
                            (omega arith, refl) h.10
                            (Reads-field (codes "description") (text_codec) _ p.description
                              (omega arith, refl) h.11 (Reads-pure p))))))))))))))

pub parses : Parses body (λ p bs. Valid p × (bs ≡ to_wire_bytes p))
unfolding body to_wire_bytes flat
parses = Parses-map 12 _ (
    Parses-field (codes "title") (text_codec) _ λ x0 h0.
      Parses-field (codes "verse") (fixed_codec "verse" 32 (omega arith)) _ λ x1 h1.
        Parses-field (codes "scoped") (array text_codec) _ λ x2 h2.
          Parses-field (codes "version") (uint_codec) _ λ x3 h3.
            Parses-field (codes "optional") (array Fields.codec) _ λ x4 h4.
              Parses-field (codes "policies") (array Policies.codec) _ λ x5 h5.
                Parses-field (codes "required") (array Fields.codec) _ λ x6 h6.
                  Parses-field (codes "forbidden") (array text_codec) _ λ x7 h7.
                    Parses-field (codes "issued_at") (uint_codec) _ λ x8 h8.
                      Parses-field (codes "signature") (fixed_codec "signature" 64 (omega arith)) _
                        λ x9 h9.
                          Parses-field (codes "moderators")
                            (array (fixed_codec "moderator" 32 (omega arith))) _
                            λ x10 h10. Parses-field (codes "description") (text_codec) _ λ x11 h11.
                              Parses-pure _ (
                                (h0, h1, h2, h3, h4, h5, h6, h7, h8, h9, h10, h11),
                                sym (encode_map-flat _),
                              ))

abbrev pub codec : Codec ContractObject
codec = record {
  encode = to_wire_bytes;
  body = body;
  Valid = Valid;
  reads = reads;
  parses = parses;
}

module _ (c : Crypto) where
  unfoldable pub sign :
      c.SigningKey
      → ℕ
      → Bytes
      → Bytes
      → List FieldSpec
      → List FieldSpec
      → List Bytes
      → List Bytes
      → List PolicyClause
      → List Bytes
      → ℕ
      → ContractObject
  sign verse_key version title description required optional forbidden scoped policies moderators
        issued_at =
      let unsigned : ContractObject = record {
        verse = c.public_bytes verse_key;
        version = version;
        title = title;
        description = description;
        required = required;
        optional = optional;
        forbidden = forbidden;
        scoped = scoped;
        policies = policies;
        moderators = moderators;
        issued_at = issued_at;
        signature = [];
      } in
      record unsigned { signature = c.sign verse_key (c.blake3 (encode_unsigned unsigned)) }

  -- The signature by `verse` of the digest of the other fields.
  abbrev pub Authentic : ContractObject → Type 0
  Authentic p = IsSigned c p.verse (encode_unsigned p) p.signature

  abbrev check : ContractObject → Result Error (Unit {0})
  check p = check_signature c p.verse (encode_unsigned p) p.signature

  unfoldable pub from_wire_bytes : Bytes → Result Error ContractObject
  from_wire_bytes bs = and_then (decode_prefix body bs) λ p.
      and_then (check_signature c p.verse (encode_unsigned p) p.signature)
        λ _. and_then (check_reencoded (to_wire_bytes p) bs) λ _. ok p

  -- From bytes that fit the address space, the decoder gives `p` exactly if `p` can be encoded, the
  -- bytes are its encoding and its signature holds.
  pub contract_iff :
      (bs : Bytes) (p : ContractObject)
      → IsBytes bs
      → length bs < usize_mod
      → (from_wire_bytes bs ≡ ok p) ↔ Valid p × (bs ≡ to_wire_bytes p) × Authentic p
  unfolding from_wire_bytes
  contract_iff bs p hb fits =
      let (f, g) = checked_reencoded_iff codec check bs p hb fits in
      (
        λ e. let (v, s, k) = f e in (v, s, check_signature-eq-ok c p.verse _ _ k),
        λ (v, s, k). g (v, s, check_signature-ok c p.verse _ _ k),
      )

  -- What is signed of fields of the right widths is accepted with them.
  pub sign-contract :
      IsSound c
      → (verse_key : c.SigningKey) (p : ContractObject) → Valid p
      → length (
          to_wire_bytes (
            sign verse_key p.version p.title p.description p.required p.optional p.forbidden
              p.scoped p.policies p.moderators p.issued_at))
        < usize_mod
      → from_wire_bytes (
          to_wire_bytes (
            sign verse_key p.version p.title p.description p.required p.optional p.forbidden
              p.scoped p.policies p.moderators p.issued_at))
        ≡ ok (
            sign verse_key p.version p.title p.description p.required p.optional p.forbidden
              p.scoped p.policies p.moderators p.issued_at)
  unfolding from_wire_bytes sign encode_unsigned
  sign-contract s verse_key p h fits =
      let signed = sign-IsSigned c s verse_key _ in
      checked_reencoded-encode codec check _
        (
          h.0,
          s.key_array verse_key,
          h.2,
          h.3,
          h.4,
          h.5,
          h.6,
          h.7,
          h.8,
          s.sign_array verse_key _,
          h.10,
          h.11,
        )
        (check_signature-ok c _ _ _ signed) fits
