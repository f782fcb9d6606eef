-- ===== src/Verse/MembershipToken.antt =====
-- `MembershipToken` of crates/sidevers-core/src/verse.rs.
use sidevers_protocol.Cbor.Array.{uint_codec, fixed_codec, IsU64}
use sidevers_protocol.Cbor.Codec.{decode_prefix, Codec}
use sidevers_protocol.Cbor.Field.{
  expect_count, expect_key, read_fixed, flat, encode_map-flat, IsArray,
}
use sidevers_protocol.Cbor.Reader.{◌>>=◌, ◌>>◌, usize_mod, Read, pure, read_u64}
use sidevers_protocol.Cbor.Reads.{Reads-pure, Parses-pure, Reads, Parses}
use sidevers_protocol.Cbor.Struct.{Reads-map, Parses-map, Reads-field, Parses-field}
use sidevers_protocol.Cbor.Utf8.{valid_utf8}
use sidevers_protocol.Cbor.Writer.{Bytes, uint, bytes, text, encode_map, MapEntry}
use sidevers_protocol.Common.{
  IsBytes, codes, ℕ, ◌<◌, ◌≡◌, refl, sym, ◌↔◌, List, [], ◌∷◌, ◌++◌, arith, length,
}
use sidevers_protocol.Crypto.{Crypto, IsSound}
use sidevers_protocol.Errors.{Error, Result, ok}
use sidevers_protocol.Signing.{
  and_then, check_signature, IsSigned, check_signature-ok, check_signature-eq-ok, sign-IsSigned,
  checked_prefix_iff, checked_prefix-encode,
}

pub record MembershipToken : Type 0 where
  pub verse : Bytes
  pub contract_hash : Bytes
  pub member_side : Bytes
  pub issued_at : ℕ
  pub signature : Bytes

abbrev pub unsigned_entries : MembershipToken → List MapEntry
unsigned_entries p =
    record { key = text (codes "verse"); value = bytes p.verse }
    ∷ record { key = text (codes "member"); value = bytes p.member_side }
    ∷ record { key = text (codes "issued_at"); value = uint p.issued_at }
    ∷ record { key = text (codes "contract_hash"); value = bytes p.contract_hash }
    ∷ []

abbrev pub entries : MembershipToken → List MapEntry
entries p =
    record { key = text (codes "verse"); value = bytes p.verse }
    ∷ record { key = text (codes "member"); value = bytes p.member_side }
    ∷ record { key = text (codes "issued_at"); value = uint p.issued_at }
    ∷ record { key = text (codes "signature"); value = bytes p.signature }
    ∷ record { key = text (codes "contract_hash"); value = bytes p.contract_hash }
    ∷ []

-- `encode_unsigned` does not look at the signature.
unfoldable pub encode_unsigned : MembershipToken → Bytes
encode_unsigned p = encode_map (unsigned_entries p)

unfoldable pub to_wire_bytes : MembershipToken → Bytes
to_wire_bytes p = encode_map (entries p)

unfoldable pub body : Read MembershipToken
body = do
  expect_count 5
  expect_key (codes "verse")
  verse ← read_fixed "verse" 32
  expect_key (codes "member")
  member_side ← read_fixed "member" 32
  expect_key (codes "issued_at")
  issued_at ← read_u64
  expect_key (codes "signature")
  signature ← read_fixed "signature" 64
  expect_key (codes "contract_hash")
  contract_hash ← read_fixed "contract_hash" 32
  pure (record {
    verse = verse;
    contract_hash = contract_hash;
    member_side = member_side;
    issued_at = issued_at;
    signature = signature;
  })

abbrev pub Valid : MembershipToken → Type 0
Valid p =
    IsArray 32 p.verse
    × IsArray 32 p.member_side
    × IsU64 p.issued_at
    × IsArray 64 p.signature
    × IsArray 32 p.contract_hash

reads : (p : MembershipToken) → Valid p → Reads body (to_wire_bytes p) p
unfolding body to_wire_bytes flat valid_utf8
reads p h = rw (encode_map-flat (entries p)) (
    Reads-map 5 _ (omega arith) (
      Reads-field (codes "verse") (fixed_codec "verse" 32 (omega arith)) _ p.verse
        (omega arith, refl) h.0
        (Reads-field (codes "member") (fixed_codec "member" 32 (omega arith)) _ p.member_side
          (omega arith, refl) h.1
          (Reads-field (codes "issued_at") (uint_codec) _ p.issued_at (omega arith, refl) h.2
            (Reads-field (codes "signature") (fixed_codec "signature" 64 (omega arith)) _
              p.signature (omega arith, refl) h.3
              (Reads-field (codes "contract_hash") (fixed_codec "contract_hash" 32 (omega arith)) _
                p.contract_hash (omega arith, refl) h.4 (Reads-pure p)))))))

parses : Parses body (λ p bs. Valid p × (bs ≡ to_wire_bytes p))
unfolding body to_wire_bytes flat
parses = Parses-map 5 _ (
    Parses-field (codes "verse") (fixed_codec "verse" 32 (omega arith)) _ λ x0 h0.
      Parses-field (codes "member") (fixed_codec "member" 32 (omega arith)) _ λ x1 h1.
        Parses-field (codes "issued_at") (uint_codec) _ λ x2 h2.
          Parses-field (codes "signature") (fixed_codec "signature" 64 (omega arith)) _ λ x3 h3.
            Parses-field (codes "contract_hash") (fixed_codec "contract_hash" 32 (omega arith)) _
              λ x4 h4. Parses-pure _ ((h0, h1, h2, h3, h4), sym (encode_map-flat _)))

abbrev codec : Codec MembershipToken
codec = record {
  encode = to_wire_bytes;
  body = body;
  Valid = Valid;
  reads = reads;
  parses = parses;
}

module _ (c : Crypto) where
  unfoldable pub sign : c.SigningKey → Bytes → Bytes → ℕ → MembershipToken
  sign verse_key contract_hash member_side issued_at =
      let unsigned : MembershipToken = record {
        verse = c.public_bytes verse_key;
        contract_hash = contract_hash;
        member_side = member_side;
        issued_at = issued_at;
        signature = [];
      } in
      record unsigned { signature = c.sign verse_key (c.blake3 (encode_unsigned unsigned)) }

  -- The signature by `verse` of the digest of the other fields.
  abbrev pub Authentic : MembershipToken → Type 0
  Authentic p = IsSigned c p.verse (encode_unsigned p) p.signature

  abbrev check : MembershipToken → Result Error (Unit {0})
  check p = check_signature c p.verse (encode_unsigned p) p.signature

  unfoldable pub from_wire_bytes : Bytes → Result Error MembershipToken
  from_wire_bytes bs =
      and_then (decode_prefix body bs)
        λ p. and_then (check_signature c p.verse (encode_unsigned p) p.signature) λ _. ok p

  -- From bytes that fit the address space, the decoder gives `p` exactly if `p` can be encoded, the
  -- bytes begin with its encoding and its signature holds.
  pub membership_token_iff :
      (bs : Bytes) (p : MembershipToken)
      → IsBytes bs
      → length bs < usize_mod
      → (from_wire_bytes bs ≡ ok p)
        ↔ Valid p × ((junk : Bytes) × (bs ≡ to_wire_bytes p ++ junk)) × Authentic p
  unfolding from_wire_bytes
  membership_token_iff bs p hb fits =
      let (f, g) = checked_prefix_iff codec check bs p hb fits in
      (
        λ e. let (v, s, k) = f e in (v, s, check_signature-eq-ok c p.verse _ _ k),
        λ (v, s, k). g (v, s, check_signature-ok c p.verse _ _ k),
      )

  -- What is signed of fields of the right widths is accepted with them.
  pub sign-membership_token :
      IsSound c
      → (verse_key : c.SigningKey) (p : MembershipToken) → Valid p
      → length (to_wire_bytes (sign verse_key p.contract_hash p.member_side p.issued_at))
        < usize_mod
      → from_wire_bytes (to_wire_bytes (sign verse_key p.contract_hash p.member_side p.issued_at))
        ≡ ok (sign verse_key p.contract_hash p.member_side p.issued_at)
  unfolding from_wire_bytes sign encode_unsigned
  sign-membership_token s verse_key p h fits =
      let signed = sign-IsSigned c s verse_key _ in
      checked_prefix-encode codec check _
        (s.key_array verse_key, h.1, h.2, s.sign_array verse_key _, h.4)
        (check_signature-ok c _ _ _ signed) fits
