-- ===== src/Linkage.antt =====
-- `LinkageProof` of crates/sidevers-core/src/linkage.rs.
use sidevers_protocol.Cbor.Array.{uint_codec, fixed_codec, IsU64}
use sidevers_protocol.Cbor.Codec.{decode_whole, Codec}
use sidevers_protocol.Cbor.Field.{
  expect_count, expect_key, read_fixed, flat, encode_map-flat, IsArray,
}
use sidevers_protocol.Cbor.Reader.{◌>>=◌, ◌>>◌, usize_mod, Read, pure, read_u64}
use sidevers_protocol.Cbor.Reads.{Reads-pure, Parses-pure, Reads, Parses}
use sidevers_protocol.Cbor.Struct.{Reads-map, Parses-map, Reads-field, Parses-field}
use sidevers_protocol.Cbor.Utf8.{valid_utf8}
use sidevers_protocol.Cbor.Writer.{Bytes, key, uint, bytes, text, encode_map, MapEntry}
use sidevers_protocol.Common.{
  IsBytes, codes, ℕ, ◌<◌, ◌≡◌, refl, sym, ◌↔◌, List, [], ◌∷◌, arith, length,
}
use sidevers_protocol.Crypto.{Crypto, IsSound}
use sidevers_protocol.Errors.{Error, Result, ok, bind-eq-ok}
use sidevers_protocol.Signing.{
  and_then, check_signature, IsSigned, check_signature-ok, check_signature-eq-ok, sign-IsSigned,
  check_reencoded, checked_whole_iff, checked_whole-encode,
}

pub record LinkageProof : Type 0 where
  pub side_a : Bytes
  pub side_b : Bytes
  pub issued_at : ℕ
  pub nonce : Bytes
  pub sig_a : Bytes
  pub sig_b : Bytes

abbrev pub unsigned_entries : LinkageProof → List MapEntry
unsigned_entries p =
    record { key = key (codes "nonce"); value = bytes p.nonce }
    ∷ record { key = key (codes "side_a"); value = bytes p.side_a }
    ∷ record { key = key (codes "side_b"); value = bytes p.side_b }
    ∷ record { key = key (codes "issued_at"); value = uint p.issued_at }
    ∷ []

abbrev pub entries : LinkageProof → List MapEntry
entries p =
    record { key = key (codes "nonce"); value = bytes p.nonce }
    ∷ record { key = key (codes "sig_a"); value = bytes p.sig_a }
    ∷ record { key = key (codes "sig_b"); value = bytes p.sig_b }
    ∷ record { key = key (codes "side_a"); value = bytes p.side_a }
    ∷ record { key = key (codes "side_b"); value = bytes p.side_b }
    ∷ record { key = key (codes "issued_at"); value = uint p.issued_at }
    ∷ []

-- `encode_unsigned` does not look at the signature.
unfoldable pub encode_unsigned : LinkageProof → Bytes
encode_unsigned p = encode_map (unsigned_entries p)

unfoldable pub to_wire_bytes : LinkageProof → Bytes
to_wire_bytes p = encode_map (entries p)

unfoldable pub body : Read LinkageProof
body = do
  expect_count 6
  expect_key (codes "nonce")
  nonce ← read_fixed "nonce" 16
  expect_key (codes "sig_a")
  sig_a ← read_fixed "sig_a" 64
  expect_key (codes "sig_b")
  sig_b ← read_fixed "sig_b" 64
  expect_key (codes "side_a")
  side_a ← read_fixed "side_a" 32
  expect_key (codes "side_b")
  side_b ← read_fixed "side_b" 32
  expect_key (codes "issued_at")
  issued_at ← read_u64
  pure (record {
    side_a = side_a;
    side_b = side_b;
    issued_at = issued_at;
    nonce = nonce;
    sig_a = sig_a;
    sig_b = sig_b;
  })

abbrev pub Valid : LinkageProof → Type 0
Valid p =
    IsArray 16 p.nonce
    × IsArray 64 p.sig_a
    × IsArray 64 p.sig_b
    × IsArray 32 p.side_a
    × IsArray 32 p.side_b
    × IsU64 p.issued_at

reads : (p : LinkageProof) → Valid p → Reads body (to_wire_bytes p) p
unfolding body to_wire_bytes flat key text valid_utf8
reads p h = rw (encode_map-flat (entries p)) (
    Reads-map 6 _ (omega arith) (
      Reads-field (codes "nonce") (fixed_codec "nonce" 16 (omega arith)) _ p.nonce
        (omega arith, refl) h.0
        (Reads-field (codes "sig_a") (fixed_codec "sig_a" 64 (omega arith)) _ p.sig_a
          (omega arith, refl) h.1
          (Reads-field (codes "sig_b") (fixed_codec "sig_b" 64 (omega arith)) _ p.sig_b
            (omega arith, refl) h.2
            (Reads-field (codes "side_a") (fixed_codec "side_a" 32 (omega arith)) _ p.side_a
              (omega arith, refl) h.3
              (Reads-field (codes "side_b") (fixed_codec "side_b" 32 (omega arith)) _ p.side_b
                (omega arith, refl) h.4
                (Reads-field (codes "issued_at") (uint_codec) _ p.issued_at (omega arith, refl) h.5
                  (Reads-pure p))))))))

parses : Parses body (λ p bs. Valid p × (bs ≡ to_wire_bytes p))
unfolding body to_wire_bytes flat key text
parses = Parses-map 6 _ (
    Parses-field (codes "nonce") (fixed_codec "nonce" 16 (omega arith)) _ λ x0 h0.
      Parses-field (codes "sig_a") (fixed_codec "sig_a" 64 (omega arith)) _ λ x1 h1.
        Parses-field (codes "sig_b") (fixed_codec "sig_b" 64 (omega arith)) _ λ x2 h2.
          Parses-field (codes "side_a") (fixed_codec "side_a" 32 (omega arith)) _ λ x3 h3.
            Parses-field (codes "side_b") (fixed_codec "side_b" 32 (omega arith)) _ λ x4 h4.
              Parses-field (codes "issued_at") (uint_codec) _
                λ x5 h5. Parses-pure _ ((h0, h1, h2, h3, h4, h5), sym (encode_map-flat _)))

abbrev codec : Codec LinkageProof
codec = record {
  encode = to_wire_bytes;
  body = body;
  Valid = Valid;
  reads = reads;
  parses = parses;
}

module _ (c : Crypto) where
  -- `sign` takes the nonce from the operating system.
  unfoldable pub sign_with : c.SigningKey → c.SigningKey → ℕ → Bytes → LinkageProof
  sign_with key_a key_b issued_at nonce =
      let unsigned : LinkageProof = record {
        side_a = c.public_bytes key_a;
        side_b = c.public_bytes key_b;
        issued_at = issued_at;
        nonce = nonce;
        sig_a = [];
        sig_b = [];
      } in
      record unsigned {
        sig_a = c.sign key_a (c.blake3 (encode_unsigned unsigned));
        sig_b = c.sign key_b (c.blake3 (encode_unsigned unsigned));
      }

  -- Both sides' signatures of the digest of the other fields.
  unfoldable pub check_both : LinkageProof → Result Error (Unit {0})
  check_both p =
      and_then (check_signature c p.side_a (encode_unsigned p) p.sig_a)
        λ _. check_signature c p.side_b (encode_unsigned p) p.sig_b

  unfoldable pub from_wire_bytes : Bytes → Result Error LinkageProof
  from_wire_bytes bs =
      and_then (decode_whole body bs)
        λ p. and_then (check_both p) λ _. and_then (check_reencoded (to_wire_bytes p) bs) λ _. ok p

  abbrev pub Authentic : LinkageProof → Type 0
  Authentic p =
      IsSigned c p.side_a (encode_unsigned p) p.sig_a
      × IsSigned c p.side_b (encode_unsigned p) p.sig_b

  check_both-ok : (p : LinkageProof) → Authentic p → check_both p ≡ ok tt
  unfolding check_both
  check_both-ok p h =
      rw (check_signature-ok c p.side_a _ _ h.0) (check_signature-ok c p.side_b _ _ h.1)

  check_both-eq-ok : (p : LinkageProof) → check_both p ≡ ok tt → Authentic p
  unfolding check_both
  check_both-eq-ok p h =
      let (u, h₁, h₂) = bind-eq-ok (check_signature c p.side_a (encode_unsigned p) p.sig_a) _ h in
      (check_signature-eq-ok c p.side_a _ _ h₁, check_signature-eq-ok c p.side_b _ _ h₂)

  -- From bytes that fit the address space, the decoder gives `p` exactly if `p` can be encoded, the
  -- bytes are its encoding and both signatures hold.
  pub linkage_iff :
      (bs : Bytes) (p : LinkageProof)
      → IsBytes bs
      → length bs < usize_mod
      → (from_wire_bytes bs ≡ ok p) ↔ Valid p × (bs ≡ to_wire_bytes p) × Authentic p
  unfolding from_wire_bytes
  linkage_iff bs p hb fits =
      let (f, g) = checked_whole_iff codec check_both bs p hb fits in
      (
        λ e. let (v, s, k) = f e in (v, s, check_both-eq-ok p k),
        λ (v, s, k). g (v, s, check_both-ok p k),
      )

  -- What two sides sign of fields of the right widths is accepted with them.
  pub sign-linkage :
      IsSound c
      → (key_a key_b : c.SigningKey) (p : LinkageProof) → Valid p
      → length (to_wire_bytes (sign_with key_a key_b p.issued_at p.nonce)) < usize_mod
      → from_wire_bytes (to_wire_bytes (sign_with key_a key_b p.issued_at p.nonce))
        ≡ ok (sign_with key_a key_b p.issued_at p.nonce)
  unfolding from_wire_bytes sign_with encode_unsigned
  sign-linkage s key_a key_b p h fits =
      let signed_a = sign-IsSigned c s key_a _ in
      let signed_b = sign-IsSigned c s key_b _ in
      checked_whole-encode codec check_both _
        (h.0, s.sign_array key_a _, s.sign_array key_b _, s.key_array key_a, s.key_array key_b, h.5)
        (check_both-ok _ (signed_a, signed_b)) fits
