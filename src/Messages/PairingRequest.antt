-- ===== src/Messages/PairingRequest.antt =====
-- `PairingRequestPayload` of crates/sidevers-core/src/messages/device.rs.
use sidevers_protocol.Cbor.Array.{fixed_codec}
use sidevers_protocol.Cbor.Codec.{decode_whole, Codec}
use sidevers_protocol.Cbor.Field.{
  expect_count, expect_key, read_fixed, flat, encode_map-flat, IsArray,
}
use sidevers_protocol.Cbor.Reader.{◌>>=◌, ◌>>◌, usize_mod, Read, pure}
use sidevers_protocol.Cbor.Reads.{Reads-pure, Parses-pure, Reads, Parses}
use sidevers_protocol.Cbor.Struct.{Reads-map, Parses-map, Reads-field, Parses-field}
use sidevers_protocol.Cbor.Utf8.{valid_utf8}
use sidevers_protocol.Cbor.Writer.{Bytes, key, bytes, text, encode_map, MapEntry}
use sidevers_protocol.Common.{
  IsBytes, codes, ◌<◌, ◌≡◌, refl, sym, ◌↔◌, List, [], ◌∷◌, arith, length,
}
use sidevers_protocol.Crypto.{Crypto, IsSound}
use sidevers_protocol.Errors.{Error, Result, ok}
use sidevers_protocol.Signing.{
  and_then, check_signature, IsSigned, check_signature-ok, check_signature-eq-ok, sign-IsSigned,
  check_reencoded, checked_whole_iff, checked_whole-encode,
}

pub record PairingRequestPayload : Type 0 where
  pub side : Bytes
  pub device_pubkey : Bytes
  pub device_x25519_pubkey : Bytes
  pub nonce : Bytes
  pub signature : Bytes

abbrev pub unsigned_entries : PairingRequestPayload → List MapEntry
unsigned_entries p =
    record { key = key (codes "side"); value = bytes p.side }
    ∷ record { key = key (codes "nonce"); value = bytes p.nonce }
    ∷ record { key = key (codes "device_pubkey"); value = bytes p.device_pubkey }
    ∷ record { key = key (codes "device_x25519_pubkey"); value = bytes p.device_x25519_pubkey }
    ∷ []

abbrev pub entries : PairingRequestPayload → List MapEntry
entries p =
    record { key = key (codes "side"); value = bytes p.side }
    ∷ record { key = key (codes "nonce"); value = bytes p.nonce }
    ∷ record { key = key (codes "signature"); value = bytes p.signature }
    ∷ record { key = key (codes "device_pubkey"); value = bytes p.device_pubkey }
    ∷ record { key = key (codes "device_x25519_pubkey"); value = bytes p.device_x25519_pubkey }
    ∷ []

-- `encode_unsigned` does not look at the signature.
unfoldable pub encode_unsigned : PairingRequestPayload → Bytes
encode_unsigned p = encode_map (unsigned_entries p)

unfoldable pub to_wire_bytes : PairingRequestPayload → Bytes
to_wire_bytes p = encode_map (entries p)

unfoldable pub body : Read PairingRequestPayload
body = do
  expect_count 5
  expect_key (codes "side")
  side ← read_fixed "side" 32
  expect_key (codes "nonce")
  nonce ← read_fixed "nonce" 16
  expect_key (codes "signature")
  signature ← read_fixed "signature" 64
  expect_key (codes "device_pubkey")
  device_pubkey ← read_fixed "device_pubkey" 32
  expect_key (codes "device_x25519_pubkey")
  device_x25519_pubkey ← read_fixed "device_x25519_pubkey" 32
  pure (record {
    side = side;
    device_pubkey = device_pubkey;
    device_x25519_pubkey = device_x25519_pubkey;
    nonce = nonce;
    signature = signature;
  })

abbrev pub Valid : PairingRequestPayload → Type 0
Valid p =
    IsArray 32 p.side
    × IsArray 16 p.nonce
    × IsArray 64 p.signature
    × IsArray 32 p.device_pubkey
    × IsArray 32 p.device_x25519_pubkey

reads : (p : PairingRequestPayload) → Valid p → Reads body (to_wire_bytes p) p
unfolding body to_wire_bytes flat key text valid_utf8
reads p h = rw (encode_map-flat (entries p)) (
    Reads-map 5 _ (omega arith) (
      Reads-field (codes "side") (fixed_codec "side" 32 (omega arith)) _ p.side (omega arith, refl)
        h.0
        (Reads-field (codes "nonce") (fixed_codec "nonce" 16 (omega arith)) _ p.nonce
          (omega arith, refl) h.1
          (Reads-field (codes "signature") (fixed_codec "signature" 64 (omega arith)) _ p.signature
            (omega arith, refl) h.2
            (Reads-field (codes "device_pubkey") (fixed_codec "device_pubkey" 32 (omega arith)) _
              p.device_pubkey (omega arith, refl) h.3
              (Reads-field (codes "device_x25519_pubkey")
                (fixed_codec "device_x25519_pubkey" 32 (omega arith)) _ p.device_x25519_pubkey
                (omega arith, refl) h.4 (Reads-pure p)))))))

parses : Parses body (λ p bs. Valid p × (bs ≡ to_wire_bytes p))
unfolding body to_wire_bytes flat key text
parses = Parses-map 5 _ (
    Parses-field (codes "side") (fixed_codec "side" 32 (omega arith)) _ λ x0 h0.
      Parses-field (codes "nonce") (fixed_codec "nonce" 16 (omega arith)) _ λ x1 h1.
        Parses-field (codes "signature") (fixed_codec "signature" 64 (omega arith)) _ λ x2 h2.
          Parses-field (codes "device_pubkey") (fixed_codec "device_pubkey" 32 (omega arith)) _
            λ x3 h3.
              Parses-field (codes "device_x25519_pubkey")
                (fixed_codec "device_x25519_pubkey" 32 (omega arith)) _
                λ x4 h4. Parses-pure _ ((h0, h1, h2, h3, h4), sym (encode_map-flat _)))

abbrev codec : Codec PairingRequestPayload
codec = record {
  encode = to_wire_bytes;
  body = body;
  Valid = Valid;
  reads = reads;
  parses = parses;
}

module _ (c : Crypto) where
  unfoldable pub sign : Bytes → c.SigningKey → Bytes → Bytes → PairingRequestPayload
  sign side device_signing_key device_x25519_pubkey nonce =
      let unsigned : PairingRequestPayload = record {
        side = side;
        device_pubkey = c.public_bytes device_signing_key;
        device_x25519_pubkey = device_x25519_pubkey;
        nonce = nonce;
        signature = [];
      } in
      record unsigned {
        signature = c.sign device_signing_key (c.blake3 (encode_unsigned unsigned));
      }

  -- The signature by `device_pubkey` of the digest of the other fields.
  abbrev pub Authentic : PairingRequestPayload → Type 0
  Authentic p = IsSigned c p.device_pubkey (encode_unsigned p) p.signature

  abbrev check : PairingRequestPayload → Result Error (Unit {0})
  check p = check_signature c p.device_pubkey (encode_unsigned p) p.signature

  unfoldable pub from_wire_bytes : Bytes → Result Error PairingRequestPayload
  from_wire_bytes bs = and_then (decode_whole body bs) λ p.
      and_then (check_signature c p.device_pubkey (encode_unsigned p) p.signature)
        λ _. and_then (check_reencoded (to_wire_bytes p) bs) λ _. ok p

  -- From bytes that fit the address space, the decoder gives `p` exactly if `p` can be encoded, the
  -- bytes are its encoding and its signature holds.
  pub pairing_request_iff :
      (bs : Bytes) (p : PairingRequestPayload)
      → IsBytes bs
      → length bs < usize_mod
      → (from_wire_bytes bs ≡ ok p) ↔ Valid p × (bs ≡ to_wire_bytes p) × Authentic p
  unfolding from_wire_bytes
  pairing_request_iff bs p hb fits =
      let (f, g) = checked_whole_iff codec check bs p hb fits in
      (
        λ e. let (v, s, k) = f e in (v, s, check_signature-eq-ok c p.device_pubkey _ _ k),
        λ (v, s, k). g (v, s, check_signature-ok c p.device_pubkey _ _ k),
      )

  -- What is signed of fields of the right widths is accepted with them.
  pub sign-pairing_request :
      IsSound c
      → (device_signing_key : c.SigningKey) (p : PairingRequestPayload) → Valid p
      → length (to_wire_bytes (sign p.side device_signing_key p.device_x25519_pubkey p.nonce))
        < usize_mod
      → from_wire_bytes
          (to_wire_bytes (sign p.side device_signing_key p.device_x25519_pubkey p.nonce))
        ≡ ok (sign p.side device_signing_key p.device_x25519_pubkey p.nonce)
  unfolding from_wire_bytes sign encode_unsigned
  sign-pairing_request s device_signing_key p h fits =
      let signed = sign-IsSigned c s device_signing_key _ in
      checked_whole-encode codec check _
        (h.0, h.1, s.sign_array device_signing_key _, s.key_array device_signing_key, h.4)
        (check_signature-ok c _ _ _ signed) fits
