-- ===== src/Messages/StateBundle.antt =====
-- `StateBundlePayload` of crates/sidevers-core/src/messages/device.rs.
use sidevers_protocol.Cbor.Array.{bytes_codec, fixed_codec, IsBlob}
use sidevers_protocol.Cbor.Codec.{decode_whole, Codec}
use sidevers_protocol.Cbor.Field.{
  expect_count, expect_key, read_fixed, flat, encode_map-flat, IsArray,
}
use sidevers_protocol.Cbor.Reader.{◌>>=◌, ◌>>◌, usize_mod, Read, pure, read_bytes}
use sidevers_protocol.Cbor.Reads.{Reads-pure, Parses-pure, Reads, Parses}
use sidevers_protocol.Cbor.Struct.{Reads-map, Parses-map, Reads-field, Parses-field}
use sidevers_protocol.Cbor.Utf8.{valid_utf8}
use sidevers_protocol.Cbor.Writer.{Bytes, key, bytes, text, encode_map, MapEntry}
use sidevers_protocol.Common.{
  IsBytes, codes, ◌<◌, ◌≡◌, refl, sym, ◌↔◌, List, [], ◌∷◌, arith, length,
}
use sidevers_protocol.Crypto.{Crypto, IsSound}
use sidevers_protocol.Errors.{Error, Result, ok}
use sidevers_protocol.Signing.{
  and_then, check_signature, IsSigned, check_signature-ok, check_signature-eq-ok, sign-IsSigned,
  check_reencoded, checked_whole_iff, checked_whole-encode,
}

pub record StateBundlePayload : Type 0 where
  pub side : Bytes
  pub recipient_device : Bytes
  pub nonce : Bytes
  pub key_nonce : Bytes
  pub sealed_state : Bytes
  pub signature : Bytes

abbrev pub unsigned_entries : StateBundlePayload → List MapEntry
unsigned_entries p =
    record { key = key (codes "side"); value = bytes p.side }
    ∷ record { key = key (codes "nonce"); value = bytes p.nonce }
    ∷ record { key = key (codes "key_nonce"); value = bytes p.key_nonce }
    ∷ record { key = key (codes "sealed_state"); value = bytes p.sealed_state }
    ∷ record { key = key (codes "recipient_device"); value = bytes p.recipient_device }
    ∷ []

abbrev pub entries : StateBundlePayload → List MapEntry
entries p =
    record { key = key (codes "side"); value = bytes p.side }
    ∷ record { key = key (codes "nonce"); value = bytes p.nonce }
    ∷ record { key = key (codes "key_nonce"); value = bytes p.key_nonce }
    ∷ record { key = key (codes "signature"); value = bytes p.signature }
    ∷ record { key = key (codes "sealed_state"); value = bytes p.sealed_state }
    ∷ record { key = key (codes "recipient_device"); value = bytes p.recipient_device }
    ∷ []

-- `encode_unsigned` does not look at the signature.
unfoldable pub encode_unsigned : StateBundlePayload → Bytes
encode_unsigned p = encode_map (unsigned_entries p)

unfoldable pub to_wire_bytes : StateBundlePayload → Bytes
to_wire_bytes p = encode_map (entries p)

unfoldable pub body : Read StateBundlePayload
body = do
  expect_count 6
  expect_key (codes "side")
  side ← read_fixed "side" 32
  expect_key (codes "nonce")
  nonce ← read_fixed "nonce" 16
  expect_key (codes "key_nonce")
  key_nonce ← read_fixed "key_nonce" 16
  expect_key (codes "signature")
  signature ← read_fixed "signature" 64
  expect_key (codes "sealed_state")
  sealed_state ← read_bytes
  expect_key (codes "recipient_device")
  recipient_device ← read_fixed "recipient_device" 32
  pure (record {
    side = side;
    recipient_device = recipient_device;
    nonce = nonce;
    key_nonce = key_nonce;
    sealed_state = sealed_state;
    signature = signature;
  })

abbrev pub Valid : StateBundlePayload → Type 0
Valid p =
    IsArray 32 p.side
    × IsArray 16 p.nonce
    × IsArray 16 p.key_nonce
    × IsArray 64 p.signature
    × IsBlob p.sealed_state
    × IsArray 32 p.recipient_device

reads : (p : StateBundlePayload) → Valid p → Reads body (to_wire_bytes p) p
unfolding body to_wire_bytes flat key text valid_utf8
reads p h = rw (encode_map-flat (entries p)) (
    Reads-map 6 _ (omega arith) (
      Reads-field (codes "side") (fixed_codec "side" 32 (omega arith)) _ p.side (omega arith, refl)
        h.0
        (Reads-field (codes "nonce") (fixed_codec "nonce" 16 (omega arith)) _ p.nonce
          (omega arith, refl) h.1
          (Reads-field (codes "key_nonce") (fixed_codec "key_nonce" 16 (omega arith)) _ p.key_nonce
            (omega arith, refl) h.2
            (Reads-field (codes "signature") (fixed_codec "signature" 64 (omega arith)) _
              p.signature (omega arith, refl) h.3
              (Reads-field (codes "sealed_state") (bytes_codec) _ p.sealed_state (omega arith, refl)
                h.4
                (Reads-field (codes "recipient_device")
                  (fixed_codec "recipient_device" 32 (omega arith)) _ p.recipient_device
                  (omega arith, refl) h.5 (Reads-pure p))))))))

parses : Parses body (λ p bs. Valid p × (bs ≡ to_wire_bytes p))
unfolding body to_wire_bytes flat key text
parses = Parses-map 6 _ (
    Parses-field (codes "side") (fixed_codec "side" 32 (omega arith)) _ λ x0 h0.
      Parses-field (codes "nonce") (fixed_codec "nonce" 16 (omega arith)) _ λ x1 h1.
        Parses-field (codes "key_nonce") (fixed_codec "key_nonce" 16 (omega arith)) _ λ x2 h2.
          Parses-field (codes "signature") (fixed_codec "signature" 64 (omega arith)) _ λ x3 h3.
            Parses-field (codes "sealed_state") (bytes_codec) _ λ x4 h4.
              Parses-field (codes "recipient_device")
                (fixed_codec "recipient_device" 32 (omega arith)) _
                λ x5 h5. Parses-pure _ ((h0, h1, h2, h3, h4, h5), sym (encode_map-flat _)))

abbrev codec : Codec StateBundlePayload
codec = record {
  encode = to_wire_bytes;
  body = body;
  Valid = Valid;
  reads = reads;
  parses = parses;
}

module _ (c : Crypto) where
  unfoldable pub sign : c.SigningKey → Bytes → Bytes → Bytes → Bytes → StateBundlePayload
  sign side_key recipient_device nonce key_nonce sealed_state =
      let unsigned : StateBundlePayload = record {
        side = c.public_bytes side_key;
        recipient_device = recipient_device;
        nonce = nonce;
        key_nonce = key_nonce;
        sealed_state = sealed_state;
        signature = [];
      } in
      record unsigned { signature = c.sign side_key (c.blake3 (encode_unsigned unsigned)) }

  -- The signature by `side` of the digest of the other fields.
  abbrev pub Authentic : StateBundlePayload → Type 0
  Authentic p = IsSigned c p.side (encode_unsigned p) p.signature

  abbrev check : StateBundlePayload → Result Error (Unit {0})
  check p = check_signature c p.side (encode_unsigned p) p.signature

  unfoldable pub from_wire_bytes : Bytes → Result Error StateBundlePayload
  from_wire_bytes bs = and_then (decode_whole body bs) λ p.
      and_then (check_signature c p.side (encode_unsigned p) p.signature)
        λ _. and_then (check_reencoded (to_wire_bytes p) bs) λ _. ok p

  -- From bytes that fit the address space, the decoder gives `p` exactly if `p` can be encoded, the
  -- bytes are its encoding and its signature holds.
  pub state_bundle_iff :
      (bs : Bytes) (p : StateBundlePayload)
      → IsBytes bs
      → length bs < usize_mod
      → (from_wire_bytes bs ≡ ok p) ↔ Valid p × (bs ≡ to_wire_bytes p) × Authentic p
  unfolding from_wire_bytes
  state_bundle_iff bs p hb fits =
      let (f, g) = checked_whole_iff codec check bs p hb fits in
      (
        λ e. let (v, s, k) = f e in (v, s, check_signature-eq-ok c p.side _ _ k),
        λ (v, s, k). g (v, s, check_signature-ok c p.side _ _ k),
      )

  -- What is signed of fields of the right widths is accepted with them.
  pub sign-state_bundle :
      IsSound c
      → (side_key : c.SigningKey) (p : StateBundlePayload) → Valid p
      → length (to_wire_bytes (sign side_key p.recipient_device p.nonce p.key_nonce p.sealed_state))
        < usize_mod
      → from_wire_bytes
          (to_wire_bytes (sign side_key p.recipient_device p.nonce p.key_nonce p.sealed_state))
        ≡ ok (sign side_key p.recipient_device p.nonce p.key_nonce p.sealed_state)
  unfolding from_wire_bytes sign encode_unsigned
  sign-state_bundle s side_key p h fits =
      let signed = sign-IsSigned c s side_key _ in
      checked_whole-encode codec check _
        (s.key_array side_key, h.1, h.2, s.sign_array side_key _, h.4, h.5)
        (check_signature-ok c _ _ _ signed) fits
