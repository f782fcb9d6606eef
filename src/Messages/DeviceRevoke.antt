-- ===== src/Messages/DeviceRevoke.antt =====
-- `DeviceRevokePayload` of crates/sidevers-core/src/messages/device.rs.
use sidevers_protocol.Cbor.Array.{IsText, uint_codec, fixed_codec, IsU64}
use sidevers_protocol.Cbor.Codec.{decode_whole, Codec}
use sidevers_protocol.Cbor.Field.{
  expect_count, expect_key, read_fixed, flat, encode_map-flat, IsArray,
}
use sidevers_protocol.Cbor.Nullable.{read_nullable, encode_nullable, OnSome, optional_text}
use sidevers_protocol.Cbor.Reader.{◌>>=◌, ◌>>◌, usize_mod, Read, pure, read_u64, read_text}
use sidevers_protocol.Cbor.Reads.{Reads-pure, Parses-pure, Reads, Parses}
use sidevers_protocol.Cbor.Struct.{Reads-map, Parses-map, Reads-field, Parses-field}
use sidevers_protocol.Cbor.Utf8.{valid_utf8}
use sidevers_protocol.Cbor.Writer.{Bytes, key, uint, bytes, text, encode_map, MapEntry}
use sidevers_protocol.Common.{
  IsBytes, codes, ℕ, ◌<◌, ◌≡◌, refl, sym, ◌↔◌, Option, List, [], ◌∷◌, arith, length,
}
use sidevers_protocol.Crypto.{Crypto, IsSound}
use sidevers_protocol.Errors.{Error, Result, ok}
use sidevers_protocol.Signing.{
  and_then, check_signature, IsSigned, check_signature-ok, check_signature-eq-ok, sign-IsSigned,
  check_reencoded, checked_whole_iff, checked_whole-encode,
}

pub record DeviceRevokePayload : Type 0 where
  pub side : Bytes
  pub device_pubkey : Bytes
  pub revoked_at : ℕ
  pub reason : Option Bytes
  pub signature : Bytes

abbrev pub unsigned_entries : DeviceRevokePayload → List MapEntry
unsigned_entries p =
    record { key = key (codes "side"); value = bytes p.side }
    ∷ record { key = key (codes "reason"); value = encode_nullable text p.reason }
    ∷ record { key = key (codes "revoked_at"); value = uint p.revoked_at }
    ∷ record { key = key (codes "device_pubkey"); value = bytes p.device_pubkey }
    ∷ []

abbrev pub entries : DeviceRevokePayload → List MapEntry
entries p =
    record { key = key (codes "side"); value = bytes p.side }
    ∷ record { key = key (codes "reason"); value = encode_nullable text p.reason }
    ∷ record { key = key (codes "signature"); value = bytes p.signature }
    ∷ record { key = key (codes "revoked_at"); value = uint p.revoked_at }
    ∷ record { key = key (codes "device_pubkey"); value = bytes p.device_pubkey }
    ∷ []

-- `encode_unsigned` does not look at the signature.
unfoldable pub encode_unsigned : DeviceRevokePayload → Bytes
encode_unsigned p = encode_map (unsigned_entries p)

unfoldable pub to_wire_bytes : DeviceRevokePayload → Bytes
to_wire_bytes p = encode_map (entries p)

unfoldable pub body : Read DeviceRevokePayload
body = do
  expect_count 5
  expect_key (codes "side")
  side ← read_fixed "side" 32
  expect_key (codes "reason")
  reason ← read_nullable read_text
  expect_key (codes "signature")
  signature ← read_fixed "signature" 64
  expect_key (codes "revoked_at")
  revoked_at ← read_u64
  expect_key (codes "device_pubkey")
  device_pubkey ← read_fixed "device_pubkey" 32
  pure (record {
    side = side;
    device_pubkey = device_pubkey;
    revoked_at = revoked_at;
    reason = reason;
    signature = signature;
  })

abbrev pub Valid : DeviceRevokePayload → Type 0
Valid p =
    IsArray 32 p.side
    × OnSome IsText p.reason
    × IsArray 64 p.signature
    × IsU64 p.revoked_at
    × IsArray 32 p.device_pubkey

reads : (p : DeviceRevokePayload) → Valid p → Reads body (to_wire_bytes p) p
unfolding body to_wire_bytes flat key text valid_utf8
reads p h = rw (encode_map-flat (entries p)) (
    Reads-map 5 _ (omega arith) (
      Reads-field (codes "side") (fixed_codec "side" 32 (omega arith)) _ p.side (omega arith, refl)
        h.0
        (Reads-field (codes "reason") (optional_text) _ p.reason (omega arith, refl) h.1
          (Reads-field (codes "signature") (fixed_codec "signature" 64 (omega arith)) _ p.signature
            (omega arith, refl) h.2
            (Reads-field (codes "revoked_at") (uint_codec) _ p.revoked_at (omega arith, refl) h.3
              (Reads-field (codes "device_pubkey") (fixed_codec "device_pubkey" 32 (omega arith)) _
                p.device_pubkey (omega arith, refl) h.4 (Reads-pure p)))))))

parses : Parses body (λ p bs. Valid p × (bs ≡ to_wire_bytes p))
unfolding body to_wire_bytes flat key text
parses = Parses-map 5 _ (
    Parses-field (codes "side") (fixed_codec "side" 32 (omega arith)) _ λ x0 h0.
      Parses-field (codes "reason") (optional_text) _ λ x1 h1.
        Parses-field (codes "signature") (fixed_codec "signature" 64 (omega arith)) _ λ x2 h2.
          Parses-field (codes "revoked_at") (uint_codec) _ λ x3 h3.
            Parses-field (codes "device_pubkey") (fixed_codec "device_pubkey" 32 (omega arith)) _
              λ x4 h4. Parses-pure _ ((h0, h1, h2, h3, h4), sym (encode_map-flat _)))

abbrev codec : Codec DeviceRevokePayload
codec = record {
  encode = to_wire_bytes;
  body = body;
  Valid = Valid;
  reads = reads;
  parses = parses;
}

module _ (c : Crypto) where
  unfoldable pub sign : c.SigningKey → Bytes → ℕ → Option Bytes → DeviceRevokePayload
  sign side_key device_pubkey revoked_at reason =
      let unsigned : DeviceRevokePayload = record {
        side = c.public_bytes side_key;
        device_pubkey = device_pubkey;
        revoked_at = revoked_at;
        reason = reason;
        signature = [];
      } in
      record unsigned { signature = c.sign side_key (c.blake3 (encode_unsigned unsigned)) }

  -- The signature by `side` of the digest of the other fields.
  abbrev pub Authentic : DeviceRevokePayload → Type 0
  Authentic p = IsSigned c p.side (encode_unsigned p) p.signature

  abbrev check : DeviceRevokePayload → Result Error (Unit {0})
  check p = check_signature c p.side (encode_unsigned p) p.signature

  unfoldable pub from_wire_bytes : Bytes → Result Error DeviceRevokePayload
  from_wire_bytes bs = and_then (decode_whole body bs) λ p.
      and_then (check_signature c p.side (encode_unsigned p) p.signature)
        λ _. and_then (check_reencoded (to_wire_bytes p) bs) λ _. ok p

  -- From bytes that fit the address space, the decoder gives `p` exactly if `p` can be encoded, the
  -- bytes are its encoding and its signature holds.
  pub device_revoke_iff :
      (bs : Bytes) (p : DeviceRevokePayload)
      → IsBytes bs
      → length bs < usize_mod
      → (from_wire_bytes bs ≡ ok p) ↔ Valid p × (bs ≡ to_wire_bytes p) × Authentic p
  unfolding from_wire_bytes
  device_revoke_iff bs p hb fits =
      let (f, g) = checked_whole_iff codec check bs p hb fits in
      (
        λ e. let (v, s, k) = f e in (v, s, check_signature-eq-ok c p.side _ _ k),
        λ (v, s, k). g (v, s, check_signature-ok c p.side _ _ k),
      )

  -- What is signed of fields of the right widths is accepted with them.
  pub sign-device_revoke :
      IsSound c
      → (side_key : c.SigningKey) (p : DeviceRevokePayload) → Valid p
      → length (to_wire_bytes (sign side_key p.device_pubkey p.revoked_at p.reason)) < usize_mod
      → from_wire_bytes (to_wire_bytes (sign side_key p.device_pubkey p.revoked_at p.reason))
        ≡ ok (sign side_key p.device_pubkey p.revoked_at p.reason)
  unfolding from_wire_bytes sign encode_unsigned
  sign-device_revoke s side_key p h fits =
      let signed = sign-IsSigned c s side_key _ in
      checked_whole-encode codec check _
        (s.key_array side_key, h.1, s.sign_array side_key _, h.3, h.4)
        (check_signature-ok c _ _ _ signed) fits
