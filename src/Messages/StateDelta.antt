-- ===== src/Messages/StateDelta.antt =====
-- `StateDeltaPayload` of crates/sidevers-core/src/messages/device.rs.
use sidevers_protocol.Cbor.Array.{array, uint_codec, fixed_codec, IsU64}
use sidevers_protocol.Cbor.Codec.{decode_whole, Codec}
use sidevers_protocol.Cbor.Field.{
  expect_count, expect_key, read_fixed, read_array, encode_array, flat, encode_map-flat, IsArray,
}
use sidevers_protocol.Cbor.Reader.{◌>>=◌, ◌>>◌, usize_mod, Read, pure, read_u64}
use sidevers_protocol.Cbor.Reads.{Reads-pure, Parses-pure, Reads, Parses}
use sidevers_protocol.Cbor.Struct.{Reads-map, Parses-map, Reads-field, Parses-field}
use sidevers_protocol.Cbor.Utf8.{valid_utf8}
use sidevers_protocol.Cbor.Writer.{Bytes, key, uint, bytes, text, encode_map, MapEntry}
use sidevers_protocol.Common.{
  IsBytes, codes, ℕ, ◌<◌, ◌≡◌, refl, sym, ◌↔◌, List, [], ◌∷◌, arith, length,
}
use sidevers_protocol.Crypto.{Crypto, IsSound}
use sidevers_protocol.Errors.{Error, Result, ok}
use sidevers_protocol.Messages.DeltaOp.Rules.{AreOps}
use sidevers_protocol.Signing.{
  and_then, check_signature, IsSigned, check_signature-ok, check_signature-eq-ok, sign-IsSigned,
  check_reencoded, checked_whole_iff, checked_whole-encode,
}
use sidevers_protocol.Messages.DeltaOp
use sidevers_protocol.Messages.DeltaOp.Rules

pub record StateDeltaPayload : Type 0 where
  pub side : Bytes
  pub ops : List DeltaOp.DeltaOp
  pub applied_at : ℕ
  pub signature : Bytes

abbrev pub unsigned_entries : StateDeltaPayload → List MapEntry
unsigned_entries p =
    record { key = key (codes "ops"); value = encode_array DeltaOp.encode p.ops }
    ∷ record { key = key (codes "side"); value = bytes p.side }
    ∷ record { key = key (codes "applied_at"); value = uint p.applied_at }
    ∷ []

abbrev pub entries : StateDeltaPayload → List MapEntry
entries p =
    record { key = key (codes "ops"); value = encode_array DeltaOp.encode p.ops }
    ∷ record { key = key (codes "side"); value = bytes p.side }
    ∷ record { key = key (codes "signature"); value = bytes p.signature }
    ∷ record { key = key (codes "applied_at"); value = uint p.applied_at }
    ∷ []

-- `encode_unsigned` does not look at the signature.
unfoldable pub encode_unsigned : StateDeltaPayload → Bytes
encode_unsigned p = encode_map (unsigned_entries p)

unfoldable pub to_wire_bytes : StateDeltaPayload → Bytes
to_wire_bytes p = encode_map (entries p)

unfoldable pub body : Read StateDeltaPayload
body = do
  expect_count 4
  expect_key (codes "ops")
  ops ← read_array DeltaOp.body
  expect_key (codes "side")
  side ← read_fixed "side" 32
  expect_key (codes "signature")
  signature ← read_fixed "signature" 64
  expect_key (codes "applied_at")
  applied_at ← read_u64
  pure (record { side = side; ops = ops; applied_at = applied_at; signature = signature })

abbrev pub Valid : StateDeltaPayload → Type 0
Valid p = AreOps p.ops × IsArray 32 p.side × IsArray 64 p.signature × IsU64 p.applied_at

reads : (p : StateDeltaPayload) → Valid p → Reads body (to_wire_bytes p) p
unfolding body to_wire_bytes flat key text valid_utf8
reads p h = rw (encode_map-flat (entries p)) (
    Reads-map 4 _ (omega arith) (
      Reads-field (codes "ops") (array Rules.codec) _ p.ops (omega arith, refl) h.0
        (Reads-field (codes "side") (fixed_codec "side" 32 (omega arith)) _ p.side
          (omega arith, refl) h.1
          (Reads-field (codes "signature") (fixed_codec "signature" 64 (omega arith)) _ p.signature
            (omega arith, refl) h.2
            (Reads-field (codes "applied_at") (uint_codec) _ p.applied_at (omega arith, refl) h.3
              (Reads-pure p))))))

parses : Parses body (λ p bs. Valid p × (bs ≡ to_wire_bytes p))
unfolding body to_wire_bytes flat key text
parses = Parses-map 4 _ (
    Parses-field (codes "ops") (array Rules.codec) _ λ x0 h0.
      Parses-field (codes "side") (fixed_codec "side" 32 (omega arith)) _ λ x1 h1.
        Parses-field (codes "signature") (fixed_codec "signature" 64 (omega arith)) _ λ x2 h2.
          Parses-field (codes "applied_at") (uint_codec) _
            λ x3 h3. Parses-pure _ ((h0, h1, h2, h3), sym (encode_map-flat _)))

abbrev codec : Codec StateDeltaPayload
codec = record {
  encode = to_wire_bytes;
  body = body;
  Valid = Valid;
  reads = reads;
  parses = parses;
}

module _ (c : Crypto) where
  unfoldable pub sign : c.SigningKey → List DeltaOp.DeltaOp → ℕ → StateDeltaPayload
  sign side_key ops applied_at =
      let unsigned : StateDeltaPayload = record {
        side = c.public_bytes side_key;
        ops = ops;
        applied_at = applied_at;
        signature = [];
      } in
      record unsigned { signature = c.sign side_key (c.blake3 (encode_unsigned unsigned)) }

  -- The signature by `side` of the digest of the other fields.
  abbrev pub Authentic : StateDeltaPayload → Type 0
  Authentic p = IsSigned c p.side (encode_unsigned p) p.signature

  abbrev check : StateDeltaPayload → Result Error (Unit {0})
  check p = check_signature c p.side (encode_unsigned p) p.signature

  unfoldable pub from_wire_bytes : Bytes → Result Error StateDeltaPayload
  from_wire_bytes bs = and_then (decode_whole body bs) λ p.
      and_then (check_signature c p.side (encode_unsigned p) p.signature)
        λ _. and_then (check_reencoded (to_wire_bytes p) bs) λ _. ok p

  -- From bytes that fit the address space, the decoder gives `p` exactly if `p` can be encoded, the
  -- bytes are its encoding and its signature holds.
  pub state_delta_iff :
      (bs : Bytes) (p : StateDeltaPayload)
      → IsBytes bs
      → length bs < usize_mod
      → (from_wire_bytes bs ≡ ok p) ↔ Valid p × (bs ≡ to_wire_bytes p) × Authentic p
  unfolding from_wire_bytes
  state_delta_iff bs p hb fits =
      let (f, g) = checked_whole_iff codec check bs p hb fits in
      (
        λ e. let (v, s, k) = f e in (v, s, check_signature-eq-ok c p.side _ _ k),
        λ (v, s, k). g (v, s, check_signature-ok c p.side _ _ k),
      )

  -- What is signed of fields of the right widths is accepted with them.
  pub sign-state_delta :
      IsSound c
      → (side_key : c.SigningKey) (p : StateDeltaPayload) → Valid p
      → length (to_wire_bytes (sign side_key p.ops p.applied_at)) < usize_mod
      → from_wire_bytes (to_wire_bytes (sign side_key p.ops p.applied_at))
        ≡ ok (sign side_key p.ops p.applied_at)
  unfolding from_wire_bytes sign encode_unsigned
  sign-state_delta s side_key p h fits =
      let signed = sign-IsSigned c s side_key _ in
      checked_whole-encode codec check _ (h.0, s.key_array side_key, s.sign_array side_key _, h.3)
        (check_signature-ok c _ _ _ signed) fits
