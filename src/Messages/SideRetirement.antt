-- ===== src/Messages/SideRetirement.antt =====
-- `SideRetirementPayload` of crates/sidevers-core/src/messages/retirement.rs.
use sidevers_protocol.Cbor.Array.{IsText, uint_codec, fixed_codec, IsU64}
use sidevers_protocol.Cbor.Codec.{decode_whole, Codec}
use sidevers_protocol.Cbor.Field.{
  expect_count, expect_key, read_fixed, flat, encode_map-flat, IsArray,
}
use sidevers_protocol.Cbor.Nullable.{read_nullable, encode_nullable, OnSome, optional_text}
use sidevers_protocol.Cbor.Reader.{◌>>=◌, ◌>>◌, usize_mod, Read, pure, read_u64, read_text}
use sidevers_protocol.Cbor.Reads.{Reads-pure, Parses-pure, Reads, Parses}
use sidevers_protocol.Cbor.Struct.{Reads-map, Parses-map, Reads-field, Parses-field}
use sidevers_protocol.Cbor.Utf8.{valid_utf8}
use sidevers_protocol.Cbor.Writer.{Bytes, key, uint, bytes, text, encode_map, MapEntry}
use sidevers_protocol.Common.{
  IsBytes, codes, ℕ, ◌<◌, ◌≡◌, refl, sym, ◌↔◌, Option, List, [], ◌∷◌, arith, length,
}
use sidevers_protocol.Crypto.{Crypto, IsSound}
use sidevers_protocol.Errors.{Error, Result, ok}
use sidevers_protocol.Signing.{
  and_then, check_signature, IsSigned, check_signature-ok, check_signature-eq-ok, sign-IsSigned,
  check_reencoded, checked_whole_iff, checked_whole-encode,
}

pub record SideRetirementPayload : Type 0 where
  pub side : Bytes
  pub reason : Option Bytes
  pub retired_at : ℕ
  pub signature : Bytes

abbrev pub unsigned_entries : SideRetirementPayload → List MapEntry
unsigned_entries p =
    record { key = key (codes "side"); value = bytes p.side }
    ∷ record { key = key (codes "reason"); value = encode_nullable text p.reason }
    ∷ record { key = key (codes "retired_at"); value = uint p.retired_at }
    ∷ []

abbrev pub entries : SideRetirementPayload → List MapEntry
entries p =
    record { key = key (codes "side"); value = bytes p.side }
    ∷ record { key = key (codes "reason"); value = encode_nullable text p.reason }
    ∷ record { key = key (codes "signature"); value = bytes p.signature }
    ∷ record { key = key (codes "retired_at"); value = uint p.retired_at }
    ∷ []

-- `encode_unsigned` does not look at the signature.
unfoldable pub encode_unsigned : SideRetirementPayload → Bytes
encode_unsigned p = encode_map (unsigned_entries p)

unfoldable pub to_wire_bytes : SideRetirementPayload → Bytes
to_wire_bytes p = encode_map (entries p)

unfoldable pub body : Read SideRetirementPayload
body = do
  expect_count 4
  expect_key (codes "side")
  side ← read_fixed "side" 32
  expect_key (codes "reason")
  reason ← read_nullable read_text
  expect_key (codes "signature")
  signature ← read_fixed "signature" 64
  expect_key (codes "retired_at")
  retired_at ← read_u64
  pure (record { side = side; reason = reason; retired_at = retired_at; signature = signature })

abbrev pub Valid : SideRetirementPayload → Type 0
Valid p = IsArray 32 p.side × OnSome IsText p.reason × IsArray 64 p.signature × IsU64 p.retired_at

reads : (p : SideRetirementPayload) → Valid p → Reads body (to_wire_bytes p) p
unfolding body to_wire_bytes flat key text valid_utf8
reads p h = rw (encode_map-flat (entries p)) (
    Reads-map 4 _ (omega arith) (
      Reads-field (codes "side") (fixed_codec "side" 32 (omega arith)) _ p.side (omega arith, refl)
        h.0
        (Reads-field (codes "reason") (optional_text) _ p.reason (omega arith, refl) h.1
          (Reads-field (codes "signature") (fixed_codec "signature" 64 (omega arith)) _ p.signature
            (omega arith, refl) h.2
            (Reads-field (codes "retired_at") (uint_codec) _ p.retired_at (omega arith, refl) h.3
              (Reads-pure p))))))

parses : Parses body (λ p bs. Valid p × (bs ≡ to_wire_bytes p))
unfolding body to_wire_bytes flat key text
parses = Parses-map 4 _ (
    Parses-field (codes "side") (fixed_codec "side" 32 (omega arith)) _ λ x0 h0.
      Parses-field (codes "reason") (optional_text) _ λ x1 h1.
        Parses-field (codes "signature") (fixed_codec "signature" 64 (omega arith)) _ λ x2 h2.
          Parses-field (codes "retired_at") (uint_codec) _
            λ x3 h3. Parses-pure _ ((h0, h1, h2, h3), sym (encode_map-flat _)))

abbrev codec : Codec SideRetirementPayload
codec = record {
  encode = to_wire_bytes;
  body = body;
  Valid = Valid;
  reads = reads;
  parses = parses;
}

module _ (c : Crypto) where
  unfoldable pub sign : c.SigningKey → ℕ → Option Bytes → SideRetirementPayload
  sign key_pair retired_at reason =
      let unsigned : SideRetirementPayload = record {
        side = c.public_bytes key_pair;
        reason = reason;
        retired_at = retired_at;
        signature = [];
      } in
      record unsigned { signature = c.sign key_pair (c.blake3 (encode_unsigned unsigned)) }

  -- The signature by `side` of the digest of the other fields.
  abbrev pub Authentic : SideRetirementPayload → Type 0
  Authentic p = IsSigned c p.side (encode_unsigned p) p.signature

  abbrev check : SideRetirementPayload → Result Error (Unit {0})
  check p = check_signature c p.side (encode_unsigned p) p.signature

  unfoldable pub from_wire_bytes : Bytes → Result Error SideRetirementPayload
  from_wire_bytes bs = and_then (decode_whole body bs) λ p.
      and_then (check_signature c p.side (encode_unsigned p) p.signature)
        λ _. and_then (check_reencoded (to_wire_bytes p) bs) λ _. ok p

  -- From bytes that fit the address space, the decoder gives `p` exactly if `p` can be encoded, the
  -- bytes are its encoding and its signature holds.
  pub side_retirement_iff :
      (bs : Bytes) (p : SideRetirementPayload)
      → IsBytes bs
      → length bs < usize_mod
      → (from_wire_bytes bs ≡ ok p) ↔ Valid p × (bs ≡ to_wire_bytes p) × Authentic p
  unfolding from_wire_bytes
  side_retirement_iff bs p hb fits =
      let (f, g) = checked_whole_iff codec check bs p hb fits in
      (
        λ e. let (v, s, k) = f e in (v, s, check_signature-eq-ok c p.side _ _ k),
        λ (v, s, k). g (v, s, check_signature-ok c p.side _ _ k),
      )

  -- What is signed of fields of the right widths is accepted with them.
  pub sign-side_retirement :
      IsSound c
      → (key_pair : c.SigningKey) (p : SideRetirementPayload) → Valid p
      → length (to_wire_bytes (sign key_pair p.retired_at p.reason)) < usize_mod
      → from_wire_bytes (to_wire_bytes (sign key_pair p.retired_at p.reason))
        ≡ ok (sign key_pair p.retired_at p.reason)
  unfolding from_wire_bytes sign encode_unsigned
  sign-side_retirement s key_pair p h fits =
      let signed = sign-IsSigned c s key_pair _ in
      checked_whole-encode codec check _ (s.key_array key_pair, h.1, s.sign_array key_pair _, h.3)
        (check_signature-ok c _ _ _ signed) fits
