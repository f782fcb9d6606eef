-- ===== src/Messages/StoragePreferences.antt =====
-- `StoragePreferences` of crates/sidevers-core/src/messages/storage_prefs.rs.
use sidevers_protocol.Cbor.Array.{array, uint_codec, fixed_codec, IsArrays, IsU64}
use sidevers_protocol.Cbor.Codec.{decode_whole, Codec}
use sidevers_protocol.Cbor.Field.{
  expect_count, expect_key, read_fixed, read_array, encode_array, flat, encode_map-flat, IsArray,
}
use sidevers_protocol.Cbor.Reader.{◌>>=◌, ◌>>◌, usize_mod, Read, pure, read_u64}
use sidevers_protocol.Cbor.Reads.{Reads-pure, Parses-pure, Reads, Parses}
use sidevers_protocol.Cbor.Struct.{Reads-map, Parses-map, Reads-field, Parses-field}
use sidevers_protocol.Cbor.Utf8.{valid_utf8}
use sidevers_protocol.Cbor.Writer.{Bytes, key, uint, bytes, text, encode_map, MapEntry}
use sidevers_protocol.Common.{
  IsBytes, codes, ℕ, ◌<◌, ◌≡◌, refl, sym, ◌↔◌, List, [], ◌∷◌, arith, length,
}
use sidevers_protocol.Crypto.{Crypto, IsSound}
use sidevers_protocol.Errors.{Error, Result, ok}
use sidevers_protocol.Signing.{
  and_then, check_signature, IsSigned, check_signature-ok, check_signature-eq-ok, sign-IsSigned,
  check_reencoded, checked_whole_iff, checked_whole-encode,
}

pub record StoragePreferences : Type 0 where
  pub side : Bytes
  pub preferred_providers : List Bytes
  pub max_object_kib : ℕ
  pub retention_hint_secs : ℕ
  pub updated_at : ℕ
  pub signature : Bytes

abbrev pub unsigned_entries : StoragePreferences → List MapEntry
unsigned_entries p =
    record { key = key (codes "side"); value = bytes p.side }
    ∷ record { key = key (codes "updated_at"); value = uint p.updated_at }
    ∷ record { key = key (codes "max_object_kib"); value = uint p.max_object_kib }
    ∷ record {
      key = key (codes "preferred_providers");
      value = encode_array bytes p.preferred_providers;
    }
    ∷ record { key = key (codes "retention_hint_secs"); value = uint p.retention_hint_secs }
    ∷ []

abbrev pub entries : StoragePreferences → List MapEntry
entries p =
    record { key = key (codes "side"); value = bytes p.side }
    ∷ record { key = key (codes "signature"); value = bytes p.signature }
    ∷ record { key = key (codes "updated_at"); value = uint p.updated_at }
    ∷ record { key = key (codes "max_object_kib"); value = uint p.max_object_kib }
    ∷ record {
      key = key (codes "preferred_providers");
      value = encode_array bytes p.preferred_providers;
    }
    ∷ record { key = key (codes "retention_hint_secs"); value = uint p.retention_hint_secs }
    ∷ []

-- `encode_unsigned` does not look at the signature.
unfoldable pub encode_unsigned : StoragePreferences → Bytes
encode_unsigned p = encode_map (unsigned_entries p)

unfoldable pub to_wire_bytes : StoragePreferences → Bytes
to_wire_bytes p = encode_map (entries p)

unfoldable pub body : Read StoragePreferences
body = do
  expect_count 6
  expect_key (codes "side")
  side ← read_fixed "side" 32
  expect_key (codes "signature")
  signature ← read_fixed "signature" 64
  expect_key (codes "updated_at")
  updated_at ← read_u64
  expect_key (codes "max_object_kib")
  max_object_kib ← read_u64
  expect_key (codes "preferred_providers")
  preferred_providers ← read_array (read_fixed "preferred_providers[]" 32)
  expect_key (codes "retention_hint_secs")
  retention_hint_secs ← read_u64
  pure (record {
    side = side;
    preferred_providers = preferred_providers;
    max_object_kib = max_object_kib;
    retention_hint_secs = retention_hint_secs;
    updated_at = updated_at;
    signature = signature;
  })

abbrev pub Valid : StoragePreferences → Type 0
Valid p =
    IsArray 32 p.side
    × IsArray 64 p.signature
    × IsU64 p.updated_at
    × IsU64 p.max_object_kib
    × IsArrays p.preferred_providers
    × IsU64 p.retention_hint_secs

reads : (p : StoragePreferences) → Valid p → Reads body (to_wire_bytes p) p
unfolding body to_wire_bytes flat key text valid_utf8
reads p h = rw (encode_map-flat (entries p)) (
    Reads-map 6 _ (omega arith) (
      Reads-field (codes "side") (fixed_codec "side" 32 (omega arith)) _ p.side (omega arith, refl)
        h.0
        (Reads-field (codes "signature") (fixed_codec "signature" 64 (omega arith)) _ p.signature
          (omega arith, refl) h.1
          (Reads-field (codes "updated_at") (uint_codec) _ p.updated_at (omega arith, refl) h.2
            (Reads-field (codes "max_object_kib") (uint_codec) _ p.max_object_kib
              (omega arith, refl) h.3
              (Reads-field (codes "preferred_providers")
                (array (fixed_codec "preferred_providers[]" 32 (omega arith))) _
                p.preferred_providers (omega arith, refl) h.4
                (Reads-field (codes "retention_hint_secs") (uint_codec) _ p.retention_hint_secs
                  (omega arith, refl) h.5 (Reads-pure p))))))))

parses : Parses body (λ p bs. Valid p × (bs ≡ to_wire_bytes p))
unfolding body to_wire_bytes flat key text
parses = Parses-map 6 _ (
    Parses-field (codes "side") (fixed_codec "side" 32 (omega arith)) _ λ x0 h0.
      Parses-field (codes "signature") (fixed_codec "signature" 64 (omega arith)) _ λ x1 h1.
        Parses-field (codes "updated_at") (uint_codec) _ λ x2 h2.
          Parses-field (codes "max_object_kib") (uint_codec) _ λ x3 h3.
            Parses-field (codes "preferred_providers")
              (array (fixed_codec "preferred_providers[]" 32 (omega arith))) _
              λ x4 h4.
                Parses-field (codes "retention_hint_secs") (uint_codec) _
                  λ x5 h5. Parses-pure _ ((h0, h1, h2, h3, h4, h5), sym (encode_map-flat _)))

abbrev codec : Codec StoragePreferences
codec = record {
  encode = to_wire_bytes;
  body = body;
  Valid = Valid;
  reads = reads;
  parses = parses;
}

module _ (c : Crypto) where
  unfoldable pub sign : c.SigningKey → ℕ → ℕ → List Bytes → ℕ → StoragePreferences
  sign key_pair updated_at max_object_kib preferred_providers retention_hint_secs =
      let unsigned : StoragePreferences = record {
        side = c.public_bytes key_pair;
        preferred_providers = preferred_providers;
        max_object_kib = max_object_kib;
        retention_hint_secs = retention_hint_secs;
        updated_at = updated_at;
        signature = [];
      } in
      record unsigned { signature = c.sign key_pair (c.blake3 (encode_unsigned unsigned)) }

  -- The signature by `side` of the digest of the other fields.
  abbrev pub Authentic : StoragePreferences → Type 0
  Authentic p = IsSigned c p.side (encode_unsigned p) p.signature

  abbrev check : StoragePreferences → Result Error (Unit {0})
  check p = check_signature c p.side (encode_unsigned p) p.signature

  unfoldable pub from_wire_bytes : Bytes → Result Error StoragePreferences
  from_wire_bytes bs = and_then (decode_whole body bs) λ p.
      and_then (check_signature c p.side (encode_unsigned p) p.signature)
        λ _. and_then (check_reencoded (to_wire_bytes p) bs) λ _. ok p

  -- From bytes that fit the address space, the decoder gives `p` exactly if `p` can be encoded, the
  -- bytes are its encoding and its signature holds.
  pub storage_preferences_iff :
      (bs : Bytes) (p : StoragePreferences)
      → IsBytes bs
      → length bs < usize_mod
      → (from_wire_bytes bs ≡ ok p) ↔ Valid p × (bs ≡ to_wire_bytes p) × Authentic p
  unfolding from_wire_bytes
  storage_preferences_iff bs p hb fits =
      let (f, g) = checked_whole_iff codec check bs p hb fits in
      (
        λ e. let (v, s, k) = f e in (v, s, check_signature-eq-ok c p.side _ _ k),
        λ (v, s, k). g (v, s, check_signature-ok c p.side _ _ k),
      )

  -- What is signed of fields of the right widths is accepted with them.
  pub sign-storage_preferences :
      IsSound c
      → (key_pair : c.SigningKey) (p : StoragePreferences) → Valid p
      → length (
          to_wire_bytes (
            sign key_pair p.updated_at p.max_object_kib p.preferred_providers
              p.retention_hint_secs))
        < usize_mod
      → from_wire_bytes (
          to_wire_bytes (
            sign key_pair p.updated_at p.max_object_kib p.preferred_providers
              p.retention_hint_secs))
        ≡ ok (
            sign key_pair p.updated_at p.max_object_kib p.preferred_providers p.retention_hint_secs)
  unfolding from_wire_bytes sign encode_unsigned
  sign-storage_preferences s key_pair p h fits =
      let signed = sign-IsSigned c s key_pair _ in
      checked_whole-encode codec check _
        (s.key_array key_pair, s.sign_array key_pair _, h.2, h.3, h.4, h.5)
        (check_signature-ok c _ _ _ signed) fits
