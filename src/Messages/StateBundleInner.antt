-- ===== src/Messages/StateBundleInner.antt =====
-- `StateBundleInner` of crates/sidevers-core/src/messages/device.rs.
use sidevers_protocol.Cbor.Array.{
  array, IsText, text_codec, uint_codec, fixed_codec, IsBlob, IsArrays, IsU64,
}
use sidevers_protocol.Cbor.Codec.{decode_whole, decode_whole_iff, Codec}
use sidevers_protocol.Cbor.Field.{
  expect_count, expect_key, read_fixed, read_array, encode_array, flat, encode_map-flat, IsArray,
}
use sidevers_protocol.Cbor.Nullable.{read_nullable, encode_nullable, OnSome, optional_bytes}
use sidevers_protocol.Cbor.Reader.{
  ◌>>=◌, ◌>>◌, usize_mod, Read, pure, read_u64, read_bytes, read_text,
}
use sidevers_protocol.Cbor.Reads.{Reads-pure, Parses-pure, Reads, Parses}
use sidevers_protocol.Cbor.Struct.{Reads-map, Parses-map, Reads-field, Parses-field}
use sidevers_protocol.Cbor.Utf8.{valid_utf8}
use sidevers_protocol.Cbor.Writer.{Bytes, key, uint, bytes, text, encode_map, MapEntry}
use sidevers_protocol.Common.{
  IsBytes, codes, ℕ, ◌<◌, ◌≡◌, refl, sym, ◌↔◌, Option, List, [], ◌∷◌, arith, length,
}
use sidevers_protocol.Errors.{Error, Result, ok}
use sidevers_protocol.Messages.Relationship.{IsRelationships}
use sidevers_protocol.Messages.Relationship

pub record StateBundleInner : Type 0 where
  pub side_seed : Bytes
  pub profile_wire : Option Bytes
  pub relationships : List Relationship.RelationshipRecord
  pub retired_sides : List Bytes
  pub lifecycle : Bytes
  pub co_holders : List Bytes
  pub bundled_at : ℕ

abbrev pub entries : StateBundleInner → List MapEntry
entries p =
    record { key = key (codes "profile"); value = encode_nullable bytes p.profile_wire }
    ∷ record { key = key (codes "lifecycle"); value = text p.lifecycle }
    ∷ record { key = key (codes "side_seed"); value = bytes p.side_seed }
    ∷ record { key = key (codes "bundled_at"); value = uint p.bundled_at }
    ∷ record { key = key (codes "co_holders"); value = encode_array bytes p.co_holders }
    ∷ record {
      key = key (codes "relationships");
      value = encode_array Relationship.encode p.relationships;
    }
    ∷ record { key = key (codes "retired_sides"); value = encode_array bytes p.retired_sides }
    ∷ []

unfoldable pub encode : StateBundleInner → Bytes
encode p = encode_map (entries p)

unfoldable pub body : Read StateBundleInner
body = do
  expect_count 7
  expect_key (codes "profile")
  profile_wire ← read_nullable read_bytes
  expect_key (codes "lifecycle")
  lifecycle ← read_text
  expect_key (codes "side_seed")
  side_seed ← read_fixed "side_seed" 32
  expect_key (codes "bundled_at")
  bundled_at ← read_u64
  expect_key (codes "co_holders")
  co_holders ← read_array (read_fixed "bytes array item" 32)
  expect_key (codes "relationships")
  relationships ← read_array Relationship.body
  expect_key (codes "retired_sides")
  retired_sides ← read_array (read_fixed "bytes array item" 32)
  pure (record {
    side_seed = side_seed;
    profile_wire = profile_wire;
    relationships = relationships;
    retired_sides = retired_sides;
    lifecycle = lifecycle;
    co_holders = co_holders;
    bundled_at = bundled_at;
  })

abbrev pub Valid : StateBundleInner → Type 0
Valid p =
    OnSome IsBlob p.profile_wire
    × IsText p.lifecycle
    × IsArray 32 p.side_seed
    × IsU64 p.bundled_at
    × IsArrays p.co_holders
    × IsRelationships p.relationships
    × IsArrays p.retired_sides

reads : (p : StateBundleInner) → Valid p → Reads body (encode p) p
unfolding body encode flat key text valid_utf8
reads p h = rw (encode_map-flat (entries p)) (
    Reads-map 7 _ (omega arith) (
      Reads-field (codes "profile") (optional_bytes) _ p.profile_wire (omega arith, refl) h.0
        (Reads-field (codes "lifecycle") (text_codec) _ p.lifecycle (omega arith, refl) h.1
          (Reads-field (codes "side_seed") (fixed_codec "side_seed" 32 (omega arith)) _ p.side_seed
            (omega arith, refl) h.2
            (Reads-field (codes "bundled_at") (uint_codec) _ p.bundled_at (omega arith, refl) h.3
              (Reads-field (codes "co_holders")
                (array (fixed_codec "bytes array item" 32 (omega arith))) _ p.co_holders
                (omega arith, refl) h.4
                (Reads-field (codes "relationships") (array Relationship.codec) _ p.relationships
                  (omega arith, refl) h.5
                  (Reads-field (codes "retired_sides")
                    (array (fixed_codec "bytes array item" 32 (omega arith))) _ p.retired_sides
                    (omega arith, refl) h.6 (Reads-pure p)))))))))

parses : Parses body (λ p bs. Valid p × (bs ≡ encode p))
unfolding body encode flat key text
parses = Parses-map 7 _ (
    Parses-field (codes "profile") (optional_bytes) _ λ x0 h0.
      Parses-field (codes "lifecycle") (text_codec) _ λ x1 h1.
        Parses-field (codes "side_seed") (fixed_codec "side_seed" 32 (omega arith)) _ λ x2 h2.
          Parses-field (codes "bundled_at") (uint_codec) _ λ x3 h3.
            Parses-field (codes "co_holders")
              (array (fixed_codec "bytes array item" 32 (omega arith))) _
              λ x4 h4. Parses-field (codes "relationships") (array Relationship.codec) _ λ x5 h5.
                Parses-field (codes "retired_sides")
                  (array (fixed_codec "bytes array item" 32 (omega arith))) _
                  λ x6 h6. Parses-pure _ ((h0, h1, h2, h3, h4, h5, h6), sym (encode_map-flat _)))

abbrev codec : Codec StateBundleInner
codec = record { encode = encode; body = body; Valid = Valid; reads = reads; parses = parses }

unfoldable pub decode : Bytes → Result Error StateBundleInner
decode bs = decode_whole body bs

-- From bytes that fit the address space, the decoder gives `p` exactly if `p` can be encoded and the
-- bytes are its encoding.
pub state_bundle_inner_iff :
    (bs : Bytes) (p : StateBundleInner)
    → IsBytes bs
    → length bs < usize_mod
    → (decode bs ≡ ok p) ↔ Valid p × (bs ≡ encode p)
unfolding decode
state_bundle_inner_iff bs p hb fits = decode_whole_iff codec bs p hb fits
