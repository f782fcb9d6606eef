-- ===== src/Messages/Relationship.antt =====
-- `RelationshipRecord` of crates/sidevers-core/src/messages/device.rs.
use sidevers_protocol.Cbor.Array.{
  array, IsText, text_codec, uint_codec, fixed_codec, IsU64, IsTexts,
}
use sidevers_protocol.Cbor.Boolean.{bool_codec, IsFlag}
use sidevers_protocol.Cbor.Codec.{Codec}
use sidevers_protocol.Cbor.Field.{
  expect_count, expect_key, read_fixed, read_array, encode_array, flat, encode_map-flat, IsArray,
}
use sidevers_protocol.Cbor.Nullable.{
  read_nullable, encode_nullable, OnSome, optional_text, optional_fixed,
}
use sidevers_protocol.Cbor.Reader.{
  ◌>>=◌, ◌>>◌, max_cbor_entries, Read, pure, read_u64, read_text, read_bool,
}
use sidevers_protocol.Cbor.Reads.{Reads-pure, Parses-pure, Reads, Parses}
use sidevers_protocol.Cbor.Struct.{Reads-map, Parses-map, Reads-field, Parses-field}
use sidevers_protocol.Cbor.Utf8.{valid_utf8}
use sidevers_protocol.Cbor.Writer.{Bytes, key, uint, bytes, text, boolean, encode_map, MapEntry}
use sidevers_protocol.Common.{
  codes, ℕ, ◌≤◌, ◌≡◌, refl, sym, Bool, Option, List, [], ◌∷◌, arith, length, All,
}

pub record RelationshipRecord : Type 0 where
  pub address : Bytes
  pub nickname : Option Bytes
  pub introduced_by : Option Bytes
  pub capabilities : List Bytes
  pub notes : Option Bytes
  pub pinned : Bool
  pub added_at : ℕ

abbrev pub entries : RelationshipRecord → List MapEntry
entries p =
    record { key = key (codes "notes"); value = encode_nullable text p.notes }
    ∷ record { key = key (codes "pinned"); value = boolean p.pinned }
    ∷ record { key = key (codes "address"); value = bytes p.address }
    ∷ record { key = key (codes "added_at"); value = uint p.added_at }
    ∷ record { key = key (codes "nickname"); value = encode_nullable text p.nickname }
    ∷ record { key = key (codes "capabilities"); value = encode_array text p.capabilities }
    ∷ record { key = key (codes "introduced_by"); value = encode_nullable bytes p.introduced_by }
    ∷ []

unfoldable pub encode : RelationshipRecord → Bytes
encode p = encode_map (entries p)

unfoldable pub body : Read RelationshipRecord
body = do
  expect_count 7
  expect_key (codes "notes")
  notes ← read_nullable read_text
  expect_key (codes "pinned")
  pinned ← read_bool
  expect_key (codes "address")
  address ← read_fixed "address" 32
  expect_key (codes "added_at")
  added_at ← read_u64
  expect_key (codes "nickname")
  nickname ← read_nullable read_text
  expect_key (codes "capabilities")
  capabilities ← read_array read_text
  expect_key (codes "introduced_by")
  introduced_by ← read_nullable (read_fixed "introduced_by" 32)
  pure (record {
    address = address;
    nickname = nickname;
    introduced_by = introduced_by;
    capabilities = capabilities;
    notes = notes;
    pinned = pinned;
    added_at = added_at;
  })

abbrev pub Valid : RelationshipRecord → Type 0
Valid p =
    OnSome IsText p.notes
    × IsFlag p.pinned
    × IsArray 32 p.address
    × IsU64 p.added_at
    × OnSome IsText p.nickname
    × IsTexts p.capabilities
    × OnSome (IsArray 32) p.introduced_by

pub reads : (p : RelationshipRecord) → Valid p → Reads body (encode p) p
unfolding body encode flat key text valid_utf8
reads p h = rw (encode_map-flat (entries p)) (
    Reads-map 7 _ (omega arith) (
      Reads-field (codes "notes") (optional_text) _ p.notes (omega arith, refl) h.0
        (Reads-field (codes "pinned") (bool_codec) _ p.pinned (omega arith, refl) h.1
          (Reads-field (codes "address") (fixed_codec "address" 32 (omega arith)) _ p.address
            (omega arith, refl) h.2
            (Reads-field (codes "added_at") (uint_codec) _ p.added_at (omega arith, refl) h.3
              (Reads-field (codes "nickname") (optional_text) _ p.nickname (omega arith, refl) h.4
                (Reads-field (codes "capabilities") (array text_codec) _ p.capabilities
                  (omega arith, refl) h.5
                  (Reads-field (codes "introduced_by") (optional_fixed "introduced_by") _
                    p.introduced_by (omega arith, refl) h.6 (Reads-pure p)))))))))

pub parses : Parses body (λ p bs. Valid p × (bs ≡ encode p))
unfolding body encode flat key text
parses = Parses-map 7 _ (
    Parses-field (codes "notes") (optional_text) _ λ x0 h0.
      Parses-field (codes "pinned") (bool_codec) _ λ x1 h1.
        Parses-field (codes "address") (fixed_codec "address" 32 (omega arith)) _ λ x2 h2.
          Parses-field (codes "added_at") (uint_codec) _ λ x3 h3.
            Parses-field (codes "nickname") (optional_text) _ λ x4 h4.
              Parses-field (codes "capabilities") (array text_codec) _ λ x5 h5.
                Parses-field (codes "introduced_by") (optional_fixed "introduced_by") _
                  λ x6 h6. Parses-pure _ ((h0, h1, h2, h3, h4, h5, h6), sym (encode_map-flat _)))

abbrev pub codec : Codec RelationshipRecord
codec = record { encode = encode; body = body; Valid = Valid; reads = reads; parses = parses }

-- An array of them can be encoded.
abbrev pub IsRelationships : List RelationshipRecord → Type 0
IsRelationships xs = (length xs ≤ max_cbor_entries) × All Valid xs
