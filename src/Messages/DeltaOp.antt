-- ===== src/Messages/DeltaOp.antt =====
-- `DeltaOp` of crates/sidevers-core/src/messages/device.rs: a map whose first entry names the variant.
pub mod Rules
use sidevers_protocol.Messages.Relationship
use sidevers_protocol.Cbor.Array.{IsText, IsBlob}
use sidevers_protocol.Cbor.Codec.{value}
use sidevers_protocol.Cbor.Field.{expect_key, read_fixed, IsArray}
use sidevers_protocol.Cbor.Reader.{
  ◌>>=◌, ◌>>◌, Read, pure, fail, require, read_bytes, read_text, read_map_header,
}
use sidevers_protocol.Cbor.Writer.{Bytes, key, bytes, text, encode_map, MapEntry}
use sidevers_protocol.Common.{bytes_eq, codes, ℕ, String, not, List, [], ◌∷◌, ◌==◌, if◌then◌else◌}
use sidevers_protocol.Errors.{cbor_decode, address}
use sidevers_protocol.Messages.Relationship.{RelationshipRecord}

pub data DeltaOp : Type 0 where
  profile_updated : Bytes → DeltaOp
  profile_cleared : DeltaOp
  relationship_upserted : RelationshipRecord → DeltaOp
  relationship_removed : Bytes → DeltaOp
  retired_observed : Bytes → DeltaOp
  lifecycle_changed : Bytes → DeltaOp
  co_holder_added : Bytes → Bytes → DeltaOp
  co_holder_removed : Bytes → DeltaOp

abbrev pub kind_of : DeltaOp → Bytes
kind_of (profile_updated wire) = codes "profile_updated"
kind_of profile_cleared = codes "profile_cleared"
kind_of (relationship_upserted r) = codes "relationship_upserted"
kind_of (relationship_removed a) = codes "relationship_removed"
kind_of (retired_observed a) = codes "retired_observed"
kind_of (lifecycle_changed s) = codes "lifecycle_changed"
kind_of (co_holder_added d a) = codes "cohol_added"
kind_of (co_holder_removed d) = codes "cohol_removed"

abbrev pub entry : String → Bytes → MapEntry
entry k v = record { key = key (codes k); value = v }

-- The entries behind `kind`.
abbrev pub entries : DeltaOp → List MapEntry
entries (profile_updated wire) = entry "profile_wire" (bytes wire) ∷ []
entries profile_cleared = []
entries (relationship_upserted r) = entry "record" (Relationship.encode r) ∷ []
entries (relationship_removed a) = entry "address" (bytes a) ∷ []
entries (retired_observed a) = entry "address" (bytes a) ∷ []
entries (lifecycle_changed s) = entry "state" (text s) ∷ []
entries (co_holder_added d a) = entry "dial_addr" (text a) ∷ entry "device_pubkey" (bytes d) ∷ []
entries (co_holder_removed d) = entry "device_pubkey" (bytes d) ∷ []

unfoldable pub encode : DeltaOp → Bytes
encode op = encode_map (entry "kind" (text (kind_of op)) ∷ entries op)

-- The arms of `match kind.as_str()`, with the number of keys that each expects.
unfoldable pub read_profile_wire : Read DeltaOp
read_profile_wire = do expect_key (codes "profile_wire"); b ← read_bytes; pure (profile_updated b)

unfoldable pub read_record : Read DeltaOp
read_record = do expect_key (codes "record"); r ← Relationship.body; pure (relationship_upserted r)

unfoldable pub read_removed : Read DeltaOp
read_removed = do
  expect_key (codes "address")
  a ← read_fixed "address" 32
  pure (relationship_removed a)

unfoldable pub read_retired : Read DeltaOp
read_retired = do
  expect_key (codes "address")
  a ← read_fixed "address" 32
  pure (retired_observed a)

unfoldable pub read_state : Read DeltaOp
read_state = do expect_key (codes "state"); s ← read_text; pure (lifecycle_changed s)

unfoldable pub read_added : Read DeltaOp
read_added = do
  expect_key (codes "dial_addr")
  a ← read_text
  expect_key (codes "device_pubkey")
  d ← read_fixed "device_pubkey" 32
  pure (co_holder_added d a)

unfoldable pub read_holder : Read DeltaOp
read_holder = do
  expect_key (codes "device_pubkey")
  d ← read_fixed "device_pubkey" 32
  pure (co_holder_removed d)

-- An arm expects `count` keys.
unfoldable pub arm : ℕ → ℕ → Read DeltaOp → Read DeltaOp
arm n count m = do require (n == count) cbor_decode; m

unfoldable pub by_kind : ℕ → Bytes → Read DeltaOp
by_kind n kind =
    if bytes_eq kind (codes "profile_updated")
    then arm n 2 read_profile_wire
    else if bytes_eq kind (codes "profile_cleared")
    then arm n 1 (pure profile_cleared)
    else if bytes_eq kind (codes "relationship_upserted")
    then arm n 2 read_record
    else if bytes_eq kind (codes "relationship_removed")
    then arm n 2 read_removed
    else if bytes_eq kind (codes "retired_observed")
    then arm n 2 read_retired
    else if bytes_eq kind (codes "lifecycle_changed")
    then arm n 2 read_state
    else if bytes_eq kind (codes "cohol_added")
    then arm n 3 read_added
    else if bytes_eq kind (codes "cohol_removed")
    then arm n 2 read_holder
    else fail cbor_decode

unfoldable pub body : Read DeltaOp
body = do
  n ← read_map_header
  require (not (n == 0)) cbor_decode
  expect_key (codes "kind")
  kind ← read_text
  by_kind n kind

-- The widths that Rust's types give the fields.
abbrev pub Valid : DeltaOp → Type 0
Valid (profile_updated wire) = IsBlob wire
Valid profile_cleared = Unit {0}
Valid (relationship_upserted r) = Relationship.Valid r
Valid (relationship_removed a) = IsArray 32 a
Valid (retired_observed a) = IsArray 32 a
Valid (lifecycle_changed s) = IsText s
Valid (co_holder_added d a) = IsText a × IsArray 32 d
Valid (co_holder_removed d) = IsArray 32 d
