-- ===== src/Envelope.antt =====
-- crates/sidevers-core/src/envelope.rs: the signed envelope, its two encodings, parsing and
-- verification, freshness, and the categories of message types. The children hold the proofs.
pub mod Signed
pub mod Wire
pub mod Verify
pub mod Unsigned
pub mod Checks
use sidevers_protocol.Cbor.Codec.{value}
use sidevers_protocol.Cbor.Field.{expect_count, expect_key, read_fixed}
use sidevers_protocol.Cbor.Optional.{bytes_or_null, read_u8}
use sidevers_protocol.Cbor.Reader.{
  ◌>>=◌, ◌>>◌, Read, pure, require, read_u64, read_bytes, read_bytes_or_null,
}
use sidevers_protocol.Cbor.Writer.{Bytes, key, uint, bytes, encode_map, MapEntry}
use sidevers_protocol.Common.{
  codes, ℕ, ◌-◌, String, Option, none, some, List, [], ◌∷◌, ltb, leb, ◌==◌, if◌then◌else◌, length,
}
use sidevers_protocol.Errors.{Error, timestamp_skewed, bad_field_length, Result, ok, err}

abbrev pub protocol_version : ℕ
protocol_version = 1

abbrev pub nonce_len : ℕ
nonce_len = 16

abbrev pub public_key_len : ℕ
public_key_len = 32

abbrev pub signature_len : ℕ
signature_len = 64

-- A message type is one byte.
pub record Envelope : Type 0 where
  pub version : ℕ
  pub message_type : ℕ
  pub from : Bytes
  pub to : Option Bytes
  pub timestamp : ℕ
  pub nonce : Bytes
  pub payload : Bytes
  pub sig : Bytes

abbrev pub entry : String → Bytes → MapEntry
entry k v = record { key = key (codes k); value = v }

-- The seven entries that are signed, and the eight that travel, in canonical key order.
abbrev pub unsigned_entries : Envelope → List MapEntry
unsigned_entries e =
    entry "t" (uint e.message_type)
    ∷ entry "v" (uint e.version)
    ∷ entry "to" (bytes_or_null e.to)
    ∷ entry "ts" (uint e.timestamp)
    ∷ entry "from" (bytes e.from)
    ∷ entry "nonce" (bytes e.nonce)
    ∷ entry "payload" (bytes e.payload)
    ∷ []

abbrev pub wire_entries : Envelope → List MapEntry
wire_entries e =
    entry "t" (uint e.message_type)
    ∷ entry "v" (uint e.version)
    ∷ entry "to" (bytes_or_null e.to)
    ∷ entry "ts" (uint e.timestamp)
    ∷ entry "sig" (bytes e.sig)
    ∷ entry "from" (bytes e.from)
    ∷ entry "nonce" (bytes e.nonce)
    ∷ entry "payload" (bytes e.payload)
    ∷ []

-- `encode_unsigned` does not look at the signature.
unfoldable pub encode_unsigned : Envelope → Bytes
encode_unsigned e = encode_map (unsigned_entries e)

unfoldable pub to_wire_bytes : Envelope → Bytes
to_wire_bytes e = encode_map (wire_entries e)

unfoldable pub check_address : Option Bytes → Read (Option Bytes)
check_address none = pure none
check_address (some b) = do
  require (length b == public_key_len) (bad_field_length "to" public_key_len (length b))
  pure (some b)

-- The arm `"to"` of the loop.
unfoldable pub read_to : Read (Option Bytes)
read_to = do o ← read_bytes_or_null; check_address o

-- The loop over the expected keys of `from_wire_bytes`, unrolled.
unfoldable pub fields : Read Envelope
fields = do
  expect_count 8
  expect_key (codes "t")
  t ← read_u8
  expect_key (codes "v")
  v ← read_u64
  expect_key (codes "to")
  to ← read_to
  expect_key (codes "ts")
  ts ← read_u64
  expect_key (codes "sig")
  sig ← read_fixed "sig" signature_len
  expect_key (codes "from")
  from ← read_fixed "from" public_key_len
  expect_key (codes "nonce")
  nonce ← read_fixed "nonce" nonce_len
  expect_key (codes "payload")
  payload ← read_bytes
  pure (record {
    version = v;
    message_type = t;
    from = from;
    to = to;
    timestamp = ts;
    nonce = nonce;
    payload = payload;
    sig = sig;
  })

-- `u64::abs_diff`
unfoldable pub abs_diff : ℕ → ℕ → ℕ
abs_diff a b = if leb b a then a - b else b - a

unfoldable pub check_freshness : Envelope → ℕ → ℕ → Result Error (Unit {0})
check_freshness e now max_skew_secs =
    if ltb max_skew_secs (abs_diff now e.timestamp)
    then err (timestamp_skewed max_skew_secs)
    else ok tt

-- The ranges of the message types.
pub data MessageCategory : Type 0 where
  reserved handshake direct storage discovery verse public future extension : MessageCategory

unfoldable pub category : ℕ → MessageCategory
category t =
    if leb t 0x0f
    then reserved
    else if leb t 0x1f
    then handshake
    else if leb t 0x2f
    then direct
    else if leb t 0x3f
    then storage
    else if leb t 0x4f
    then discovery
    else if leb t 0x5f
    then verse
    else if leb t 0x6f
    then public
    else if leb t 0xef
    then future
    else extension
