-- ===== src/Envelope/Unsigned.antt =====
-- The bytes that are signed in crates/sidevers-core/src/envelope.rs name every field but the signature.
use sidevers_protocol.Cbor.Array.{uint_codec, bytes_codec}
use sidevers_protocol.Cbor.Field.{expect_count, expect_key, read_fixed, flat, encode_map-flat}
use sidevers_protocol.Cbor.Optional.{read_u8, u8_codec}
use sidevers_protocol.Cbor.Reader.{◌>>=◌, ◌>>◌, usize_mod, Read, pure, read_u64, read_bytes}
use sidevers_protocol.Cbor.Reads.{Reads-pure, Reads-injective, Reads}
use sidevers_protocol.Cbor.Struct.{Reads-map, Reads-field}
use sidevers_protocol.Cbor.Writer.{key, text}
use sidevers_protocol.Common.{codes, ◌<◌, ◌≡◌, [], arith, length}
use sidevers_protocol.Envelope.{Envelope, unsigned_entries, encode_unsigned}
use sidevers_protocol.Envelope.Wire.{IsEnvelope, to_codec, array, keys}

-- A reader of the seven signed fields, which the code does not have: it shows that they can be
-- recovered.
unsigned_fields : Read Envelope
unsigned_fields = do
  expect_count 7
  expect_key (codes "t")
  t ← read_u8
  expect_key (codes "v")
  v ← read_u64
  expect_key (codes "to")
  to ← to_codec.body
  expect_key (codes "ts")
  ts ← read_u64
  expect_key (codes "from")
  from ← read_fixed "from" 32
  expect_key (codes "nonce")
  nonce ← read_fixed "nonce" 16
  expect_key (codes "payload")
  payload ← read_bytes
  pure (record {
    version = v;
    message_type = t;
    from = from;
    to = to;
    timestamp = ts;
    nonce = nonce;
    payload = payload;
    sig = [];
  })

abbrev pub unsign : Envelope → Envelope
unsign e = record e { sig = [] }

Reads-unsigned :
    (e : Envelope) → IsEnvelope e → Reads unsigned_fields (encode_unsigned e) (unsign e)
unfolding unsigned_fields encode_unsigned flat key text
Reads-unsigned e h = rw (encode_map-flat (unsigned_entries e)) (
    Reads-map 7 _ (omega arith) (
      Reads-field (codes "t") u8_codec _ e.message_type keys.0 h.message_type (
        Reads-field (codes "v") uint_codec _ e.version keys.1 h.version (
          Reads-field (codes "to") to_codec _ e.to keys.2 h.to (
            Reads-field (codes "ts") uint_codec _ e.timestamp keys.3 h.timestamp (
              Reads-field (codes "from") (array "from" 32 (omega arith)) _ e.from keys.5 h.from (
                Reads-field (codes "nonce") (array "nonce" 16 (omega arith)) _ e.nonce keys.6
                  h.nonce
                  (Reads-field (codes "payload") bytes_codec _ e.payload keys.7
                    (h.payload_length, h.payload_bytes) (Reads-pure (unsign e))))))))))

-- Two envelopes whose signed bytes are equal differ at most in their signatures.
pub encode_unsigned-injective :
    (e f : Envelope)
    → IsEnvelope e
    → IsEnvelope f
    → length (encode_unsigned e) < usize_mod
    → encode_unsigned e ≡ encode_unsigned f
    → unsign e ≡ unsign f
encode_unsigned-injective e f he hf fits same =
    Reads-injective unsigned_fields (encode_unsigned e) (unsign e) (unsign f) fits
      (Reads-unsigned e he) (rw same (Reads-unsigned f hf))
