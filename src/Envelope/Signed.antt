-- ===== src/Envelope/Signed.antt =====
-- Signing, verifying and parsing in crates/sidevers-core/src/envelope.rs, over the cryptographic
-- library as a parameter. `sign` is `sign_with` at the clock's time and a random nonce.
use sidevers_protocol.Cbor.Codec.{decode_whole}
use sidevers_protocol.Cbor.Writer.{Bytes}
use sidevers_protocol.Common.{bytes_eq, ℕ, Bool, Option, [], ◌==◌}
use sidevers_protocol.Crypto.{Crypto}
use sidevers_protocol.Envelope.{Envelope, protocol_version, encode_unsigned, to_wire_bytes, fields}
use sidevers_protocol.Errors.{
  ◌>>=◌, ◌>>◌, guard, Error, cbor_not_canonical, signature_invalid, unsupported_version, invariant,
  Result, ok,
}

module _ (c : Crypto) where
  -- `PublicKey::verify` on the digest of the unsigned encoding.
  unfoldable pub signature_holds : Envelope → Bool
  signature_holds e = c.verify e.from (c.blake3 (encode_unsigned e)) e.sig

  -- What `from_wire_bytes` does with the fields: the version, the key, the signature.
  unfoldable pub verify_fields : Envelope → Result Error Envelope
  verify_fields e = do
    guard (e.version == protocol_version) (unsupported_version e.version)
    guard (c.valid_key e.from) invariant
    guard (signature_holds e) signature_invalid
    ok e

  -- The last check of `from_wire_bytes`.
  unfoldable pub check_canonical : Bytes → Envelope → Result Error Envelope
  check_canonical bs e = do guard (bytes_eq (to_wire_bytes e) bs) cbor_not_canonical; ok e

  unfoldable pub from_wire_bytes : Bytes → Result Error Envelope
  from_wire_bytes bs = do
    e ← decode_whole fields bs
    verified ← verify_fields e
    check_canonical bs verified

  -- The nonce and the timestamp are arguments, as in `sign_with`.
  unfoldable pub sign_with : ℕ → c.SigningKey → Option Bytes → Bytes → ℕ → Bytes → Envelope
  sign_with message_type side to payload timestamp nonce =
      let unsigned : Envelope = record {
        version = protocol_version;
        message_type = message_type;
        from = c.public_bytes side;
        to = to;
        timestamp = timestamp;
        nonce = nonce;
        payload = payload;
        sig = [];
      } in
      record unsigned { sig = c.sign side (c.blake3 (encode_unsigned unsigned)) }
