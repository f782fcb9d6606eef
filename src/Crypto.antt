-- ===== src/Crypto.antt =====
-- What crates/sidevers-core takes from the crates `blake3` and `ed25519-dalek`: a hash, signing keys,
-- verifying keys and signatures, with the documented behaviour that the code relies on.
use sidevers_protocol.Cbor.Field.{IsArray}
use sidevers_protocol.Cbor.Writer.{Bytes}
use sidevers_protocol.Common.{◌≡◌, Bool, true}

pub record Crypto : Type 1 where
  -- `blake3::hash`
  pub blake3 : Bytes → Bytes
  -- `SigningKey`, `SigningKey::verifying_key().to_bytes()` and `SigningKey::sign(..).to_bytes()`
  pub SigningKey : Type 0
  pub public_bytes : SigningKey → Bytes
  pub sign : SigningKey → Bytes → Bytes
  -- `VerifyingKey::from_bytes(..).is_ok()` and `VerifyingKey::verify(..).is_ok()`
  pub valid_key : Bytes → Bool
  pub verify : Bytes → Bytes → Bytes → Bool

-- A public key is 32 bytes and decodes, a signature is 64 bytes and verifies.
pub record IsSound (c : Crypto) : Type 0 where
  pub key_array : (k : c.SigningKey) → IsArray 32 (c.public_bytes k)
  pub key_valid : (k : c.SigningKey) → c.valid_key (c.public_bytes k) ≡ true
  pub sign_array : (k : c.SigningKey) (m : Bytes) → IsArray 64 (c.sign k m)
  pub sign_valid :
      (k : c.SigningKey) (m : Bytes) → c.verify (c.public_bytes k) m (c.sign k m) ≡ true
