-- ===== src/Envelope/Verify.antt =====
-- Parsing and verifying in crates/sidevers-core/src/envelope.rs: what `sign_with` makes is accepted,
-- and what `from_wire_bytes` accepts is canonical, of this version, and signed.
use sidevers_protocol.Cbor.Codec.{decode_whole, decode_whole-Reads, decode_whole-Parses}
use sidevers_protocol.Cbor.Field.{IsArray}
use sidevers_protocol.Cbor.Reader.{usize_mod}
use sidevers_protocol.Cbor.Writer.{Bytes}
use sidevers_protocol.Common.{
  bytes_eq, IsBytes, bytes_eq_self, ℕ, ◌^◌, ◌≤◌, ◌<◌, ◌≡◌, refl, true, Option, arith, ◌==◌, ==_iff,
  length,
}
use sidevers_protocol.Crypto.{Crypto, IsSound}
use sidevers_protocol.Envelope.{
  Envelope, protocol_version, encode_unsigned, to_wire_bytes, fields, nonce_len,
}
use sidevers_protocol.Envelope.Signed.{
  signature_holds, verify_fields, check_canonical, from_wire_bytes, sign_with,
}
use sidevers_protocol.Envelope.Wire.{IsEnvelope, IsAddress, Reads-fields, Parses-fields}
use sidevers_protocol.Errors.{◌>>=◌, guard-eq-ok, bind-eq-ok, Error, Result, ok, err}

module _ (c : Crypto) where
  -- What the checks on the fields establish.
  pub record IsVerified (e : Envelope) : Type 0 where
    pub version : e.version ≡ protocol_version
    pub key : c.valid_key e.from ≡ true
    pub signature : signature_holds c e ≡ true

  verify_fields-ok : (e : Envelope) → IsVerified e → verify_fields c e ≡ ok e
  unfolding verify_fields
  verify_fields-ok e h = rw ((==_iff e.version protocol_version).1 h.version, h.key, h.signature)

  verify_fields-eq-ok :
      (e : Envelope) {f : Envelope} → verify_fields c e ≡ ok f → IsVerified e × (f ≡ e)
  unfolding verify_fields
  verify_fields-eq-ok e h =
      let (v, h₁) = guard-eq-ok (e.version == protocol_version) _ h in
      let (k, h₂) = guard-eq-ok (c.valid_key e.from) _ h₁ in
      let (s, h₃) = guard-eq-ok (signature_holds c e) _ h₂ in
      (record { version = (==_iff e.version protocol_version).0 v; key = k; signature = s }, cc)

  check_canonical-ok : (e : Envelope) → check_canonical c (to_wire_bytes e) e ≡ ok e
  unfolding check_canonical
  check_canonical-ok e = rw bytes_eq_self

  -- A well-formed envelope of this version, whose key decodes and whose signature verifies, is read
  -- back from its own wire bytes.
  pub from_wire_bytes-to_wire_bytes :
      (e : Envelope)
      → IsEnvelope e
      → IsVerified e
      → length (to_wire_bytes e) < usize_mod
      → from_wire_bytes c (to_wire_bytes e) ≡ ok e
  unfolding from_wire_bytes
  from_wire_bytes-to_wire_bytes e he hv fits =
      rw
        (
          decode_whole-Reads fields (to_wire_bytes e) e (Reads-fields e he) fits,
          verify_fields-ok e hv,
        )
        (check_canonical-ok e)

  signature_of_unsigned :
      IsSound c
      → (t : ℕ) (side : c.SigningKey) (to : Option Bytes) (payload : Bytes) (ts : ℕ) (nonce : Bytes)
      → signature_holds c (sign_with c t side to payload ts nonce) ≡ true
  unfolding signature_holds sign_with encode_unsigned
  signature_of_unsigned s t side to payload ts nonce = s.sign_valid side _

  -- With a sound cryptographic library, every envelope that `sign_with` makes of fields of the right
  -- widths is accepted by `from_wire_bytes` with all its fields.
  pub from_wire_bytes-sign_with :
      IsSound c
      → (t : ℕ) (side : c.SigningKey) (to : Option Bytes) (payload : Bytes) (ts : ℕ) (nonce : Bytes)
      → t ≤ 0xff
      → IsAddress to
      → (length payload < 2 ^ 64) × IsBytes payload
      → ts < 2 ^ 64
      → IsArray nonce_len nonce
      → length (to_wire_bytes (sign_with c t side to payload ts nonce)) < usize_mod
      → from_wire_bytes c (to_wire_bytes (sign_with c t side to payload ts nonce))
        ≡ ok (sign_with c t side to payload ts nonce)
  from_wire_bytes-sign_with s t side to payload ts nonce ht hto hp hts hn fits =
      from_wire_bytes-to_wire_bytes (sign_with c t side to payload ts nonce)
        (unfold sign_with in
          record {
            version = omega arith;
            message_type = ht;
            from = s.key_array side;
            to = hto;
            timestamp = hts;
            nonce = hn;
            payload_length = hp.0;
            payload_bytes = hp.1;
            sig = s.sign_array side _;
          })
        (record {
          version = unfold sign_with in refl;
          key = unfold sign_with in s.key_valid side;
          signature = signature_of_unsigned s t side to payload ts nonce;
        })
        fits

  -- Whatever bytes `from_wire_bytes` accepts are the wire bytes of the envelope that it returns, and
  -- that envelope has fields of the right widths, this version, a valid key and a valid signature.
  pub from_wire_bytes_sound :
      (bs : Bytes) (e : Envelope)
      → IsBytes bs
      → from_wire_bytes c bs ≡ ok e
      → (bs ≡ to_wire_bytes e) × IsEnvelope e × IsVerified e
  unfolding from_wire_bytes check_canonical
  from_wire_bytes_sound bs e hb h =
      let (f, hf, h₁) = bind-eq-ok (decode_whole fields bs) _ h in
      let (g, hg, h₂) = bind-eq-ok (verify_fields c f) _ h₁ in
      let (_, h₃) = guard-eq-ok (bytes_eq (to_wire_bytes g) bs) _ h₂ in
      let (hv, eg) = verify_fields-eq-ok f hg in
      let (he, ebs) = decode_whole-Parses fields bs f Parses-fields hb hf in
      let ef : e ≡ f = cc in (rw ef ebs, rw ef he, rw ef hv)

  recheck :
      (bs : Bytes) (e : Envelope) (r : Result Error Envelope)
      → verify_fields c e ≡ r
      → bs ≡ to_wire_bytes e
      → (r >>= check_canonical c bs) ≡ r
  recheck bs e (err x) h eb = refl
  recheck bs e (ok g) h eb =
      let eg = (verify_fields-eq-ok e h).1 in rw (eb, ← eg) (check_canonical-ok g)

  -- On bytes, the last comparison of `from_wire_bytes` never changes its answer: what the reader and
  -- the checks on the fields let through is canonical already.
  pub canonical_check_redundant :
      (bs : Bytes)
      → IsBytes bs
      → from_wire_bytes c bs ≡ (decode_whole fields bs >>= verify_fields c)
  unfolding from_wire_bytes
  canonical_check_redundant bs hb = go (decode_whole fields bs) refl
    where
      go :
          (r : Result Error Envelope)
          → decode_whole fields bs ≡ r
          → (r >>= λ e. verify_fields c e >>= check_canonical c bs) ≡ (r >>= verify_fields c)
      go (err x) h = refl
      go (ok e) h =
          recheck bs e (verify_fields c e) refl
            (decode_whole-Parses fields bs e Parses-fields hb h).1
