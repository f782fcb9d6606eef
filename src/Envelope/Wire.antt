-- ===== src/Envelope/Wire.antt =====
-- The fields of an envelope in crates/sidevers-core/src/envelope.rs: the encoder and the loop that
-- reads them agree, so `fields` accepts exactly the encodings; and the signed bytes name every field.
use sidevers_protocol.Cbor.Array.{fixed_codec, uint_codec, bytes_codec}
use sidevers_protocol.Cbor.Codec.{Codec}
use sidevers_protocol.Cbor.Field.{flat, IsKey, IsArray, encode_map-flat}
use sidevers_protocol.Cbor.Optional.{
  bytes_or_null, Reads-or_null, AllSome, Parses-or_null, u8_codec,
}
use sidevers_protocol.Cbor.Reader.{◌>>=◌, read_bytes_or_null}
use sidevers_protocol.Cbor.Reads.{
  Reads-bind, Parses-bind, Reads-pure, Parses-pure, Parses-mono, Reads-checked, Parses-checked,
  Reads, Parses,
}
use sidevers_protocol.Cbor.Struct.{Reads-map, Parses-map, Reads-field, Parses-field}
use sidevers_protocol.Cbor.Utf8.{valid_utf8}
use sidevers_protocol.Cbor.Writer.{Bytes, key, text}
use sidevers_protocol.Common.{
  IsBytes, codes, ℕ, ◌^◌, ◌≤◌, ◌<◌, String, ◌≡◌, refl, subst, Option, none, some, [], append-nil,
  arith, ◌==◌, ==_iff, length, sym,
}
use sidevers_protocol.Envelope.{
  Envelope, to_wire_bytes, check_address, read_to, fields, public_key_len, signature_len, nonce_len,
  wire_entries,
}

abbrev pub IsAddress : Option Bytes → Type 0
IsAddress o = AllSome (IsArray public_key_len) o

-- The widths that Rust's types give the fields.
pub record IsEnvelope (e : Envelope) : Type 0 where
  pub version : e.version < 2 ^ 64
  pub message_type : e.message_type ≤ 0xff
  pub from : IsArray public_key_len e.from
  pub to : IsAddress e.to
  pub timestamp : e.timestamp < 2 ^ 64
  pub nonce : IsArray nonce_len e.nonce
  pub payload_length : length e.payload < 2 ^ 64
  pub payload_bytes : IsBytes e.payload
  pub sig : IsArray signature_len e.sig

Reads-check_address : (o : Option Bytes) → IsAddress o → Reads (check_address o) [] o
unfolding check_address
Reads-check_address none h = Reads-pure none
Reads-check_address (some b) h = Reads-checked _ (some b) ((==_iff (length b) 32).1 h.0)

address_length : (o : Option Bytes) → IsAddress o → (b : Bytes) → o ≡ some b → length b < 2 ^ 64
address_length none h b e = cc
address_length (some a) h b e = let p : a ≡ b = cc in rw (← p) (omega (arith, h.0))

pub Reads-to : (o : Option Bytes) → IsAddress o → Reads read_to (bytes_or_null o) o
unfolding read_to
Reads-to o h =
    subst (λ (t : Bytes). Reads (read_bytes_or_null >>= check_address) t o)
      (append-nil (bytes_or_null o))
      (Reads-bind read_bytes_or_null check_address (Reads-or_null o (address_length o h))
        (Reads-check_address o h))

Parses-check_address :
    (o : Option Bytes)
    → AllSome (λ b. (length b < 2 ^ 64) × IsBytes b) o
    → Parses (check_address o) (λ p bs. IsAddress p × (bs ≡ []) × (p ≡ o))
unfolding check_address
Parses-check_address none h = Parses-pure none (tt, refl, refl)
Parses-check_address (some b) h =
    Parses-checked (length b == 32) _ (some b)
      (λ e. (((==_iff (length b) 32).0 e, h.1), refl, refl))

pub Parses-to : Parses read_to (λ o bs. IsAddress o × (bs ≡ bytes_or_null o))
unfolding read_to
Parses-to = Parses-bind read_bytes_or_null check_address Parses-or_null λ o xs (ho, ex).
    Parses-mono (check_address o) (λ p ys (hp, ey, ep). (hp, rw (ey, append-nil, ex, ep)))
      (Parses-check_address o ho)

abbrev pub to_codec : Codec (Option Bytes)
to_codec = record {
  encode = bytes_or_null;
  body = read_to;
  Valid = IsAddress;
  reads = Reads-to;
  parses = Parses-to;
}

-- Every key of the envelope is short, well-formed text.
pub keys :
    IsKey (codes "t")
    × IsKey (codes "v")
    × IsKey (codes "to")
    × IsKey (codes "ts")
    × IsKey (codes "sig")
    × IsKey (codes "from")
    × IsKey (codes "nonce")
    × IsKey (codes "payload")
unfolding valid_utf8
keys = (
  (omega arith, refl),
  (omega arith, refl),
  (omega arith, refl),
  (omega arith, refl),
  (omega arith, refl),
  (omega arith, refl),
  (omega arith, refl),
  (omega arith, refl),
)

abbrev pub array : String → (n : ℕ) → n < 2 ^ 64 → Codec Bytes
array = fixed_codec

pub Reads-fields : (e : Envelope) → IsEnvelope e → Reads fields (to_wire_bytes e) e
unfolding fields to_wire_bytes flat key text
Reads-fields e h = rw (encode_map-flat (wire_entries e)) (
    Reads-map 8 _ (omega arith) (
      Reads-field (codes "t") u8_codec _ e.message_type keys.0 h.message_type (
        Reads-field (codes "v") uint_codec _ e.version keys.1 h.version (
          Reads-field (codes "to") to_codec _ e.to keys.2 h.to (
            Reads-field (codes "ts") uint_codec _ e.timestamp keys.3 h.timestamp (
              Reads-field (codes "sig") (array "sig" signature_len (omega arith)) _ e.sig keys.4
                h.sig
                (Reads-field (codes "from") (array "from" public_key_len (omega arith)) _ e.from
                  keys.5 h.from
                  (Reads-field (codes "nonce") (array "nonce" nonce_len (omega arith)) _ e.nonce
                    keys.6 h.nonce
                    (Reads-field (codes "payload") bytes_codec _ e.payload keys.7
                      (h.payload_length, h.payload_bytes) (Reads-pure e))))))))))

pub Parses-fields : Parses fields (λ e bs. IsEnvelope e × (bs ≡ to_wire_bytes e))
unfolding fields to_wire_bytes flat key text
Parses-fields = Parses-map 8 _ (
    Parses-field (codes "t") u8_codec _ (λ t ht. Parses-field (codes "v") uint_codec _ (λ v hv.
      Parses-field (codes "to") to_codec _ (λ to hto.
        Parses-field (codes "ts") uint_codec _ (λ ts hts.
          Parses-field (codes "sig") (array "sig" signature_len (omega arith)) _ (λ sig hsig.
            Parses-field (codes "from") (array "from" public_key_len (omega arith)) _ (λ from hfrom.
              Parses-field (codes "nonce") (array "nonce" nonce_len (omega arith)) _
                (λ nonce hnonce. Parses-field (codes "payload") bytes_codec _ (λ payload hpayload.
                  Parses-pure _ (
                    record {
                      version = hv;
                      message_type = ht;
                      from = hfrom;
                      to = hto;
                      timestamp = hts;
                      nonce = hnonce;
                      payload_length = hpayload.0;
                      payload_bytes = hpayload.1;
                      sig = hsig;
                    },
                    sym (encode_map-flat _),
                  ))))))))))
