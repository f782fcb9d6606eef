-- ===== src/Messages/JoinRequest.antt =====
-- `JoinRequestPayload` of crates/sidevers-core/src/messages/verse.rs.
use sidevers_protocol.Cbor.Array.{text_codec, fixed_codec}
use sidevers_protocol.Cbor.Codec.{decode_prefix, Codec}
use sidevers_protocol.Cbor.Dictionary.{
  encode_dictionary, read_dictionary, IsSortedMap, dictionary_codec,
}
use sidevers_protocol.Cbor.Field.{
  expect_count, expect_key, read_fixed, flat, encode_map-flat, IsArray,
}
use sidevers_protocol.Cbor.Reader.{◌>>=◌, ◌>>◌, usize_mod, Read, pure}
use sidevers_protocol.Cbor.Reads.{Reads-pure, Parses-pure, Reads, Parses}
use sidevers_protocol.Cbor.Struct.{Reads-map, Parses-map, Reads-field, Parses-field}
use sidevers_protocol.Cbor.Utf8.{valid_utf8}
use sidevers_protocol.Cbor.Writer.{Bytes, bytes, text, encode_map, MapEntry}
use sidevers_protocol.Common.{
  IsBytes, codes, ◌<◌, ◌≡◌, refl, sym, ◌↔◌, List, [], ◌∷◌, ◌++◌, arith, length,
}
use sidevers_protocol.Crypto.{Crypto, IsSound}
use sidevers_protocol.Errors.{Error, Result, ok}
use sidevers_protocol.Signing.{
  and_then, check_signature, IsSigned, check_signature-ok, check_signature-eq-ok, sign-IsSigned,
  checked_prefix_iff, checked_prefix-encode,
}

pub record JoinRequestPayload : Type 0 where
  pub contract_hash : Bytes
  pub side : Bytes
  pub fields : List (Bytes × Bytes)
  pub signature : Bytes

abbrev pub unsigned_entries : JoinRequestPayload → List MapEntry
unsigned_entries p =
    record { key = text (codes "side"); value = bytes p.side }
    ∷ record { key = text (codes "fields"); value = encode_dictionary text_codec p.fields }
    ∷ record { key = text (codes "contract_hash"); value = bytes p.contract_hash }
    ∷ []

abbrev pub entries : JoinRequestPayload → List MapEntry
entries p =
    record { key = text (codes "side"); value = bytes p.side }
    ∷ record { key = text (codes "fields"); value = encode_dictionary text_codec p.fields }
    ∷ record { key = text (codes "signature"); value = bytes p.signature }
    ∷ record { key = text (codes "contract_hash"); value = bytes p.contract_hash }
    ∷ []

-- `encode_unsigned` does not look at the signature.
unfoldable pub encode_unsigned : JoinRequestPayload → Bytes
encode_unsigned p = encode_map (unsigned_entries p)

unfoldable pub encode : JoinRequestPayload → Bytes
encode p = encode_map (entries p)

unfoldable pub body : Read JoinRequestPayload
body = do
  expect_count 4
  expect_key (codes "side")
  side ← read_fixed "side" 32
  expect_key (codes "fields")
  fields ← read_dictionary text_codec
  expect_key (codes "signature")
  signature ← read_fixed "signature" 64
  expect_key (codes "contract_hash")
  contract_hash ← read_fixed "contract_hash" 32
  pure (record {
    contract_hash = contract_hash;
    side = side;
    fields = fields;
    signature = signature;
  })

abbrev pub Valid : JoinRequestPayload → Type 0
Valid p =
    IsArray 32 p.side
    × IsSortedMap text_codec p.fields
    × IsArray 64 p.signature
    × IsArray 32 p.contract_hash

reads : (p : JoinRequestPayload) → Valid p → Reads body (encode p) p
unfolding body encode flat valid_utf8
reads p h = rw (encode_map-flat (entries p)) (
    Reads-map 4 _ (omega arith) (
      Reads-field (codes "side") (fixed_codec "side" 32 (omega arith)) _ p.side (omega arith, refl)
        h.0
        (Reads-field (codes "fields") (dictionary_codec text_codec) _ p.fields (omega arith, refl)
          h.1
          (Reads-field (codes "signature") (fixed_codec "signature" 64 (omega arith)) _ p.signature
            (omega arith, refl) h.2
            (Reads-field (codes "contract_hash") (fixed_codec "contract_hash" 32 (omega arith)) _
              p.contract_hash (omega arith, refl) h.3 (Reads-pure p))))))

parses : Parses body (λ p bs. Valid p × (bs ≡ encode p))
unfolding body encode flat
parses = Parses-map 4 _ (
    Parses-field (codes "side") (fixed_codec "side" 32 (omega arith)) _ λ x0 h0.
      Parses-field (codes "fields") (dictionary_codec text_codec) _ λ x1 h1.
        Parses-field (codes "signature") (fixed_codec "signature" 64 (omega arith)) _ λ x2 h2.
          Parses-field (codes "contract_hash") (fixed_codec "contract_hash" 32 (omega arith)) _
            λ x3 h3. Parses-pure _ ((h0, h1, h2, h3), sym (encode_map-flat _)))

abbrev codec : Codec JoinRequestPayload
codec = record { encode = encode; body = body; Valid = Valid; reads = reads; parses = parses }

module _ (c : Crypto) where
  unfoldable pub sign : c.SigningKey → Bytes → List (Bytes × Bytes) → JoinRequestPayload
  sign side_key contract_hash fields =
      let unsigned : JoinRequestPayload = record {
        contract_hash = contract_hash;
        side = c.public_bytes side_key;
        fields = fields;
        signature = [];
      } in
      record unsigned { signature = c.sign side_key (c.blake3 (encode_unsigned unsigned)) }

  -- The signature by `side` of the digest of the other fields.
  abbrev pub Authentic : JoinRequestPayload → Type 0
  Authentic p = IsSigned c p.side (encode_unsigned p) p.signature

  abbrev check : JoinRequestPayload → Result Error (Unit {0})
  check p = check_signature c p.side (encode_unsigned p) p.signature

  unfoldable pub decode : Bytes → Result Error JoinRequestPayload
  decode bs =
      and_then (decode_prefix body bs)
        λ p. and_then (check_signature c p.side (encode_unsigned p) p.signature) λ _. ok p

  -- From bytes that fit the address space, the decoder gives `p` exactly if `p` can be encoded, the
  -- bytes begin with its encoding and its signature holds.
  pub join_request_iff :
      (bs : Bytes) (p : JoinRequestPayload)
      → IsBytes bs
      → length bs < usize_mod
      → (decode bs ≡ ok p) ↔ Valid p × ((junk : Bytes) × (bs ≡ encode p ++ junk)) × Authentic p
  unfolding decode
  join_request_iff bs p hb fits =
      let (f, g) = checked_prefix_iff codec check bs p hb fits in
      (
        λ e. let (v, s, k) = f e in (v, s, check_signature-eq-ok c p.side _ _ k),
        λ (v, s, k). g (v, s, check_signature-ok c p.side _ _ k),
      )

  -- What is signed of fields of the right widths is accepted with them.
  pub sign-join_request :
      IsSound c
      → (side_key : c.SigningKey) (p : JoinRequestPayload) → Valid p
      → length (encode (sign side_key p.contract_hash p.fields)) < usize_mod
      → decode (encode (sign side_key p.contract_hash p.fields))
        ≡ ok (sign side_key p.contract_hash p.fields)
  unfolding decode sign encode_unsigned
  sign-join_request s side_key p h fits =
      let signed = sign-IsSigned c s side_key _ in
      checked_prefix-encode codec check _ (s.key_array side_key, h.1, s.sign_array side_key _, h.3)
        (check_signature-ok c _ _ _ signed) fits
