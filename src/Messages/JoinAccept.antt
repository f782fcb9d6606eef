-- ===== src/Messages/JoinAccept.antt =====
-- `JoinAcceptPayload` of crates/sidevers-core/src/messages/verse.rs.
use sidevers_protocol.Cbor.Array.{bytes_codec, fixed_codec}
use sidevers_protocol.Cbor.Codec.{decode_prefix, decode_prefix_iff, Codec}
use sidevers_protocol.Cbor.Field.{
  expect_count, expect_key, read_fixed, flat, encode_map-flat, IsKey, IsArray,
}
use sidevers_protocol.Cbor.Reader.{◌>>=◌, ◌>>◌, usize_mod, Read, pure, read_bytes}
use sidevers_protocol.Cbor.Reads.{Reads-pure, Parses-pure, Reads, Parses}
use sidevers_protocol.Cbor.Struct.{Reads-map, Parses-map, Reads-field, Parses-field}
use sidevers_protocol.Cbor.Utf8.{valid_utf8}
use sidevers_protocol.Cbor.Writer.{bytes, text, Bytes, encode_map, MapEntry}
use sidevers_protocol.Common.{
  IsBytes, codes, ◌^◌, ◌<◌, ◌≡◌, refl, sym, ◌↔◌, List, [], ◌∷◌, ◌++◌, arith, length,
}
use sidevers_protocol.Errors.{Error, Result, ok}

pub record JoinAcceptPayload : Type 0 where
  pub membership_token : Bytes
  pub key_nonce : Bytes
  pub sealed_content_key : Bytes

abbrev pub entries : JoinAcceptPayload → List MapEntry
entries p =
    record { key = text (codes "key_nonce"); value = bytes p.key_nonce }
    ∷ record { key = text (codes "membership_token"); value = bytes p.membership_token }
    ∷ record { key = text (codes "sealed_content_key"); value = bytes p.sealed_content_key }
    ∷ []

unfoldable pub encode : JoinAcceptPayload → Bytes
encode p = encode_map (entries p)

unfoldable pub body : Read JoinAcceptPayload
body = do
  expect_count 3
  expect_key (codes "key_nonce")
  key_nonce ← read_fixed "key_nonce" 16
  expect_key (codes "membership_token")
  membership_token ← read_bytes
  expect_key (codes "sealed_content_key")
  sealed_content_key ← read_bytes
  pure (record {
    membership_token = membership_token;
    key_nonce = key_nonce;
    sealed_content_key = sealed_content_key;
  })

unfoldable pub decode : Bytes → Result Error JoinAcceptPayload
decode bs = decode_prefix body bs

abbrev pub Valid : JoinAcceptPayload → Type 0
Valid p =
    (IsArray 16 p.key_nonce)
    × ((length p.membership_token < 2 ^ 64) × IsBytes p.membership_token)
    × ((length p.sealed_content_key < 2 ^ 64) × IsBytes p.sealed_content_key)

sealing_nonce-IsKey : IsKey (codes "key_nonce")
unfolding valid_utf8
sealing_nonce-IsKey = (omega arith, refl)

membership_token-IsKey : IsKey (codes "membership_token")
unfolding valid_utf8
membership_token-IsKey = (omega arith, refl)

sealed_content-IsKey : IsKey (codes "sealed_content_key")
unfolding valid_utf8
sealed_content-IsKey = (omega arith, refl)

reads : (p : JoinAcceptPayload) → Valid p → Reads body (encode p) p
unfolding body encode flat
reads p h = rw (encode_map-flat (entries p)) (
    Reads-map 3 _ (omega arith) (
      Reads-field (codes "key_nonce") (fixed_codec "key_nonce" 16 (omega arith)) _ p.key_nonce
        sealing_nonce-IsKey h.0
        (Reads-field (codes "membership_token") (bytes_codec) _ p.membership_token
          membership_token-IsKey h.1
          (Reads-field (codes "sealed_content_key") (bytes_codec) _ p.sealed_content_key
            sealed_content-IsKey h.2 (Reads-pure p)))))

parses : Parses body (λ p bs. Valid p × (bs ≡ encode p))
unfolding body encode flat
parses = Parses-map 3 _ (
    Parses-field (codes "key_nonce") (fixed_codec "key_nonce" 16 (omega arith)) _ λ x0 h0.
      Parses-field (codes "membership_token") (bytes_codec) _ λ x1 h1.
        Parses-field (codes "sealed_content_key") (bytes_codec) _
          λ x2 h2. Parses-pure _ ((h0, h1, h2), sym (encode_map-flat _)))

abbrev codec : Codec JoinAcceptPayload
codec = record { encode = encode; body = body; Valid = Valid; reads = reads; parses = parses }

-- From bytes that fit the address space, the decoder gives `p` exactly if `p` can be encoded and the
-- bytes begin with its encoding.
pub join_accept_iff :
    (bs : Bytes) (p : JoinAcceptPayload)
    → IsBytes bs
    → length bs < usize_mod
    → (decode bs ≡ ok p) ↔ Valid p × ((junk : Bytes) × (bs ≡ encode p ++ junk))
unfolding decode
join_accept_iff bs p hb fits = decode_prefix_iff codec bs p hb fits
