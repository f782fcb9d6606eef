-- ===== src/Messages/HelloBack.antt =====
-- `HelloBackPayload` of crates/sidevers-core/src/messages/handshake.rs.
use sidevers_protocol.Cbor.Array.{
  array, IsText, text_codec, uint_codec, fixed_codec, IsU64, IsTexts,
}
use sidevers_protocol.Cbor.Boolean.{bool_codec, IsFlag}
use sidevers_protocol.Cbor.Codec.{decode_whole, decode_whole_iff, Codec}
use sidevers_protocol.Cbor.Dictionary.{
  encode_dictionary, read_dictionary, IsSortedMap, dictionary_codec,
}
use sidevers_protocol.Cbor.Field.{
  expect_count, expect_key, read_fixed, read_array, encode_array, flat, encode_map-flat, IsArray,
}
use sidevers_protocol.Cbor.Nullable.{read_nullable, encode_nullable, OnSome, optional_text}
use sidevers_protocol.Cbor.Reader.{
  ◌>>=◌, ◌>>◌, usize_mod, Read, pure, read_u64, read_text, read_bool,
}
use sidevers_protocol.Cbor.Reads.{Reads-pure, Parses-pure, Reads, Parses}
use sidevers_protocol.Cbor.Struct.{Reads-map, Parses-map, Reads-field, Parses-field}
use sidevers_protocol.Cbor.Utf8.{valid_utf8}
use sidevers_protocol.Cbor.Writer.{Bytes, uint, bytes, text, boolean, encode_map, MapEntry}
use sidevers_protocol.Common.{
  IsBytes, codes, ℕ, ◌<◌, ◌≡◌, refl, sym, ◌↔◌, Bool, Option, List, [], ◌∷◌, arith, length,
}
use sidevers_protocol.Errors.{Error, Result, ok}

pub record HelloBackPayload : Type 0 where
  pub v : ℕ
  pub accept : Bool
  pub reason : Option Bytes
  pub eph_pub : Bytes
  pub extensions : List Bytes
  pub capabilities : List (Bytes × ℕ)

abbrev pub entries : HelloBackPayload → List MapEntry
entries p =
    record { key = text (codes "v"); value = uint p.v }
    ∷ record { key = text (codes "accept"); value = boolean p.accept }
    ∷ record { key = text (codes "reason"); value = encode_nullable text p.reason }
    ∷ record { key = text (codes "eph_pub"); value = bytes p.eph_pub }
    ∷ record { key = text (codes "extensions"); value = encode_array text p.extensions }
    ∷ record {
      key = text (codes "capabilities");
      value = encode_dictionary uint_codec p.capabilities;
    }
    ∷ []

unfoldable pub encode : HelloBackPayload → Bytes
encode p = encode_map (entries p)

unfoldable pub body : Read HelloBackPayload
body = do
  expect_count 6
  expect_key (codes "v")
  v ← read_u64
  expect_key (codes "accept")
  accept ← read_bool
  expect_key (codes "reason")
  reason ← read_nullable read_text
  expect_key (codes "eph_pub")
  eph_pub ← read_fixed "eph_pub" 32
  expect_key (codes "extensions")
  extensions ← read_array read_text
  expect_key (codes "capabilities")
  capabilities ← read_dictionary uint_codec
  pure (record {
    v = v;
    accept = accept;
    reason = reason;
    eph_pub = eph_pub;
    extensions = extensions;
    capabilities = capabilities;
  })

abbrev pub Valid : HelloBackPayload → Type 0
Valid p =
    IsU64 p.v
    × IsFlag p.accept
    × OnSome IsText p.reason
    × IsArray 32 p.eph_pub
    × IsTexts p.extensions
    × IsSortedMap uint_codec p.capabilities

reads : (p : HelloBackPayload) → Valid p → Reads body (encode p) p
unfolding body encode flat valid_utf8
reads p h = rw (encode_map-flat (entries p)) (
    Reads-map 6 _ (omega arith) (
      Reads-field (codes "v") (uint_codec) _ p.v (omega arith, refl) h.0
        (Reads-field (codes "accept") (bool_codec) _ p.accept (omega arith, refl) h.1
          (Reads-field (codes "reason") (optional_text) _ p.reason (omega arith, refl) h.2
            (Reads-field (codes "eph_pub") (fixed_codec "eph_pub" 32 (omega arith)) _ p.eph_pub
              (omega arith, refl) h.3
              (Reads-field (codes "extensions") (array text_codec) _ p.extensions
                (omega arith, refl) h.4
                (Reads-field (codes "capabilities") (dictionary_codec uint_codec) _ p.capabilities
                  (omega arith, refl) h.5 (Reads-pure p))))))))

parses : Parses body (λ p bs. Valid p × (bs ≡ encode p))
unfolding body encode flat
parses = Parses-map 6 _ (
    Parses-field (codes "v") (uint_codec) _ λ x0 h0.
      Parses-field (codes "accept") (bool_codec) _ λ x1 h1.
        Parses-field (codes "reason") (optional_text) _ λ x2 h2.
          Parses-field (codes "eph_pub") (fixed_codec "eph_pub" 32 (omega arith)) _ λ x3 h3.
            Parses-field (codes "extensions") (array text_codec) _ λ x4 h4.
              Parses-field (codes "capabilities") (dictionary_codec uint_codec) _
                λ x5 h5. Parses-pure _ ((h0, h1, h2, h3, h4, h5), sym (encode_map-flat _)))

abbrev codec : Codec HelloBackPayload
codec = record { encode = encode; body = body; Valid = Valid; reads = reads; parses = parses }

unfoldable pub decode : Bytes → Result Error HelloBackPayload
decode bs = decode_whole body bs

-- From bytes that fit the address space, the decoder gives `p` exactly if `p` can be encoded and the
-- bytes are its encoding.
pub hello_back_iff :
    (bs : Bytes) (p : HelloBackPayload)
    → IsBytes bs
    → length bs < usize_mod
    → (decode bs ≡ ok p) ↔ Valid p × (bs ≡ encode p)
unfolding decode
hello_back_iff bs p hb fits = decode_whole_iff codec bs p hb fits
