-- ===== src/Verse/Policies.antt =====
-- `PolicyClause` of crates/sidevers-core/src/verse.rs.
use sidevers_protocol.Cbor.Array.{IsText, text_codec}
use sidevers_protocol.Cbor.Codec.{Codec}
use sidevers_protocol.Cbor.Dictionary.{
  encode_dictionary, read_dictionary, IsSortedMap, dictionary_codec,
}
use sidevers_protocol.Cbor.Field.{expect_count, expect_key, flat, encode_map-flat}
use sidevers_protocol.Cbor.Reader.{◌>>=◌, ◌>>◌, max_cbor_entries, Read, pure, read_text}
use sidevers_protocol.Cbor.Reads.{Reads-pure, Parses-pure, Reads, Parses}
use sidevers_protocol.Cbor.Struct.{Reads-map, Parses-map, Reads-field, Parses-field}
use sidevers_protocol.Cbor.Utf8.{valid_utf8}
use sidevers_protocol.Cbor.Writer.{Bytes, text, encode_map, MapEntry}
use sidevers_protocol.Common.{codes, ◌≤◌, ◌≡◌, refl, sym, List, [], ◌∷◌, arith, length, All}
use sidevers_protocol.Verse.{PolicyClause}

abbrev pub entries : PolicyClause → List MapEntry
entries p =
    record { key = text (codes "kind"); value = text p.kind }
    ∷ record { key = text (codes "params"); value = encode_dictionary text_codec p.params }
    ∷ []

unfoldable pub encode : PolicyClause → Bytes
encode p = encode_map (entries p)

unfoldable pub body : Read PolicyClause
body = do
  expect_count 2
  expect_key (codes "kind")
  kind ← read_text
  expect_key (codes "params")
  params ← read_dictionary text_codec
  pure (record { kind = kind; params = params })

abbrev pub Valid : PolicyClause → Type 0
Valid p = IsText p.kind × IsSortedMap text_codec p.params

pub reads : (p : PolicyClause) → Valid p → Reads body (encode p) p
unfolding body encode flat valid_utf8
reads p h = rw (encode_map-flat (entries p)) (
    Reads-map 2 _ (omega arith) (
      Reads-field (codes "kind") (text_codec) _ p.kind (omega arith, refl) h.0
        (Reads-field (codes "params") (dictionary_codec text_codec) _ p.params (omega arith, refl)
          h.1 (Reads-pure p))))

pub parses : Parses body (λ p bs. Valid p × (bs ≡ encode p))
unfolding body encode flat
parses = Parses-map 2 _ (
    Parses-field (codes "kind") (text_codec) _ λ x0 h0.
      Parses-field (codes "params") (dictionary_codec text_codec) _
        λ x1 h1. Parses-pure _ ((h0, h1), sym (encode_map-flat _)))

abbrev pub codec : Codec PolicyClause
codec = record { encode = encode; body = body; Valid = Valid; reads = reads; parses = parses }

-- An array of them can be encoded.
abbrev pub ArePolicies : List PolicyClause → Type 0
ArePolicies xs = (length xs ≤ max_cbor_entries) × All Valid xs
