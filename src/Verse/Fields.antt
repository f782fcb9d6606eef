-- ===== src/Verse/Fields.antt =====
-- `FieldSpec` of crates/sidevers-core/src/verse.rs.
use sidevers_protocol.Cbor.Array.{IsText, text_codec}
use sidevers_protocol.Cbor.Codec.{Codec}
use sidevers_protocol.Cbor.Field.{expect_count, expect_key, flat, encode_map-flat}
use sidevers_protocol.Cbor.Nullable.{read_nullable, encode_nullable, OnSome, optional_text}
use sidevers_protocol.Cbor.Reader.{◌>>=◌, ◌>>◌, max_cbor_entries, Read, pure, read_text}
use sidevers_protocol.Cbor.Reads.{Reads-pure, Parses-pure, Reads, Parses}
use sidevers_protocol.Cbor.Struct.{Reads-map, Parses-map, Reads-field, Parses-field}
use sidevers_protocol.Cbor.Utf8.{valid_utf8}
use sidevers_protocol.Cbor.Writer.{Bytes, text, encode_map, MapEntry}
use sidevers_protocol.Common.{codes, ◌≤◌, ◌≡◌, refl, sym, List, [], ◌∷◌, arith, length, All}
use sidevers_protocol.Verse.{FieldSpec}

abbrev pub entries : FieldSpec → List MapEntry
entries p =
    record { key = text (codes "kind"); value = text p.kind }
    ∷ record { key = text (codes "label"); value = text p.label }
    ∷ record { key = text (codes "validator"); value = encode_nullable text p.validator }
    ∷ record { key = text (codes "description"); value = encode_nullable text p.description }
    ∷ []

unfoldable pub encode : FieldSpec → Bytes
encode p = encode_map (entries p)

unfoldable pub body : Read FieldSpec
body = do
  expect_count 4
  expect_key (codes "kind")
  kind ← read_text
  expect_key (codes "label")
  label ← read_text
  expect_key (codes "validator")
  validator ← read_nullable read_text
  expect_key (codes "description")
  description ← read_nullable read_text
  pure (record { kind = kind; label = label; description = description; validator = validator })

abbrev pub Valid : FieldSpec → Type 0
Valid p = IsText p.kind × IsText p.label × OnSome IsText p.validator × OnSome IsText p.description

pub reads : (p : FieldSpec) → Valid p → Reads body (encode p) p
unfolding body encode flat valid_utf8
reads p h = rw (encode_map-flat (entries p)) (
    Reads-map 4 _ (omega arith) (
      Reads-field (codes "kind") (text_codec) _ p.kind (omega arith, refl) h.0
        (Reads-field (codes "label") (text_codec) _ p.label (omega arith, refl) h.1
          (Reads-field (codes "validator") (optional_text) _ p.validator (omega arith, refl) h.2
            (Reads-field (codes "description") (optional_text) _ p.description (omega arith, refl)
              h.3 (Reads-pure p))))))

pub parses : Parses body (λ p bs. Valid p × (bs ≡ encode p))
unfolding body encode flat
parses = Parses-map 4 _ (
    Parses-field (codes "kind") (text_codec) _ λ x0 h0.
      Parses-field (codes "label") (text_codec) _ λ x1 h1.
        Parses-field (codes "validator") (optional_text) _ λ x2 h2.
          Parses-field (codes "description") (optional_text) _
            λ x3 h3. Parses-pure _ ((h0, h1, h2, h3), sym (encode_map-flat _)))

abbrev pub codec : Codec FieldSpec
codec = record { encode = encode; body = body; Valid = Valid; reads = reads; parses = parses }

-- An array of them can be encoded.
abbrev pub AreFields : List FieldSpec → Type 0
AreFields xs = (length xs ≤ max_cbor_entries) × All Valid xs
