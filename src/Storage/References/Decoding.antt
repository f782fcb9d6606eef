-- ===== src/Storage/References/Decoding.antt =====
-- What the decoder of crates/sidevers-storage/src/reference.rs accepts.
use sidevers_protocol.Cbor.Array.{array, uint_codec, fixed_codec, text_codec, IsText}
use sidevers_protocol.Cbor.Codec.{decode_prefix_iff, Codec}
use sidevers_protocol.Cbor.Field.{encode_array, concat_map, flat, encode_map-flat, IsKey, IsArray}
use sidevers_protocol.Cbor.Reader.{usize_mod, max_cbor_entries}
use sidevers_protocol.Cbor.Reads.{Reads-pure, Parses-pure, Parses-fail, Reads, Parses}
use sidevers_protocol.Cbor.Struct.{Reads-map, Parses-map, Reads-field, Parses-field}
use sidevers_protocol.Cbor.Utf8.{valid_utf8}
use sidevers_protocol.Cbor.Writer.{Bytes, write_map_header}
use sidevers_protocol.Common.{
  IsBytes, codes, ℕ, zero, suc, ◌^◌, ◌≤◌, ◌<◌, ◌≡◌, refl, sym, ap, ◌∙◌, ◌↔◌, List, [], ◌∷◌, ◌++◌,
  arith, length, All,
}
use sidevers_protocol.Errors.{invariant, ok}
use sidevers_protocol.Storage.References.{
  Reference, References, reference, no_deps, dep, dep_list, deps_of, entries, encode, encode_deps,
  decode_inner, decode, depth, depth_deps,
}

-- The references of at most `n` levels whose every field can be encoded.
abbrev pub Valid : ℕ → Reference → Type 0
Valid zero p = ⊥
Valid (suc n) (reference hash size mime hints deps) =
    ((length (dep_list deps) ≤ max_cbor_entries) × All (Valid n) (dep_list deps))
    × IsArray 32 hash
    × (size < 2 ^ 64)
    × IsText mime
    × ((length hints ≤ max_cbor_entries) × All (IsArray 32) hints)

mutual
  unfolding depth dep_list

  Valid-depth : (n : ℕ) (p : Reference) → Valid n p → depth p ≤ n
  Valid-depth zero p h = elim h [ ]
  Valid-depth (suc n) (reference hash size mime hints deps) h =
      omega (arith, Valid-depth_deps n deps h.0.1)

  Valid-depth_deps : (n : ℕ) (ds : References) → All (Valid n) (dep_list ds) → depth_deps ds ≤ n
  Valid-depth_deps n no_deps h = omega arith
  Valid-depth_deps n (dep d ds) h = omega (arith, Valid-depth n d h.0, Valid-depth_deps n ds h.1)

deps_of-dep_list : (ds : References) → deps_of (dep_list ds) ≡ ds
unfolding deps_of dep_list
deps_of-dep_list no_deps = refl
deps_of-dep_list (dep d ds) = ap (dep d) (deps_of-dep_list ds)

dep_list-deps_of : (ds : List Reference) → dep_list (deps_of ds) ≡ ds
unfolding deps_of dep_list
dep_list-deps_of [] = refl
dep_list-deps_of (d ∷ ds) = ap (λ t. d ∷ t) (dep_list-deps_of ds)

encode_deps-concat_map : (ds : References) → encode_deps ds ≡ concat_map encode (dep_list ds)
unfolding encode dep_list concat_map
encode_deps-concat_map no_deps = refl
encode_deps-concat_map (dep d ds) = ap (λ (t : Bytes). encode d ++ t) (encode_deps-concat_map ds)

encode-entries :
    (hash : Bytes) (size : ℕ) (mime : Bytes) (hints : List Bytes) (deps : References)
    → encode (reference hash size mime hints deps)
      ≡ write_map_header [] 5
        ++ flat (entries hash size mime hints (encode_array encode (dep_list deps)))
unfolding encode encode_array
encode-entries hash size mime hints deps = rw (encode_deps-concat_map deps) (encode_map-flat _)

deps-IsKey : IsKey (codes "deps")
unfolding valid_utf8
deps-IsKey = (omega arith, refl)

hash-IsKey : IsKey (codes "hash")
unfolding valid_utf8
hash-IsKey = (omega arith, refl)

size-IsKey : IsKey (codes "size")
unfolding valid_utf8
size-IsKey = (omega arith, refl)

type-IsKey : IsKey (codes "type")
unfolding valid_utf8
type-IsKey = (omega arith, refl)

hints-IsKey : IsKey (codes "hints")
unfolding valid_utf8
hints-IsKey = (omega arith, refl)

abbrev hash_codec : Codec Bytes
hash_codec = fixed_codec "hash" 32 (omega arith)

abbrev hints_codec : Codec (List Bytes)
hints_codec = array (fixed_codec "hint" 32 (omega arith))

-- What holds of the decoder of `n` levels.
abbrev Reading : ℕ → Type 0
Reading n = (p : Reference) → Valid n p → Reads (decode_inner n) (encode p) p

abbrev Parsing : ℕ → Type 0
Parsing n = Parses (decode_inner n) (λ p bs. Valid n p × (bs ≡ encode p))

-- One level more.
module _ (n : ℕ) (reading : Reading n) (parsing : Parsing n) where
  abbrev deps_codec : Codec (List Reference)
  deps_codec = array (record {
    encode = encode;
    body = decode_inner n;
    Valid = Valid n;
    reads = reading;
    parses = parsing;
  })

  level-Reads : Reading (suc n)
  unfolding decode_inner flat
  level-Reads (reference hash size mime hints deps) (hd, hh, hs, ht, hi) =
      rw (encode-entries hash size mime hints deps) (
        Reads-map 5 _ (omega arith) (
          Reads-field (codes "deps") deps_codec _ (dep_list deps) deps-IsKey hd (
            Reads-field (codes "hash") hash_codec _ hash hash-IsKey hh (
              Reads-field (codes "size") uint_codec _ size size-IsKey hs (
                Reads-field (codes "type") text_codec _ mime type-IsKey ht (
                  Reads-field (codes "hints") hints_codec _ hints hints-IsKey hi (
                    rw (deps_of-dep_list deps)
                      (Reads-pure (reference hash size mime hints deps)))))))))

  level-Parses : Parsing (suc n)
  unfolding decode_inner flat
  level-Parses = Parses-map 5 _ (
      Parses-field (codes "deps") deps_codec _ λ deps hd.
        Parses-field (codes "hash") hash_codec _ λ hash hh.
          Parses-field (codes "size") uint_codec _ λ size hs.
            Parses-field (codes "type") text_codec _ λ mime ht.
              Parses-field (codes "hints") hints_codec _ λ hints hi. Parses-pure _ (
                (rw (dep_list-deps_of deps) hd, hh, hs, ht, hi),
                sym (
                    encode-entries hash size mime hints (deps_of deps)
                    ∙ rw (dep_list-deps_of deps) refl),
              ))

laws : (n : ℕ) → Reading n × Parsing n
unfolding decode_inner
laws zero = (λ p h. elim h [ ], Parses-fail invariant)
laws (suc n) = (level-Reads n (laws n).0 (laws n).1, level-Parses n (laws n).0 (laws n).1)

abbrev codec : (n : ℕ) → Codec Reference
codec n = record {
  encode = encode;
  body = decode_inner n;
  Valid = Valid n;
  reads = (laws n).0;
  parses = (laws n).1;
}

-- From bytes that fit the address space, the decoder gives `p` exactly if `p` has at most 65 levels,
-- each of which can be encoded, and the bytes begin with its encoding.
pub reference_iff :
    (bs : Bytes) (p : Reference)
    → IsBytes bs
    → length bs < usize_mod
    → (decode bs ≡ ok p) ↔ Valid 65 p × ((junk : Bytes) × (bs ≡ encode p ++ junk))
unfolding decode
reference_iff bs p hb fits = decode_prefix_iff (codec 65) bs p hb fits

-- From bytes that fit the address space, what the decoder accepts has at most 65 levels.
pub decode-depth :
    (bs : Bytes) (p : Reference)
    → IsBytes bs
    → length bs < usize_mod
    → decode bs ≡ ok p
    → depth p ≤ 65
decode-depth bs p hb fits e = Valid-depth 65 p ((reference_iff bs p hb fits).0 e).0
