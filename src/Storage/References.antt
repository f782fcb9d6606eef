-- ===== src/Storage/References.antt =====
-- crates/sidevers-storage/src/reference.rs: references to objects, which hold references to what they
-- depend on, and their codec. The decoder counts how deep it is; here the number goes down.
pub mod Decoding
use sidevers_protocol.Cbor.Codec.{decode_prefix, value}
use sidevers_protocol.Cbor.Field.{expect_count, expect_key, read_fixed, read_array, encode_array}
use sidevers_protocol.Cbor.Reader.{◌>>=◌, ◌>>◌, Read, pure, fail, read_u64, read_text}
use sidevers_protocol.Cbor.Writer.{
  Bytes, key, uint, bytes, text, encode_map, MapEntry, write_array_header,
}
use sidevers_protocol.Common.{codes, ℕ, zero, suc, max, List, [], ◌∷◌, ◌++◌, length}
use sidevers_protocol.Errors.{Error, invariant, Result}

-- `DEFAULT_DEP_DEPTH_LIMIT`
abbrev pub dep_depth_limit : ℕ
dep_depth_limit = 64

-- The hash, the size, the MIME type, the hints and the references that this one depends on.
mutual
  pub data Reference : Type 0 where
    reference : Bytes → ℕ → Bytes → List Bytes → References → Reference

  pub data References : Type 0 where
    no_deps : References
    dep : Reference → References → References

-- `Reference::new`
unfoldable pub new_reference : Bytes → ℕ → Bytes → Reference
new_reference hash size mime = reference hash size mime [] no_deps

unfoldable pub dep_list : References → List Reference
dep_list no_deps = []
dep_list (dep d ds) = d ∷ dep_list ds

unfoldable pub deps_of : List Reference → References
deps_of [] = no_deps
deps_of (d ∷ ds) = dep d (deps_of ds)

abbrev pub entries : Bytes → ℕ → Bytes → List Bytes → Bytes → List MapEntry
entries hash size mime hints deps =
    record { key = text (codes "deps"); value = deps }
    ∷ record { key = text (codes "hash"); value = bytes hash }
    ∷ record { key = text (codes "size"); value = uint size }
    ∷ record { key = text (codes "type"); value = text mime }
    ∷ record { key = text (codes "hints"); value = encode_array bytes hints }
    ∷ []

unfoldable mutual
  pub encode : Reference → Bytes
  encode (reference hash size mime hints deps) = encode_map (
      entries hash size mime hints
        (write_array_header [] (length (dep_list deps)) ++ encode_deps deps))

  -- What `encode_dep_array` appends.
  pub encode_deps : References → Bytes
  encode_deps no_deps = []
  encode_deps (dep d ds) = encode d ++ encode_deps ds

-- `decode_inner`, where `n` is how many levels are allowed.
unfoldable pub decode_inner : ℕ → Read Reference
decode_inner zero = fail invariant
decode_inner (suc n) = do
  expect_count 5
  expect_key (codes "deps")
  deps ← read_array (decode_inner n)
  expect_key (codes "hash")
  hash ← read_fixed "hash" 32
  expect_key (codes "size")
  size ← read_u64
  expect_key (codes "type")
  mime ← read_text
  expect_key (codes "hints")
  hints ← read_array (read_fixed "hint" 32)
  pure (reference hash size mime hints (deps_of deps))

-- The depths 0 to 64 are allowed.
unfoldable pub decode : Bytes → Result Error Reference
decode bs = decode_prefix (decode_inner (suc dep_depth_limit)) bs

-- How many levels of references there are.
unfoldable mutual
  pub depth : Reference → ℕ
  depth (reference hash size mime hints deps) = suc (depth_deps deps)

  pub depth_deps : References → ℕ
  depth_deps no_deps = 0
  depth_deps (dep d ds) = max (depth d) (depth_deps ds)
