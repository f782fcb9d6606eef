-- ===== src/Storage/Chunks.antt =====
-- crates/sidevers-storage/src/chunking.rs: large objects in chunks. The size of a chunk is an argument,
-- `CHUNK_MAX` for the code's own callers; the clock is read once for each call. The texts of the errors
-- and the warning for a size that disagrees are left out.
pub mod Pieces
pub mod RoundTrip
use sidevers_protocol.Cbor.Writer.{Bytes}
use sidevers_protocol.Common.{
  codes, ℕ, zero, suc, ◌*◌, Option, none, some, List, [], ◌∷◌, ◌++◌, leb, ◌==◌, if◌then◌else◌,
  length, take, drop,
}
use sidevers_protocol.Common.Eq.{bytes_Eq}
use sidevers_protocol.Errors.{Error, Result, ok, err, guard, ◌>>=◌, ◌>>◌}
use sidevers_protocol.Storage.Manifest.{Manifest, encode_manifest, decode_manifest}
use sidevers_protocol.Storage.Objects.{ObjectStore, StorageError, hash_mismatch, core, put, get}
use sidevers_protocol.Storage.References.{Reference, reference, new_reference, deps_of}

abbrev pub chunk_max : ℕ
chunk_max = 256 * 1024

abbrev pub manifest_mime : Bytes
manifest_mime = codes "application/sidevers.chunk-manifest+cbor"

abbrev pub chunk_mime : Bytes
chunk_mime = codes "application/sidevers.chunk+binary"

abbrev pub single_mime : Bytes
single_mime = codes "application/octet-stream"

-- `bytes.chunks(n)`, on fuel; as much fuel as there are bytes is enough.
unfoldable pub chunks_on : ℕ → ℕ → Bytes → List Bytes
chunks_on zero n contents = []
chunks_on (suc fuel) n [] = []
chunks_on (suc fuel) n (x ∷ contents) =
    take n (x ∷ contents) ∷ chunks_on fuel n (drop n (x ∷ contents))

unfoldable pub chunks : ℕ → Bytes → List Bytes
chunks n contents = chunks_on (length contents) n contents

-- `ok_or(Error::HashMismatch { .. })`
unfoldable pub or_missing : Result StorageError (Option Bytes) → Result StorageError Bytes
or_missing (err e) = err e
or_missing (ok none) = err hash_mismatch
or_missing (ok (some contents)) = ok contents

-- A piece before the rest, or its error, with the store at that point.
unfoldable pub next_piece :
    Result StorageError Bytes
    → ObjectStore
    → Result StorageError Bytes × ObjectStore
    → Result StorageError Bytes × ObjectStore
next_piece (err e) s rest = (err e, s)
next_piece (ok piece) s (r, s') = (r >>= λ rest. ok (piece ++ rest), s')

module _ (blake3 : Bytes → Bytes) where
  -- The loop over the chunks: their references, their hashes and the store.
  unfoldable pub put_pieces :
      ℕ → List Bytes → ObjectStore → (List Reference × List Bytes) × ObjectStore
  put_pieces now [] s = (([], []), s)
  put_pieces now (c ∷ cs) s =
      let (h, s') = put blake3 now c s in
      let ((refs, hashes), s'') = put_pieces now cs s' in
      ((new_reference h (length c) chunk_mime ∷ refs, h ∷ hashes), s'')

  unfoldable pub put_single : ℕ → Bytes → ObjectStore → Reference × ObjectStore
  put_single now contents s =
      let (h, s') = put blake3 now contents s in (new_reference h (length contents) single_mime, s')

  unfoldable pub put_manifest : ℕ → ℕ → Bytes → ObjectStore → Reference × ObjectStore
  put_manifest n now contents s =
      let ((refs, hashes), s') = put_pieces now (chunks n contents) s in
      let manifest : Manifest = record { total_size = length contents; chunks = hashes } in
      let (h, s'') = put blake3 now (encode_manifest manifest) s' in
      (reference h (length contents) manifest_mime [] (deps_of refs), s'')

  unfoldable pub put_chunked : ℕ → ℕ → Bytes → ObjectStore → Reference × ObjectStore
  put_chunked n now contents s =
      if leb (length contents) n then put_single now contents s else put_manifest n now contents s

  unfoldable pub fetch : ℕ → Bytes → ObjectStore → Result StorageError Bytes × ObjectStore
  fetch now h s = let (r, s') = get blake3 now h s in (or_missing r, s')

  -- The loop over the hashes of a manifest.
  unfoldable pub fetch_pieces :
      ℕ → List Bytes → ObjectStore → Result StorageError Bytes × ObjectStore
  fetch_pieces now [] s = (ok [], s)
  fetch_pieces now (h ∷ hs) s =
      let (r, s') = fetch now h s in next_piece r s' (fetch_pieces now hs s')

  unfoldable pub fetch_manifest :
      ℕ → Manifest → ObjectStore → Result StorageError Bytes × ObjectStore
  fetch_manifest now manifest s =
      let (r, s') = fetch_pieces now manifest.chunks s in
      (r >>= λ out. guard (length out == manifest.total_size) hash_mismatch >> ok out, s')

  -- `decode_manifest(..)?`, then the rest.
  unfoldable pub manifest_or_core :
      ℕ → Result Error Manifest → ObjectStore → Result StorageError Bytes × ObjectStore
  manifest_or_core now (err e) s = (err (core e), s)
  manifest_or_core now (ok manifest) s = fetch_manifest now manifest s

  unfoldable pub from_manifest :
      ℕ → Result StorageError Bytes → ObjectStore → Result StorageError Bytes × ObjectStore
  from_manifest now (err e) s = (err e, s)
  from_manifest now (ok contents) s = manifest_or_core now (decode_manifest contents) s

  unfoldable pub get_chunked : ℕ → Reference → ObjectStore → Result StorageError Bytes × ObjectStore
  get_chunked now (reference h size mime hints deps) s =
      let (r, s') = fetch now h s in
      if bytes_Eq.beq mime manifest_mime then from_manifest now r s' else (r, s')
