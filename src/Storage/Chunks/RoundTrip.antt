-- ===== src/Storage/Chunks/RoundTrip.antt =====
-- Storing in chunks and fetching again, of crates/sidevers-storage/src/chunking.rs.
use sidevers_protocol.Cbor.Codec.{decode_whole-Reads}
use sidevers_protocol.Cbor.Field.{IsArray}
use sidevers_protocol.Cbor.Reader.{usize_mod, max_cbor_entries}
use sidevers_protocol.Cbor.Writer.{Bytes}
use sidevers_protocol.Common.{
  bytes_eq, ℕ, suc, ◌^◌, ◌≤◌, ◌<◌, ◌≡◌, refl, sym, ap, ◌∙◌, subst, inl, inr, true, List, [], ◌∷◌,
  map, arith, leb, ◌==◌, Bool-cases, length, All,
}
use sidevers_protocol.Common.Eq.{bytes_Eq}
use sidevers_protocol.Errors.{Error, Result, ok, guard, ◌>>=◌, ◌>>◌}
use sidevers_protocol.Storage.Chunks.{
  chunks, put_pieces, put_single, put_manifest, put_chunked, fetch, fetch_manifest, from_manifest,
  manifest_or_core, get_chunked, manifest_mime,
}
use sidevers_protocol.Storage.Chunks.Pieces.{
  join, join-chunks, Stored, put_self, put_pieces_lem, All-put, fetch_lem, All-Stored,
  fetch_pieces_lem,
}
use sidevers_protocol.Storage.Manifest.{Manifest, encode_manifest, decode_manifest, body, reads}
use sidevers_protocol.Storage.Objects.{ObjectStore, StorageError, hash_mismatch, put}
use sidevers_protocol.Storage.Objects.Contents.{IsIntact, CollisionFree}
use sidevers_protocol.Storage.Objects.PutGet.{put_lem, put_address}
use sidevers_protocol.Storage.References.{References, reference, new_reference, deps_of}

module _ (blake3 : Bytes → Bytes) where
  -- What the manifest of the bytes is.
  abbrev pub manifest_of : ℕ → Bytes → Manifest
  manifest_of n b = record { total_size = length b; chunks = map blake3 (chunks n b) }

  -- What `put_chunked` stores is known.
  abbrev pub KnownPieces : (Bytes → Type 0) → ℕ → Bytes → Type 0
  KnownPieces Known n b =
      Known b × All Known (chunks n b) × Known (encode_manifest (manifest_of n b))

  -- The manifest can be encoded.
  abbrev pub Fits : ℕ → Bytes → Type 0
  Fits n b =
      ((a : Bytes) → IsArray 32 (blake3 a))
      × (length (chunks n b) ≤ max_cbor_entries)
      × (length b < 2 ^ 64)
      × (length (encode_manifest (manifest_of n b)) < usize_mod)

module _ (blake3 : Bytes → Bytes) (Known : Bytes → Type 0) (free : CollisionFree blake3 Known) where
  All-hash :
      ((a : Bytes) → IsArray 32 (blake3 a)) → (cs : List Bytes) → All (IsArray 32) (map blake3 cs)
  All-hash h [] = tt
  All-hash h (c ∷ cs) = (h c, All-hash h cs)

  length-map : (cs : List Bytes) → length (map blake3 cs) ≡ length cs
  length-map [] = refl
  length-map (c ∷ cs) = ap suc (length-map cs)

  decode_manifest_of :
      (n : ℕ) (b : Bytes)
      → Fits blake3 n b
      → decode_manifest (encode_manifest (manifest_of blake3 n b)) ≡ ok (manifest_of blake3 n b)
  unfolding decode_manifest
  decode_manifest_of n b (h, hl, hb, fits) =
      decode_whole-Reads body (encode_manifest (manifest_of blake3 n b)) (manifest_of blake3 n b)
        (reads (manifest_of blake3 n b)
          ((rw (length-map (chunks n b)) hl, All-hash h (chunks n b)), hb))
        fits

  get_manifest :
      (now n : ℕ) (b : Bytes) (deps : References) (s : ObjectStore)
      → 0 < n
      → Fits blake3 n b
      → IsIntact blake3 Known s
      → Stored blake3 Known free s (encode_manifest (manifest_of blake3 n b))
      → All (Stored blake3 Known free s) (chunks n b)
      → (get_chunked blake3 now
          (reference
            (blake3 (encode_manifest (manifest_of blake3 n b)))
            (length b)
            manifest_mime
            []
            deps)
          s).0
        ≡ ok b
  unfolding get_chunked from_manifest manifest_or_core fetch_manifest bytes_eq
  get_manifest now n b deps s positive fits i there pieces =
      let m = encode_manifest (manifest_of blake3 n b) in
      let s' = (fetch blake3 now (blake3 m) s).1 in
      let (r, i', same) = fetch_lem blake3 Known free now m s i there in
      let all =
        fetch_pieces_lem blake3 Known free now (chunks n b) s' i'
          (All-Stored blake3 Known free (chunks n b) s s' same pieces) in
      ap (λ (t : Result StorageError Bytes). (from_manifest blake3 now t s').0) r
      ∙ ap (λ (t : Result Error Manifest). (manifest_or_core blake3 now t s').0)
          (decode_manifest_of n b fits)
      ∙ ap
          (λ (t : Result StorageError Bytes).
            t >>= λ out. guard (length out == length b) hash_mismatch >> ok out)
          all
      ∙ counted (join (chunks n b)) b (join-chunks n b positive)
    where
      counted :
          (out b' : Bytes)
          → out ≡ b'
          → (guard (length out == length b') hash_mismatch >> ok out) ≡ ok b'
      counted out b' e =
          let lengths : length out ≡ length b' = ap length e in
          let test : (length out == length b') ≡ true = ground arith in rw test (ap ok e)

  put_manifest_lem :
      (now n : ℕ) (b : Bytes) (s : ObjectStore)
      → 0 < n
      → Fits blake3 n b
      → KnownPieces blake3 Known n b
      → IsIntact blake3 Known s
      → (later : ℕ)
      → (get_chunked blake3 later
          (put_manifest blake3 n now b s).0
          (put_manifest blake3 n now b s).1).0
        ≡ ok b
  unfolding put_manifest
  put_manifest_lem now n b s positive fits (kb, kcs, km) i later =
      let p = put_pieces blake3 now (chunks n b) s in
      let (hashes, i', stored) = put_pieces_lem blake3 Known free now (chunks n b) s kcs i in
      let deps = deps_of p.0.0 in
      let m = encode_manifest (manifest_of blake3 n b) in
      let done : (get_chunked blake3 later
            (reference (put blake3 now m p.1).0 (length b) manifest_mime [] deps)
            (put blake3 now m p.1).1).0
          ≡ ok b =
        rw (put_address blake3 now m p.1) (
          get_manifest later n b deps (put blake3 now m p.1).1 positive fits
            (put_lem blake3 Known now m p.1 free km i').0
            (put_self blake3 Known free now m p.1 km i')
            (All-put blake3 Known free now m (chunks n b) p.1 km kcs i' stored)) in
      subst
        (λ (hs : List Bytes).
          let w : Bytes = encode_manifest (record { total_size = length b; chunks = hs }) in
          (get_chunked blake3 later
            (reference (put blake3 now w p.1).0 (length b) manifest_mime [] deps)
            (put blake3 now w p.1).1).0
          ≡ ok b)
        (sym hashes) done

  put_single_lem :
      (now : ℕ) (b : Bytes) (s : ObjectStore)
      → Known b
      → IsIntact blake3 Known s
      → (later : ℕ)
      → (get_chunked blake3 later (put_single blake3 now b s).0 (put_single blake3 now b s).1).0
        ≡ ok b
  unfolding put_single get_chunked new_reference bytes_eq
  put_single_lem now b s kb i later =
      rw (put_address blake3 now b s)
        (fetch_lem blake3 Known free later b (put blake3 now b s).1
          (put_lem blake3 Known now b s free kb i).0 (put_self blake3 Known free now b s kb i)).0

-- For chunks of at least a byte and an intact store: where what is stored is known and known contents
-- do not collide, addresses are 32 bytes, there are no more chunks than an array may have and the
-- manifest fits the address space, fetching the reference that `put_chunked` returns, from the store
-- that it leaves, gives the bytes back.
pub get_chunked-put_chunked :
    (blake3 : Bytes → Bytes) (Known : Bytes → Type 0) (now later n : ℕ) (b : Bytes)
    (s : ObjectStore)
    → CollisionFree blake3 Known
    → 0 < n
    → Fits blake3 n b
    → KnownPieces blake3 Known n b
    → IsIntact blake3 Known s
    → (get_chunked blake3 later (put_chunked blake3 n now b s).0 (put_chunked blake3 n now b s).1).0
      ≡ ok b
unfolding put_chunked
get_chunked-put_chunked blake3 Known now later n b s free positive fits known i =
    elim (Bool-cases (leb (length b) n)) [
      | inl x ↦ rw x (put_single_lem blake3 Known free now b s known.0 i later)
      | inr x ↦ rw x (put_manifest_lem blake3 Known free now n b s positive fits known i later)
    ]
