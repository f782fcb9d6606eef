-- ===== src/Tests/Stores.antt =====
-- The theorems on the object store, references and chunks at samples.
use sidevers_protocol.Cbor.Field.{encode_array, concat_map}
use sidevers_protocol.Cbor.Array.{IsText}
use sidevers_protocol.Cbor.Reader.{usize_mod}
use sidevers_protocol.Cbor.Utf8.{valid_utf8}
use sidevers_protocol.Cbor.Writer.{
  Bytes, encode_map, write_entries, write_map_header, write_array_header, write_head, key, uint,
  bytes, write_text, write_bytes, write_u64, text,
}
use sidevers_protocol.Common.{
  ℕ, ◌≡◌, ◌≤◌, ◌<◌, ◌+◌, ◌-◌, [], ◌∷◌, ◌++◌, List, none, some, arith, refl, ap, sym, ◌∙◌, true,
  false, Bool, to_be_bytes, length, leb→le, suc, bytes_eq, ◌↔◌, ◌⊎◌, inl, inr, codes, take, drop,
  IsBytes, All,
}
use sidevers_protocol.Common.Eq.{bytes_Eq}
use sidevers_protocol.Errors.{ok}
use sidevers_protocol.Storage.Chunks.{chunks, chunks_on, put_chunked, get_chunked}
use sidevers_protocol.Storage.Chunks.RoundTrip.{manifest_of, get_chunked-put_chunked}
use sidevers_protocol.Storage.Manifest.{encode_manifest}
use sidevers_protocol.Storage.Objects.{
  Row, ObjectStore, new_store, total_bytes, sum_sizes, evict_to_budget, evict_loop, evict_one,
  candidates, order_by_age, insert_sorted, put, get, get_range, slice_of, slice, load,
  return_loaded, get_row, verify_hash, row_bytes, read_file, new_row, insert_or_ignore,
}
use sidevers_protocol.Storage.Objects.Budget.{
  SameOrGone, evict_to_budget-total, evict_to_budget-rows,
}
use sidevers_protocol.Storage.Objects.Contents.{IsIntact, CollisionFree, content}
use sidevers_protocol.Storage.Objects.Eviction.{free_row}
use sidevers_protocol.Storage.Objects.Recency.{evict_to_budget-older}
use sidevers_protocol.Storage.Objects.Refinement.{
  Command, putting, getting, ranging, evicting, pinning, replies, promised, replies-promised,
  get_range_sound,
}
use sidevers_protocol.Storage.References.{
  Reference, reference, no_deps, dep, new_reference, encode, decode, dep_list,
}
use sidevers_protocol.Storage.References.Decoding.{Valid, reference_iff}
use sidevers_protocol.Table.{lookup, insert, remove, retain, IsMap}
use sidevers_protocol.Tests.Samples.{
  fill, toy, sum_below, all_bytes, IsBytes-all_bytes, toy-IsArray, fill-IsArray,
}

-- The bytes are one of a list.
abbrev pub OneOf : List Bytes → Bytes → Type 0
OneOf [] b = ⊥
OneOf (x ∷ xs) b = (b ≡ x) ⊎ OneOf xs b

-- No two of a list have the same digest.
abbrev pub Differs : Bytes → List Bytes → Type 0
Differs h [] = Unit {0}
Differs h (x ∷ xs) = (bytes_eq h (toy.blake3 x) ≡ false) × Differs h xs

abbrev pub Distinct : List Bytes → Type 0
Distinct [] = Unit {0}
Distinct (x ∷ xs) = Differs (toy.blake3 x) xs × Distinct xs

Differs-OneOf :
    (h : Bytes) (xs : List Bytes) (b : Bytes) → Differs h xs → OneOf xs b → h ≡ toy.blake3 b → ⊥
Differs-OneOf h [] b d o e = o
Differs-OneOf h (x ∷ xs) b d (inl p) e =
    let same : bytes_eq h (toy.blake3 x) ≡ true =
      (bytes_Eq.beq_iff h (toy.blake3 x)).1 (e ∙ ap toy.blake3 p) in
    cc (d.0)
Differs-OneOf h (x ∷ xs) b d (inr p) e = Differs-OneOf h xs b d.1 p e

pub Distinct-CollisionFree : (xs : List Bytes) → Distinct xs → CollisionFree toy.blake3 (OneOf xs)
Distinct-CollisionFree [] d a b oa ob e = absurd oa
Distinct-CollisionFree (x ∷ xs) d a b (inl p) (inl q) e = p ∙ sym q
Distinct-CollisionFree (x ∷ xs) d a b (inl p) (inr q) e =
    absurd (Differs-OneOf (toy.blake3 x) xs b d.0 q (ap toy.blake3 (sym p) ∙ e))
Distinct-CollisionFree (x ∷ xs) d a b (inr p) (inl q) e =
    absurd (Differs-OneOf (toy.blake3 x) xs a d.0 p (ap toy.blake3 (sym q) ∙ sym e))
Distinct-CollisionFree (x ∷ xs) d a b (inr p) (inr q) e = Distinct-CollisionFree xs d.1 a b p q e

new_store-IsIntact : (Known : Bytes → Type 0) → IsIntact toy.blake3 Known new_store
unfolding lookup
new_store-IsIntact Known h = tt

abbrev pub photo : Bytes
photo = 1 ∷ 2 ∷ 4 ∷ []

abbrev pub address : Bytes
address = toy.blake3 photo

abbrev commands : List Command
commands =
    putting 5 photo
    ∷ getting 6 address
    ∷ ranging 7 address 1 3
    ∷ ranging 7 address 2 9
    ∷ pinning address
    ∷ evicting address
    ∷ getting 8 address
    ∷ []

replies-promised_example :
    replies toy.blake3 commands new_store ≡ promised toy.blake3 commands (λ k. content k new_store)
replies-promised_example =
    replies-promised toy.blake3 (OneOf (photo ∷ [])) commands new_store
      (Distinct-CollisionFree (photo ∷ []) (tt, tt))
      (inl refl, (tt, (tt, (tt, (tt, (tt, (tt, tt))))))) (new_store-IsIntact (OneOf (photo ∷ [])))

abbrev one_object : ObjectStore
one_object = (put toy.blake3 5 photo new_store).1

range-read : (get_range toy.blake3 7 address 1 3 one_object).0 ≡ ok (some (2 ∷ 4 ∷ []))
unfolding get_range get slice_of slice load return_loaded get_row verify_hash row_bytes read_file
    new_row insert_or_ignore put lookup insert bytes_eq fill sum_below
range-read = refl

get_range_sound_example :
    (whole : Bytes) × (toy.blake3 whole ≡ address)
    × (1 ≤ 3)
    × (3 ≤ length whole)
    × (2 ∷ 4 ∷ [] ≡ take (3 - 1) (drop 1 whole))
get_range_sound_example =
    get_range_sound toy.blake3 7 address 1 3 one_object (2 ∷ 4 ∷ []) range-read

abbrev row_at : ℕ → Bool → Row
row_at time pinned = record {
  size = 100;
  inline = some (fill 100 0);
  pinned = pinned;
  added_at = time;
  last_accessed = time;
}

-- Three objects of 100 bytes, the second pinned, and a budget for two.
abbrev full_store : ObjectStore
full_store = record {
  rows = (1 ∷ [], row_at 20 false) ∷ (2 ∷ [], row_at 5 true) ∷ (3 ∷ [], row_at 10 false) ∷ [];
  files = [];
  max_bytes = 250;
}

full_store-IsMap : IsMap full_store.rows
unfolding bytes_eq
full_store-IsMap = ((refl, (refl, tt)), ((refl, tt), (tt, tt)))

evict_to_budget-total_example :
    (total_bytes full_store
      ≡ (evict_to_budget full_store).0.1 + total_bytes (evict_to_budget full_store).1)
    × ((full_store.max_bytes ≡ 0)
        ⊎ ((total_bytes (evict_to_budget full_store).1 ≤ full_store.max_bytes)
            ⊎ ((k : Bytes) → free_row (lookup k (evict_to_budget full_store).1.rows) ≡ none)))
evict_to_budget-total_example = evict_to_budget-total full_store full_store-IsMap

evict_to_budget-rows_example :
    SameOrGone
      (lookup (2 ∷ []) full_store.rows)
      (lookup (2 ∷ []) (evict_to_budget full_store).1.rows)
evict_to_budget-rows_example = evict_to_budget-rows full_store (2 ∷ []) full_store-IsMap

third-there : lookup (3 ∷ []) full_store.rows ≡ some (row_at 10 false)
unfolding lookup bytes_eq
third-there = refl

third-gone : lookup (3 ∷ []) (evict_to_budget full_store).1.rows ≡ none
unfolding lookup bytes_eq evict_to_budget total_bytes sum_sizes candidates order_by_age
    insert_sorted retain evict_loop evict_one remove
third-gone = refl

first-left : lookup (1 ∷ []) (evict_to_budget full_store).1.rows ≡ some (row_at 20 false)
unfolding lookup bytes_eq evict_to_budget total_bytes sum_sizes candidates order_by_age
    insert_sorted retain evict_loop evict_one remove
first-left = refl

evict_to_budget-older_example : ◌<◌ 10 20 ⊎ (◌≡◌ {A = ℕ} 10 20 × (10 ≤ 20))
evict_to_budget-older_example =
    evict_to_budget-older full_store (3 ∷ []) (1 ∷ []) (row_at 10 false) (row_at 20 false)
      full_store-IsMap third-there third-gone first-left refl

abbrev stored_pieces : List Bytes
stored_pieces =
    photo ∷ (1 ∷ 2 ∷ []) ∷ (4 ∷ []) ∷ encode_manifest (manifest_of toy.blake3 2 photo) ∷ []

stored_pieces-Distinct : Distinct stored_pieces
unfolding chunks chunks_on encode_manifest encode_map write_entries write_map_header
    write_array_header write_head key uint bytes write_text write_bytes write_u64 text fill
    encode_array concat_map to_be_bytes sum_below bytes_eq
stored_pieces-Distinct = ((refl, (refl, (refl, tt))), ((refl, (refl, tt)), ((refl, tt), (tt, tt))))

photo-chunks : chunks 2 photo ≡ (1 ∷ 2 ∷ []) ∷ (4 ∷ []) ∷ []
unfolding chunks chunks_on
photo-chunks = refl

manifest-fits : length (encode_manifest (manifest_of toy.blake3 2 photo)) < usize_mod
unfolding chunks chunks_on encode_manifest encode_map write_entries write_map_header
    write_array_header write_head key uint bytes write_text write_bytes write_u64 text fill
    encode_array concat_map to_be_bytes sum_below
manifest-fits =
    leb→le (suc (length (encode_manifest (manifest_of toy.blake3 2 photo)))) usize_mod refl

photo-known : All (OneOf stored_pieces) (chunks 2 photo)
photo-known = rw photo-chunks (inr (inl refl), (inr (inr (inl refl)), tt))

get_chunked-put_chunked_example :
    (get_chunked toy.blake3 9
      (put_chunked toy.blake3 2 5 photo new_store).0
      (put_chunked toy.blake3 2 5 photo new_store).1).0
    ≡ ok photo
get_chunked-put_chunked_example =
    get_chunked-put_chunked toy.blake3 (OneOf stored_pieces) 5 9 2 photo new_store
      (Distinct-CollisionFree stored_pieces stored_pieces-Distinct) (omega arith)
      (toy-IsArray, rw photo-chunks (omega arith), omega arith, manifest-fits)
      (inl refl, photo-known, inr (inr (inr (inl refl)))) (new_store-IsIntact (OneOf stored_pieces))

-- A reference that depends on another.
abbrev album : Reference
album =
    reference (fill 32 1) 600000 (codes "image/jpeg") (fill 32 2 ∷ [])
      (dep (new_reference (fill 32 3) 300000 (codes "image/jpeg")) no_deps)

album-IsBytes : IsBytes (encode album ++ (0 ∷ []))
unfolding encode new_reference dep_list encode_map write_entries write_map_header write_array_header
    write_head key uint bytes write_text write_bytes write_u64 text fill encode_array concat_map
    to_be_bytes all_bytes
album-IsBytes = IsBytes-all_bytes (encode album ++ (0 ∷ [])) refl

album-fits : length (encode album ++ (0 ∷ [])) < usize_mod
unfolding encode new_reference dep_list encode_map write_entries write_map_header write_array_header
    write_head key uint bytes write_text write_bytes write_u64 text fill encode_array concat_map
    to_be_bytes
album-fits = leb→le (suc (length (encode album ++ (0 ∷ [])))) usize_mod refl

reference_iff_example :
    (decode (encode album ++ (0 ∷ [])) ≡ ok album)
    ↔ Valid 65 album × ((junk : Bytes) × (encode album ++ (0 ∷ []) ≡ encode album ++ junk))
reference_iff_example = reference_iff (encode album ++ (0 ∷ [])) album album-IsBytes album-fits

mime-IsText : IsText (codes "image/jpeg")
unfolding valid_utf8
mime-IsText = (omega arith, refl)

dep-Valid : Valid 64 (new_reference (fill 32 3) 300000 (codes "image/jpeg"))
unfolding new_reference dep_list
dep-Valid = (
  (omega arith, tt),
  fill-IsArray 32 3 (omega arith),
  omega arith,
  mime-IsText,
  (omega arith, tt),
)

album-Valid : Valid 65 album
unfolding dep_list
album-Valid = (
  (omega arith, (dep-Valid, tt)),
  fill-IsArray 32 1 (omega arith),
  omega arith,
  mime-IsText,
  (omega arith, (fill-IsArray 32 2 (omega arith), tt)),
)

album-decoded : decode (encode album ++ (0 ∷ [])) ≡ ok album
album-decoded =
    (reference_iff (encode album ++ (0 ∷ [])) album album-IsBytes album-fits).1
      (album-Valid, (0 ∷ [], refl))
