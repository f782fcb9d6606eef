-- ===== src/Storage/Objects/Refinement.antt =====
-- The object store of crates/sidevers-storage/src/object.rs as a map from addresses to contents.
use sidevers_protocol.Cbor.Reads.{at}
use sidevers_protocol.Cbor.Writer.{Bytes}
use sidevers_protocol.Common.{
  ℕ, ◌-◌, ◌≤◌, ◌≡◌, refl, ap, ◌∙◌, inl, inr, Bool, true, false, Option, none, some, List, [], ◌∷◌,
  arith, ltb, if◌then◌else◌, Bool-cases, length, take, drop, All,
}
use sidevers_protocol.Common.Eq.{bytes_Eq}
use sidevers_protocol.Errors.{Result, ok, err, guard, ◌>>=◌, ◌>>◌}
use sidevers_protocol.Storage.Objects.{
  Row, ObjectStore, StorageError, hash_mismatch, pin, unpin, evict_one, put, get, get_range,
  slice_of, slice, load, return_loaded, get_row, verify_hash, row_bytes,
}
use sidevers_protocol.Storage.Objects.Contents.{
  content, IsIntact, CollisionFree, IsIntact-update_row, content-update_row, IsIntact-evict_one,
  content-evict_one,
}
use sidevers_protocol.Storage.Objects.PutGet.{put_lem, get_lem, put_address}
use sidevers_protocol.Table.{lookup}

pub data Command : Type 0 where
  putting getting : ℕ → Bytes → Command
  ranging : ℕ → Bytes → ℕ → ℕ → Command
  evicting pinning unpinning : Bytes → Command

abbrev pub Reply : Type 0
Reply = Result StorageError (Option Bytes)

-- What the store promises: a map from addresses to contents, which does not know of rows and files.
abbrev pub Promise : Type 0
Promise = Bytes → Option Bytes

module _ (blake3 : Bytes → Bytes) where
  abbrev pub perform : Command → ObjectStore → Reply × ObjectStore
  perform (putting now b) s = let (h, s') = put blake3 now b s in (ok (some h), s')
  perform (getting now h) s = get blake3 now h s
  perform (ranging now h first stop) s = get_range blake3 now h first stop s
  perform (evicting h) s = (ok none, evict_one h s)
  perform (pinning h) s = (ok none, pin h s)
  perform (unpinning h) s = (ok none, unpin h s)

  abbrev pub promise : Command → Promise → Reply × Promise
  promise (putting now b) m =
      (ok (some (blake3 b)), λ k. if bytes_Eq.beq (blake3 b) k then some b else m k)
  promise (getting now h) m = (ok (m h), m)
  promise (ranging now h first stop) m = (slice_of first stop (ok (m h)), m)
  promise (evicting h) m = (ok none, λ k. if bytes_Eq.beq h k then none else m k)
  promise (pinning h) m = (ok none, m)
  promise (unpinning h) m = (ok none, m)

  unfoldable pub replies : List Command → ObjectStore → List Reply
  replies [] s = []
  replies (c ∷ cs) s = let (r, s') = perform c s in r ∷ replies cs s'

  unfoldable pub promised : List Command → Promise → List Reply
  promised [] m = []
  promised (c ∷ cs) m = let (r, m') = promise c m in r ∷ promised cs m'

  -- What the command stores is known.
  abbrev pub Stores : (Bytes → Type 0) → Command → Type 0
  Stores Known (putting now b) = Known b
  Stores Known _ = Unit {0}

  module _ (Known : Bytes → Type 0) (free : CollisionFree blake3 Known) where
    pub perform_lem :
        (c : Command) (s : ObjectStore) (m : Promise)
        → Stores Known c
        → IsIntact blake3 Known s
        → ((k : Bytes) → content k s ≡ m k)
        → ((perform c s).0 ≡ (promise c m).0)
          × IsIntact blake3 Known (perform c s).1
          × ((k : Bytes) → content k (perform c s).1 ≡ (promise c m).1 k)
    unfolding pin unpin get_range
    perform_lem (putting now b) s m kb i agree =
        let (i', at) = put_lem blake3 Known now b s free kb i in
        (
          ap (λ (h : Bytes). ok (some h)) (put_address blake3 now b s),
          i',
          λ k.
              at k
              ∙ ap (λ (o : Option Bytes). if bytes_Eq.beq (blake3 b) k then some b else o)
                  (agree k),
        )
    perform_lem (getting now h) s m kb i agree =
        let (r, i', at) = get_lem blake3 Known now h s i in
        (r ∙ ap ok (agree h), i', λ k. at k ∙ agree k)
    perform_lem (ranging now h first stop) s m kb i agree =
        let (r, i', at) = get_lem blake3 Known now h s i in
        (ap (slice_of first stop) (r ∙ ap ok (agree h)), i', λ k. at k ∙ agree k)
    perform_lem (evicting h) s m kb i agree = (
      refl,
      IsIntact-evict_one blake3 Known h s i,
      λ k.
          content-evict_one h k s
          ∙ ap (λ (o : Option Bytes). if bytes_Eq.beq h k then none else o) (agree k),
    )
    perform_lem (pinning h) s m kb i agree = (
      refl,
      IsIntact-update_row blake3 Known h _ s (λ w. (refl, refl)) i,
      λ k. content-update_row h k _ s (λ w. refl) ∙ agree k,
    )
    perform_lem (unpinning h) s m kb i agree = (
      refl,
      IsIntact-update_row blake3 Known h _ s (λ w. (refl, refl)) i,
      λ k. content-update_row h k _ s (λ w. refl) ∙ agree k,
    )

    replies_lem :
        (cs : List Command) (s : ObjectStore) (m : Promise)
        → All (Stores Known) cs
        → IsIntact blake3 Known s
        → ((k : Bytes) → content k s ≡ m k)
        → replies cs s ≡ promised cs m
    unfolding replies promised
    replies_lem [] s m ks i agree = refl
    replies_lem (c ∷ cs) s m ks i agree =
        let (r, i', at) = perform_lem c s m ks.0 i agree in
        rw r (rw (replies_lem cs (perform c s).1 (promise c m).1 ks.1 i' at) refl)

  -- Where the known contents do not collide, the store is intact and what the commands store is known,
  -- every command of a run returns what the map from addresses to contents promises.
  pub replies-promised :
      (Known : Bytes → Type 0) (cs : List Command) (s : ObjectStore)
      → CollisionFree blake3 Known
      → All (Stores Known) cs
      → IsIntact blake3 Known s
      → replies cs s ≡ promised cs (λ k. content k s)
  replies-promised Known cs s free ks i = replies_lem Known free cs s _ ks i (λ k. refl)

  load_sound :
      (h : Bytes) (row : Row) (s : ObjectStore) (b : Bytes)
      → load blake3 h row s ≡ ok b
      → blake3 b ≡ h
  unfolding load verify_hash
  load_sound h row s b e = go (row_bytes h row s) e
    where
      checked :
          (b' : Bytes) (x : Bool)
          → bytes_Eq.beq (blake3 b') h ≡ x
          → (guard x hash_mismatch >> ok b') ≡ ok b
          → blake3 b ≡ h
      checked b' true x p = (bytes_Eq.beq_iff (blake3 b) h).0 cc
      checked b' false x p = cc

      go :
          (r : Result StorageError Bytes)
          → (r >>= λ contents.
              guard (bytes_Eq.beq (blake3 contents) h) hash_mismatch >> ok contents)
            ≡ ok b
          → blake3 b ≡ h
      go (err x) p = cc
      go (ok b') p = checked b' (bytes_Eq.beq (blake3 b') h) refl p

  get_sound :
      (now : ℕ) (h : Bytes) (s : ObjectStore) (b : Bytes)
      → (get blake3 now h s).0 ≡ ok (some b)
      → blake3 b ≡ h
  unfolding get get_row return_loaded
  get_sound now h s b e = go (lookup h s.rows) e
    where
      returned :
          (row : Row) (r : Result StorageError Bytes)
          → load blake3 h row s ≡ r
          → (return_loaded now h s r).0 ≡ ok (some b)
          → blake3 b ≡ h
      returned row (ok b') x p = load_sound h row s b cc
      returned row (err x) y p = cc

      go :
          (o : Option Row)
          → (let r : Result StorageError (Option Bytes) × ObjectStore = elim o [
            | none ↦ (ok none, s)
            | some row ↦ get_row blake3 now h row s
          ] in
              r.0 ≡ ok (some b))
          → blake3 b ≡ h
      go none p = cc
      go (some row) p = returned row (load blake3 h row s) refl p

  slice_lem :
      (first stop : ℕ) (whole out : Bytes)
      → slice_of first stop (ok (some whole)) ≡ ok (some out)
      → (first ≤ stop) × (stop ≤ length whole) × (out ≡ take (stop - first) (drop first whole))
  unfolding slice_of slice
  slice_lem first stop whole out p = elim (Bool-cases (ltb stop first)) [
    | inl x ↦ ground arith
    | inr x ↦ elim (Bool-cases (ltb (length whole) stop)) [
      | inl y ↦ ground arith
      | inr y ↦ (ground arith, ground arith, ground arith)
    ]
  ]

  -- From any store, whatever its rows and files hold, a fetch of a range that returns bytes returns
  -- the range, with its bounds in order and inside, of contents that have the address.
  pub get_range_sound :
      (now : ℕ) (h : Bytes) (first stop : ℕ) (s : ObjectStore) (out : Bytes)
      → (get_range blake3 now h first stop s).0 ≡ ok (some out)
      → (whole : Bytes) × (blake3 whole ≡ h)
        × (first ≤ stop)
        × (stop ≤ length whole)
        × (out ≡ take (stop - first) (drop first whole))
  unfolding get_range slice_of slice
  get_range_sound now h first stop s out e = go (get blake3 now h s).0 refl e
    where
      go :
          (r : Result StorageError (Option Bytes))
          → (get blake3 now h s).0 ≡ r
          → slice_of first stop r ≡ ok (some out)
          → (whole : Bytes) × (blake3 whole ≡ h)
            × (first ≤ stop)
            × (stop ≤ length whole)
            × (out ≡ take (stop - first) (drop first whole))
      go (err x) y p = cc
      go (ok none) y p = cc
      go (ok (some whole)) y p =
          let (q, r, u) = slice_lem first stop whole out p in
          (whole, get_sound now h s whole y, q, r, u)
