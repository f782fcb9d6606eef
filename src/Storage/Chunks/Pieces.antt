-- ===== src/Storage/Chunks/Pieces.antt =====
-- The loops over chunks of crates/sidevers-storage/src/chunking.rs.
use sidevers_protocol.Cbor.Writer.{Bytes}
use sidevers_protocol.Common.{
  ℕ, zero, suc, ◌≤◌, ◌<◌, ◌≡◌, refl, ap, ◌∙◌, inl, inr, some, List, [], ◌∷◌, ◌++◌, map, arith,
  Bool-cases, length, take, drop, take-append-drop, length-drop, All,
}
use sidevers_protocol.Common.Eq.{bytes_Eq}
use sidevers_protocol.Errors.{Result, ok, ◌>>=◌}
use sidevers_protocol.Storage.Chunks.{
  chunks_on, chunks, or_missing, put_pieces, fetch, fetch_pieces, next_piece,
}
use sidevers_protocol.Storage.Objects.{ObjectStore, StorageError, put}
use sidevers_protocol.Storage.Objects.Contents.{content, IsIntact, CollisionFree}
use sidevers_protocol.Storage.Objects.PutGet.{put_lem, get_lem, put_address}
use sidevers_protocol.Table.Laws.{beq_self}

-- The chunks of bytes, one after the other.
abbrev pub join : List Bytes → Bytes
join [] = []
join (c ∷ cs) = c ++ join cs

join-chunks_on :
    (fuel n : ℕ) (contents : Bytes)
    → 0 < n
    → length contents ≤ fuel
    → join (chunks_on fuel n contents) ≡ contents
unfolding chunks_on
join-chunks_on zero n [] h le = refl
join-chunks_on zero n (x ∷ contents) h le = absurd (omega arith)
join-chunks_on (suc fuel) n [] h le = refl
join-chunks_on (suc fuel) (suc n) (x ∷ contents) h le =
    ap (λ (t : Bytes). x ∷ (take n contents ++ t))
      (join-chunks_on fuel (suc n) (drop n contents) h (omega (arith, length-drop n contents)))
    ∙ ap (λ (t : Bytes). x ∷ t) (take-append-drop n contents)
join-chunks_on (suc fuel) zero (x ∷ contents) h le = absurd (omega arith)

-- The chunks of a size above 0 are the bytes in pieces.
pub join-chunks : (n : ℕ) (contents : Bytes) → 0 < n → join (chunks n contents) ≡ contents
unfolding chunks
join-chunks n contents h = join-chunks_on (length contents) n contents h (omega arith)

module _ (blake3 : Bytes → Bytes) (Known : Bytes → Type 0) (free : CollisionFree blake3 Known) where
  -- The store is intact and holds the bytes.
  abbrev pub Stored : ObjectStore → Bytes → Type 0
  Stored s b = content (blake3 b) s ≡ some b

  put-Stored :
      (now : ℕ) (b c : Bytes) (s : ObjectStore)
      → Known b
      → Known c
      → IsIntact blake3 Known s
      → Stored s c
      → Stored (put blake3 now b s).1 c
  put-Stored now b c s kb kc i h = elim (Bool-cases (bytes_Eq.beq (blake3 b) (blake3 c))) [
    | inl x ↦
        let same : b ≡ c = free b c kb kc ((bytes_Eq.beq_iff (blake3 b) (blake3 c)).0 x) in
        (put_lem blake3 Known now b s free kb i).1 (blake3 c) ∙ rw x (ap some same)
    | inr x ↦ (put_lem blake3 Known now b s free kb i).1 (blake3 c) ∙ rw x h
  ]

  pub put_self :
      (now : ℕ) (b : Bytes) (s : ObjectStore)
      → Known b
      → IsIntact blake3 Known s
      → Stored (put blake3 now b s).1 b
  put_self now b s kb i =
      (put_lem blake3 Known now b s free kb i).1 (blake3 b) ∙ rw (beq_self (blake3 b)) refl

  put_pieces-kept :
      (now : ℕ) (cs : List Bytes) (s : ObjectStore) (c : Bytes)
      → All Known cs
      → Known c
      → IsIntact blake3 Known s
      → Stored s c
      → Stored (put_pieces blake3 now cs s).1 c
  unfolding put_pieces
  put_pieces-kept now [] s c ks kc i h = h
  put_pieces-kept now (b ∷ cs) s c ks kc i h =
      put_pieces-kept now cs (put blake3 now b s).1 c ks.1 kc
        (put_lem blake3 Known now b s free ks.0 i).0 (put-Stored now b c s ks.0 kc i h)

  pub put_pieces_lem :
      (now : ℕ) (cs : List Bytes) (s : ObjectStore)
      → All Known cs
      → IsIntact blake3 Known s
      → let ((refs, hashes), s') = put_pieces blake3 now cs s in
        (hashes ≡ map blake3 cs) × IsIntact blake3 Known s' × All (Stored s') cs
  unfolding put_pieces
  put_pieces_lem now [] s ks i = (refl, i, tt)
  put_pieces_lem now (b ∷ cs) s ks i =
      let i' = (put_lem blake3 Known now b s free ks.0 i).0 in
      let (hashes, i'', stored) = put_pieces_lem now cs (put blake3 now b s).1 ks.1 i' in
      (
        rw (put_address blake3 now b s, hashes) refl,
        i'',
        (
          put_pieces-kept now cs (put blake3 now b s).1 b ks.1 ks.0 i' (put_self now b s ks.0 i),
          stored,
        ),
      )

  pub All-put :
      (now : ℕ) (b : Bytes) (cs : List Bytes) (s : ObjectStore)
      → Known b
      → All Known cs
      → IsIntact blake3 Known s
      → All (Stored s) cs
      → All (Stored (put blake3 now b s).1) cs
  All-put now b [] s kb ks i h = tt
  All-put now b (c ∷ cs) s kb ks i h =
      (put-Stored now b c s kb ks.0 i h.0, All-put now b cs s kb ks.1 i h.1)

  pub fetch_lem :
      (now : ℕ) (b : Bytes) (s : ObjectStore)
      → IsIntact blake3 Known s
      → Stored s b
      → ((fetch blake3 now (blake3 b) s).0 ≡ ok b)
        × IsIntact blake3 Known (fetch blake3 now (blake3 b) s).1
        × ((k : Bytes) → content k (fetch blake3 now (blake3 b) s).1 ≡ content k s)
  unfolding fetch or_missing
  fetch_lem now b s i h =
      let (r, i', same) = get_lem blake3 Known now (blake3 b) s i in
      (ap or_missing (r ∙ ap ok h), i', same)

  pub All-Stored :
      (cs : List Bytes) (s s' : ObjectStore)
      → ((k : Bytes) → content k s' ≡ content k s)
      → All (Stored s) cs
      → All (Stored s') cs
  All-Stored [] s s' same h = tt
  All-Stored (c ∷ cs) s s' same h = (same (blake3 c) ∙ h.0, All-Stored cs s s' same h.1)

  pub fetch_pieces_lem :
      (now : ℕ) (cs : List Bytes) (s : ObjectStore)
      → IsIntact blake3 Known s
      → All (Stored s) cs
      → (fetch_pieces blake3 now (map blake3 cs) s).0 ≡ ok (join cs)
  unfolding fetch_pieces next_piece
  fetch_pieces_lem now [] s i h = refl
  fetch_pieces_lem now (c ∷ cs) s i h =
      let (r, i', same) = fetch_lem now c s i h.0 in
      let rest =
        fetch_pieces_lem now cs (fetch blake3 now (blake3 c) s).1 i'
          (All-Stored cs s (fetch blake3 now (blake3 c) s).1 same h.1) in
      ap
        (λ (t : Result StorageError Bytes).
          (next_piece t (fetch blake3 now (blake3 c) s).1
            (fetch_pieces blake3 now (map blake3 cs) (fetch blake3 now (blake3 c) s).1)).0)
        r
      ∙ ap (λ (t : Result StorageError Bytes). t >>= λ more. ok (c ++ more)) rest
