-- ===== src/Storage/Objects/PutGet.antt =====
-- Storing and fetching in crates/sidevers-storage/src/object.rs.
use sidevers_protocol.Cbor.Writer.{Bytes}
use sidevers_protocol.Common.{
  ℕ, ◌≡◌, refl, sym, ap, ◌∙◌, subst, inl, inr, true, Option, none, some, leb, if◌then◌else◌,
  Bool-cases, length,
}
use sidevers_protocol.Common.Eq.{bytes_Eq}
use sidevers_protocol.Errors.{Result, ok, err}
use sidevers_protocol.Storage.Objects.{
  Row, ObjectStore, StorageError, io, insert_or_ignore, new_row, write_file, touch_last_accessed,
  read_file, row_bytes, put, verify_hash, load, return_loaded, get_row, get, inline_max, size,
}
use sidevers_protocol.Storage.Objects.Contents.{
  stored_in, stored, content_of, content, Holds, HoldsOf, IsIntact, CollisionFree,
  IsIntact-update_row, content-update_row,
}
use sidevers_protocol.Table.{Table, lookup, insert}
use sidevers_protocol.Table.Laws.{lookup-insert, beq_self}

pub put_address :
    (blake3 : Bytes → Bytes) (now : ℕ) (b : Bytes) (s : ObjectStore)
    → (put blake3 now b s).0 ≡ blake3 b
unfolding put
put_address blake3 now b s = elim (Bool-cases (leb (length b) inline_max)) [
  | inl x ↦ rw x refl
  | inr x ↦ rw x refl
]

module _ (blake3 : Bytes → Bytes) (Known : Bytes → Type 0) where
  -- Bytes with the address of an intact row are the bytes of the row.
  row_is :
      (row : Row) (b : Bytes) (files : Table Bytes Bytes)
      → CollisionFree blake3 Known
      → Known b
      → Holds blake3 Known (blake3 b) row files
      → stored (blake3 b) row files ≡ some b
  row_is row b files free kb (b', p, q, r, _) = p ∙ ap some (free b' b r kb q)

  stored_in-insert :
      (h k : Bytes) (b : Bytes) (inline : Option Bytes) (files : Table Bytes Bytes)
      → (bytes_Eq.beq h k ≡ true → stored_in k inline files ≡ some b)
      → stored_in k inline (insert h b files) ≡ stored_in k inline files
  stored_in-insert h k b (some contents) files same = refl
  stored_in-insert h k b none files same = elim (Bool-cases (bytes_Eq.beq h k)) [
    | inl x ↦ rw (lookup-insert h k b files) (rw x (sym (same x)))
    | inr x ↦ rw (lookup-insert h k b files) (rw x refl)
  ]

  row-insert :
      (k : Bytes) (b : Bytes) (row : Row) (files : Table Bytes Bytes)
      → CollisionFree blake3 Known
      → Known b
      → Holds blake3 Known k row files
      → stored k row (insert (blake3 b) b files) ≡ stored k row files
  row-insert k b row files free kb holds = stored_in-insert (blake3 b) k b row.inline files λ x.
      let same : blake3 b ≡ k = (bytes_Eq.beq_iff (blake3 b) k).0 x in
      subst (λ (y : Bytes). Holds blake3 Known y row files → stored y row files ≡ some b) same
        (row_is row b files free kb) holds

  HoldsOf-insert :
      (k : Bytes) (b : Bytes) (o : Option Row) (files : Table Bytes Bytes)
      → CollisionFree blake3 Known
      → Known b
      → HoldsOf blake3 Known k o files
      → HoldsOf blake3 Known k o (insert (blake3 b) b files)
        × (content_of k o (insert (blake3 b) b files) ≡ content_of k o files)
  HoldsOf-insert k b none files free kb u = (u, refl)
  HoldsOf-insert k b (some row) files free kb (b', p, q, r, l) =
      let same = row-insert k b row files free kb (b', p, q, r, l) in
      ((b', same ∙ p, q, r, l), same)

  IsIntact-insert_or_ignore :
      (b : Bytes) (row : Row) (s : ObjectStore)
      → CollisionFree blake3 Known
      → Known b
      → length b ≡ row.size
      → stored (blake3 b) row s.files ≡ some b
      → IsIntact blake3 Known s
      → (k : Bytes)
      → HoldsOf blake3 Known k
          (lookup k (insert_or_ignore (blake3 b) row s).rows)
          (insert_or_ignore (blake3 b) row s).files
        × (content k (insert_or_ignore (blake3 b) row s)
            ≡ (if bytes_Eq.beq (blake3 b) k then some b else content k s))
  unfolding insert_or_ignore
  IsIntact-insert_or_ignore b row s free kb size at_h i k = go (lookup (blake3 b) s.rows) refl
    where
      there : (x : bytes_Eq.beq (blake3 b) k ≡ true) → stored k row s.files ≡ some b
      there x =
          subst (λ (y : Bytes). stored y row s.files ≡ some b) ((bytes_Eq.beq_iff (blake3 b) k).0 x)
            at_h

      old_there :
          (old : Row)
          → lookup (blake3 b) s.rows ≡ some old
          → (x : bytes_Eq.beq (blake3 b) k ≡ true) → content k s ≡ some b
      old_there old e x =
          subst (λ (y : Bytes). content y s ≡ some b) ((bytes_Eq.beq_iff (blake3 b) k).0 x)
            (rw e (
              row_is old b s.files free kb (
                subst (λ (o : Option Row). HoldsOf blake3 Known (blake3 b) o s.files) e
                  (i (blake3 b)))))

      go :
          (o : Option Row)
          → lookup (blake3 b) s.rows ≡ o
          → (let s' : ObjectStore = elim o [
            | none ↦ record s { rows = insert (blake3 b) row s.rows }
            | some old ↦ s
          ] in
              HoldsOf blake3 Known k (lookup k s'.rows) s'.files
              × (content k s' ≡ (if bytes_Eq.beq (blake3 b) k then some b else content k s)))
      go (some old) e = elim (Bool-cases (bytes_Eq.beq (blake3 b) k)) [
        | inl x ↦ (i k, rw x (old_there old e x))
        | inr x ↦ (i k, rw x refl)
      ]
      go none e = elim (Bool-cases (bytes_Eq.beq (blake3 b) k)) [
        | inl x ↦
            rw (lookup-insert (blake3 b) k row s.rows)
              (rw x ((b, there x, (bytes_Eq.beq_iff (blake3 b) k).0 x, kb, size), there x))
        | inr x ↦ rw (lookup-insert (blake3 b) k row s.rows) (rw x (i k, refl))
      ]

  -- With known contents that do not collide, storing keeps an intact store intact; afterwards the new
  -- bytes are at their address, and every other address has what it had.
  pub put_lem :
      (now : ℕ) (b : Bytes) (s : ObjectStore)
      → CollisionFree blake3 Known
      → Known b
      → IsIntact blake3 Known s
      → IsIntact blake3 Known (put blake3 now b s).1
        × ((k : Bytes)
            → content k (put blake3 now b s).1
              ≡ (if bytes_Eq.beq (blake3 b) k then some b else content k s))
  unfolding put write_file new_row
  put_lem now b s free kb i = elim (Bool-cases (leb (length b) inline_max)) [
    | inl x ↦ rw x (
        let both =
          IsIntact-insert_or_ignore b (new_row now (length b) (some b)) s free kb refl refl i in
        (λ k. (both k).0, λ k. (both k).1))
    | inr x ↦ rw x (
        let files' = insert (blake3 b) b s.files in
        let s' : ObjectStore = record s { files = files' } in
        let written = λ (k : Bytes). HoldsOf-insert k b (lookup k s.rows) s.files free kb (i k) in
        let at_h : lookup (blake3 b) files' ≡ some b =
          rw (lookup-insert (blake3 b) (blake3 b) b s.files) (rw (beq_self (blake3 b)) refl) in
        let both =
          IsIntact-insert_or_ignore b (new_row now (length b) none) s' free kb refl at_h
            (λ k. (written k).0) in
        (
          λ k. (both k).0,
          λ k.
              (both k).1
              ∙ ap (λ (o : Option Bytes). if bytes_Eq.beq (blake3 b) k then some b else o)
                  (written k).1,
        ))
  ]

  verify_hash_self : (b h : Bytes) → blake3 b ≡ h → verify_hash blake3 b h ≡ ok tt
  unfolding verify_hash
  verify_hash_self b h e = rw e (rw (beq_self h) refl)

  read-stored :
      (h : Bytes) (row : Row) (s : ObjectStore) (b : Bytes)
      → stored h row s.files ≡ some b
      → row_bytes h row s ≡ ok b
  unfolding row_bytes read_file
  read-stored h row s b e = go row.inline e
    where
      go :
          (inline : Option Bytes)
          → stored_in h inline s.files ≡ some b
          → elim inline [
            | some contents ↦ ok contents
            | none ↦ elim (lookup h s.files) [ none ↦ err io | some contents ↦ ok contents ]
          ]
            ≡ ok b
      go none p = rw p refl
      go (some contents) p = cc

  get_row_lem :
      (now : ℕ) (h : Bytes) (row : Row) (s : ObjectStore) (b : Bytes)
      → row_bytes h row s ≡ ok b
      → blake3 b ≡ h
      → get_row blake3 now h row s ≡ (ok (some b), touch_last_accessed now h s)
  unfolding get_row return_loaded load
  get_row_lem now h row s b e q = rw e (rw (verify_hash_self b h q) refl)

  -- From an intact store, a fetch returns what is at the address, or nothing where nothing is.
  pub get_lem :
      (now : ℕ) (h : Bytes) (s : ObjectStore)
      → IsIntact blake3 Known s
      → ((get blake3 now h s).0 ≡ ok (content h s))
        × IsIntact blake3 Known (get blake3 now h s).1
        × ((k : Bytes) → content k (get blake3 now h s).1 ≡ content k s)
  unfolding get touch_last_accessed
  get_lem now h s i = go (lookup h s.rows) (i h)
    where
      go :
          (o : Option Row)
          → HoldsOf blake3 Known h o s.files
          → (let r : Result StorageError (Option Bytes) × ObjectStore = elim o [
            | none ↦ (ok none, s)
            | some row ↦ get_row blake3 now h row s
          ] in
              (r.0 ≡ ok (content_of h o s.files))
              × IsIntact blake3 Known r.1
              × ((k : Bytes) → content k r.1 ≡ content k s))
      go none u = (refl, i, λ k. refl)
      go (some row) (b, p, q, r, l) = rw (get_row_lem now h row s b (read-stored h row s b p) q) (
        ap ok (sym p),
        IsIntact-update_row blake3 Known h _ s (λ w. (refl, refl)) i,
        λ k. content-update_row h k _ s (λ w. refl),
      )
