-- ===== src/Storage/Objects/Rows.antt =====
-- What the operations of crates/sidevers-storage/src/object.rs leave of a row.
use sidevers_protocol.Cbor.Writer.{Bytes}
use sidevers_protocol.Common.{
  ℕ, ◌≡◌, refl, sym, subst, inl, inr, true, Option, none, some, leb, if◌then◌else◌, Bool-cases,
  length,
}
use sidevers_protocol.Common.Eq.{bytes_Eq}
use sidevers_protocol.Errors.{Result, ok, err}
use sidevers_protocol.Storage.Objects.{
  Row, ObjectStore, StorageError, insert_or_ignore, write_file, update_row, touch_last_accessed,
  return_loaded, get_row, load, put, get, inline_max,
}
use sidevers_protocol.Table.{lookup, insert}
use sidevers_protocol.Table.Laws.{lookup-insert}

-- The row `r` has the size, the bytes, the pin and the time of insertion of `row`; the time of its
-- last access may be another.
abbrev pub IsLike : Row → Row → Type 0
IsLike row r =
    (r.size ≡ row.size)
    × (r.inline ≡ row.inline)
    × (r.pinned ≡ row.pinned)
    × (r.added_at ≡ row.added_at)

-- A row like `row` is there.
abbrev pub Keeps : Row → Option Row → Type 0
Keeps row o = (r : Row) × (o ≡ some r) × IsLike row r

lookup-insert_or_ignore :
    (k h : Bytes) (new r : Row) (s : ObjectStore)
    → lookup h s.rows ≡ some r
    → lookup h (insert_or_ignore k new s).rows ≡ some r
unfolding insert_or_ignore
lookup-insert_or_ignore k h new r s e = go (lookup k s.rows) refl
  where
    go :
        (o : Option Row)
        → lookup k s.rows ≡ o
        → (let s' : ObjectStore = elim o [
          | none ↦ record s { rows = insert k new s.rows }
          | some old ↦ s
        ] in
            lookup h s'.rows ≡ some r)
    go (some old) p = e
    go none p = rw (lookup-insert k h new s.rows) (elim (Bool-cases (bytes_Eq.beq k h)) [
      | inl x ↦
          let there : lookup h s.rows ≡ none =
            subst (λ (y : Bytes). lookup y s.rows ≡ none) ((bytes_Eq.beq_iff k h).0 x) p in
          cc
      | inr x ↦ rw x e
    ])

lookup-update_row :
    (k h : Bytes) (f : Row → Row) (r : Row) (s : ObjectStore)
    → lookup h s.rows ≡ some r
    → lookup h (update_row k f s).rows ≡ some (if bytes_Eq.beq k h then f r else r)
unfolding update_row
lookup-update_row k h f r s e = go (lookup k s.rows) refl
  where
    at_k : bytes_Eq.beq k h ≡ true → lookup k s.rows ≡ some r
    at_k x = subst (λ (y : Bytes). lookup y s.rows ≡ some r) (sym ((bytes_Eq.beq_iff k h).0 x)) e

    go :
        (o : Option Row)
        → lookup k s.rows ≡ o
        → (let s' : ObjectStore = elim o [
          | none ↦ s
          | some old ↦ record s { rows = insert k (f old) s.rows }
        ] in
            lookup h s'.rows ≡ some (if bytes_Eq.beq k h then f r else r))
    go none p = elim (Bool-cases (bytes_Eq.beq k h)) [
      | inl x ↦ let there = at_k x in cc
      | inr x ↦ rw x e
    ]
    go (some old) p = rw (lookup-insert k h (f old) s.rows) (elim (Bool-cases (bytes_Eq.beq k h)) [
      | inl x ↦ let there = at_k x in let same : old ≡ r = cc in rw x (rw same refl)
      | inr x ↦ rw x e
    ])

pub Keeps-update_row :
    (k h : Bytes) (f : Row → Row) (row : Row) (s : ObjectStore)
    → (bytes_Eq.beq k h ≡ true → (r : Row) → IsLike row r → IsLike row (f r))
    → Keeps row (lookup h s.rows)
    → Keeps row (lookup h (update_row k f s).rows)
Keeps-update_row k h f row s like (r, e, l) = (
  if bytes_Eq.beq k h then f r else r,
  lookup-update_row k h f r s e,
  elim (Bool-cases (bytes_Eq.beq k h)) [ inl x ↦ rw x (like x r l) | inr x ↦ rw x l ],
)

module _ (blake3 : Bytes → Bytes) where
  pub put-Keeps :
      (now : ℕ) (b h : Bytes) (row : Row) (s : ObjectStore)
      → Keeps row (lookup h s.rows)
      → Keeps row (lookup h (put blake3 now b s).1.rows)
  unfolding put write_file
  put-Keeps now b h row s (r, e, l) = elim (Bool-cases (leb (length b) inline_max)) [
    | inl x ↦ rw x (r, lookup-insert_or_ignore (blake3 b) h _ r s e, l)
    | inr x ↦ rw x (
      r,
      lookup-insert_or_ignore (blake3 b) h _ r (record s { files = insert (blake3 b) b s.files }) e,
      l,
    )
  ]

  pub get-Keeps :
      (now : ℕ) (k h : Bytes) (row : Row) (s : ObjectStore)
      → Keeps row (lookup h s.rows)
      → Keeps row (lookup h (get blake3 now k s).1.rows)
  unfolding get get_row return_loaded touch_last_accessed
  get-Keeps now k h row s there = go (lookup k s.rows)
    where
      returned :
          (r : Result StorageError Bytes) → Keeps row (lookup h (return_loaded now k s r).1.rows)
      returned (ok b) = Keeps-update_row k h _ row s (λ x r l. l) there
      returned (err e) = there

      go :
          (o : Option Row)
          → (let r : Result StorageError (Option Bytes) × ObjectStore = elim o [
            | none ↦ (ok none, s)
            | some old ↦ get_row blake3 now k old s
          ] in
              Keeps row (lookup h r.1.rows))
      go none = there
      go (some old) = returned (load blake3 k old s)
