-- ===== src/Storage/Objects/Contents.antt =====
-- What crates/sidevers-storage/src/object.rs holds: the store as a map from addresses to contents.
use sidevers_protocol.Cbor.Writer.{Bytes}
use sidevers_protocol.Common.{
  ◌≡◌, refl, sym, ◌∙◌, subst, ◌⊎◌, inl, inr, true, false, Option, none, some, if◌then◌else◌,
  Bool-cases, length,
}
use sidevers_protocol.Common.Eq.{bytes_Eq}
use sidevers_protocol.Storage.Objects.{Row, ObjectStore, update_row, evict_one}
use sidevers_protocol.Table.{lookup, insert, remove, Table}
use sidevers_protocol.Table.Laws.{lookup-insert, lookup-remove}

-- The bytes of a row, in the row itself or in the file of the address.
abbrev pub stored_in : Bytes → Option Bytes → Table Bytes Bytes → Option Bytes
stored_in h none files = lookup h files
stored_in h (some contents) files = some contents

abbrev pub stored : Bytes → Row → Table Bytes Bytes → Option Bytes
stored h row files = stored_in h row.inline files

abbrev pub content_of : Bytes → Option Row → Table Bytes Bytes → Option Bytes
content_of h none files = none
content_of h (some row) files = stored h row files

-- The contents at an address.
abbrev pub content : Bytes → ObjectStore → Option Bytes
content h s = content_of h (lookup h s.rows) s.files

module _ (blake3 : Bytes → Bytes) (Known : Bytes → Type 0) where
  -- The row at `h` has bytes that are known, hash to `h` and are as many as the row says.
  abbrev pub Holds : Bytes → Row → Table Bytes Bytes → Type 0
  Holds h row files =
      (b : Bytes) × (stored h row files ≡ some b) × (blake3 b ≡ h) × Known b × (length b ≡ row.size)

  abbrev pub HoldsOf : Bytes → Option Row → Table Bytes Bytes → Type 0
  HoldsOf h none files = Unit {0}
  HoldsOf h (some row) files = Holds h row files

  abbrev pub IsIntact : ObjectStore → Type 0
  IsIntact s = (h : Bytes) → HoldsOf h (lookup h s.rows) s.files

-- No two of the known contents have the same address.
abbrev pub CollisionFree : (Bytes → Bytes) → (Bytes → Type 0) → Type 0
CollisionFree blake3 Known = (a b : Bytes) → Known a → Known b → blake3 a ≡ blake3 b → a ≡ b

stored-keep :
    (h : Bytes) (row : Row) (files : Table Bytes Bytes) (f : Row → Row)
    → (f row).inline ≡ row.inline
    → stored h (f row) files ≡ stored h row files
stored-keep h row files f e = rw e refl

pub content-update_row :
    (h k : Bytes) (f : Row → Row) (s : ObjectStore)
    → ((row : Row) → (f row).inline ≡ row.inline)
    → content k (update_row h f s) ≡ content k s
unfolding update_row
content-update_row h k f s keeps = go (lookup h s.rows) refl
  where
    go :
        (o : Option Row)
        → lookup h s.rows ≡ o
        → content k (elim o [ none ↦ s | some row ↦ record s { rows = insert h (f row) s.rows } ])
          ≡ content k s
    go none e = refl
    go (some row) e = elim (Bool-cases (bytes_Eq.beq h k)) [
      | inl x ↦
          let at_k : lookup k s.rows ≡ some row =
            subst (λ (y : Bytes). lookup y s.rows ≡ some row) ((bytes_Eq.beq_iff h k).0 x) e in
          rw (lookup-insert h k (f row) s.rows)
            (rw x (rw at_k (stored-keep k row s.files f (keeps row))))
      | inr x ↦ rw (lookup-insert h k (f row) s.rows) (rw x refl)
    ]

stored_in-remove :
    (h k : Bytes) (inline : Option Bytes) (files : Table Bytes Bytes)
    → bytes_Eq.beq h k ≡ false
    → stored_in k inline (remove h files) ≡ stored_in k inline files
stored_in-remove h k none files x = rw (lookup-remove h k files) (rw x refl)
stored_in-remove h k (some contents) files x = refl

content_of-remove :
    (h k : Bytes) (o : Option Row) (files : Table Bytes Bytes)
    → bytes_Eq.beq h k ≡ false
    → content_of k o (remove h files) ≡ content_of k o files
content_of-remove h k none files x = refl
content_of-remove h k (some row) files x = stored_in-remove h k row.inline files x

pub content-evict_one :
    (h k : Bytes) (s : ObjectStore)
    → content k (evict_one h s) ≡ (if bytes_Eq.beq h k then none else content k s)
unfolding evict_one
content-evict_one h k s = elim (Bool-cases (bytes_Eq.beq h k)) [
  | inl x ↦ rw (lookup-remove h k s.rows) (rw x refl)
  | inr x ↦ rw (lookup-remove h k s.rows) (rw x (content_of-remove h k (lookup k s.rows) s.files x))
]

module _ (blake3 : Bytes → Bytes) (Known : Bytes → Type 0) where
  pub IsIntact-update_row :
      (h : Bytes) (f : Row → Row) (s : ObjectStore)
      → ((row : Row) → ((f row).inline ≡ row.inline) × ((f row).size ≡ row.size))
      → IsIntact blake3 Known s
      → IsIntact blake3 Known (update_row h f s)
  unfolding update_row
  IsIntact-update_row h f s keeps i k = go (lookup h s.rows) refl
    where
      changed :
          (row : Row)
          → bytes_Eq.beq h k ≡ true
          → lookup h s.rows ≡ some row
          → Holds blake3 Known k (f row) s.files
      changed row x e =
          let at_k : lookup k s.rows ≡ some row =
            subst (λ (y : Bytes). lookup y s.rows ≡ some row) ((bytes_Eq.beq_iff h k).0 x) e in
          let (b, p, q, r, l) =
            subst (λ (o : Option Row). HoldsOf blake3 Known k o s.files) at_k (i k) in
          (b, stored-keep k row s.files f (keeps row).0 ∙ p, q, r, l ∙ sym (keeps row).1)

      go :
          (o : Option Row)
          → lookup h s.rows ≡ o
          → (let s' : ObjectStore = elim o [
            | none ↦ s
            | some row ↦ record s { rows = insert h (f row) s.rows }
          ] in
              HoldsOf blake3 Known k (lookup k s'.rows) s'.files)
      go none e = i k
      go (some row) e = elim (Bool-cases (bytes_Eq.beq h k)) [
        | inl x ↦ rw (lookup-insert h k (f row) s.rows) (rw x (changed row x e))
        | inr x ↦ rw (lookup-insert h k (f row) s.rows) (rw x (i k))
      ]

  HoldsOf-remove :
      (h k : Bytes) (o : Option Row) (files : Table Bytes Bytes)
      → bytes_Eq.beq h k ≡ false
      → HoldsOf blake3 Known k o files
      → HoldsOf blake3 Known k o (remove h files)
  HoldsOf-remove h k none files x u = u
  HoldsOf-remove h k (some row) files x (b, p, q, r, l) =
      (b, stored_in-remove h k row.inline files x ∙ p, q, r, l)

  pub IsIntact-evict_one :
      (h : Bytes) (s : ObjectStore)
      → IsIntact blake3 Known s
      → IsIntact blake3 Known (evict_one h s)
  unfolding evict_one
  IsIntact-evict_one h s i k = elim (Bool-cases (bytes_Eq.beq h k)) [
    | inl x ↦ rw (lookup-remove h k s.rows) (rw x tt)
    | inr x ↦
        rw (lookup-remove h k s.rows) (rw x (HoldsOf-remove h k (lookup k s.rows) s.files x (i k)))
  ]

  pub content-Holds :
      (h : Bytes) (s : ObjectStore)
      → IsIntact blake3 Known s
      → (content h s ≡ none) ⊎ ((b : Bytes) × (content h s ≡ some b) × (blake3 b ≡ h) × Known b)
  content-Holds h s i = go (lookup h s.rows) (i h)
    where
      go :
          (o : Option Row)
          → HoldsOf blake3 Known h o s.files
          → (content_of h o s.files ≡ none)
            ⊎ ((b : Bytes) × (content_of h o s.files ≡ some b) × (blake3 b ≡ h) × Known b)
      go none u = inl refl
      go (some row) (b, p, q, r, _) = inr (b, p, q, r)
