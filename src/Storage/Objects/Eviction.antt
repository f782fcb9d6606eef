-- ===== src/Storage/Objects/Eviction.antt =====
-- Eviction in crates/sidevers-storage/src/object.rs: the loop of `evict_to_budget`.
use sidevers_protocol.Cbor.Writer.{Bytes}
use sidevers_protocol.Common.{
  ◌+◌, ◌≡◌, refl, ◌∙◌, subst, inl, inr, Bool, true, false, Option, none, some, [], ◌∷◌, arith,
  if◌then◌else◌, Bool-cases,
}
use sidevers_protocol.Common.Eq.{bytes_Eq}
use sidevers_protocol.Storage.Objects.{
  Row, ObjectStore, sum_sizes, older, insert_sorted, order_by_age, is_unpinned, candidates,
  evict_one,
}
use sidevers_protocol.Table.{Table, lookup, remove, Absent, IsMap}
use sidevers_protocol.Table.Laws.{
  lookup-remove, beq_self, IsMap-retain, IsMap-remove, lookup-retain, lookup-Absent, beq_flip,
}

lookup-insert_sorted :
    (k h : Bytes) (row : Row) (m : Table Bytes Row)
    → Absent h m
    → lookup k (insert_sorted h row m) ≡ (if bytes_Eq.beq h k then some row else lookup k m)
unfolding insert_sorted lookup
lookup-insert_sorted k h row [] a = refl
lookup-insert_sorted k h row ((j, w) ∷ m) a = ground (
  arith,
  bytes_Eq.beq_iff j h,
  bytes_Eq.beq_iff h k,
  bytes_Eq.beq_iff j k,
  lookup-insert_sorted k h row m a.1,
  a.0,
)

Absent-insert_sorted :
    (k h : Bytes) (row : Row) (m : Table Bytes Row)
    → bytes_Eq.beq h k ≡ false
    → Absent k m
    → Absent k (insert_sorted h row m)
unfolding insert_sorted
Absent-insert_sorted k h row [] x a = (x, tt)
Absent-insert_sorted k h row ((j, w) ∷ m) x a = elim (Bool-cases (older row w)) [
  | inl y ↦ rw y (x, a)
  | inr y ↦ rw y (a.0, Absent-insert_sorted k h row m x a.1)
]

IsMap-insert_sorted :
    (h : Bytes) (row : Row) (m : Table Bytes Row)
    → Absent h m
    → IsMap m
    → IsMap (insert_sorted h row m)
unfolding insert_sorted
IsMap-insert_sorted h row [] a d = (tt, tt)
IsMap-insert_sorted h row ((j, w) ∷ m) a d = elim (Bool-cases (older row w)) [
  | inl y ↦ rw y (a, d)
  | inr y ↦
      rw y
        (Absent-insert_sorted j h row m (beq_flip j h a.0) d.0, IsMap-insert_sorted h row m a.1 d.1)
]

Absent-order_by_age : (k : Bytes) (m : Table Bytes Row) → Absent k m → Absent k (order_by_age m)
unfolding order_by_age
Absent-order_by_age k [] a = tt
Absent-order_by_age k ((j, w) ∷ m) a =
    Absent-insert_sorted k j w (order_by_age m) a.0 (Absent-order_by_age k m a.1)

pub IsMap-order_by_age : (m : Table Bytes Row) → IsMap m → IsMap (order_by_age m)
unfolding order_by_age
IsMap-order_by_age [] d = tt
IsMap-order_by_age ((j, w) ∷ m) d =
    IsMap-insert_sorted j w (order_by_age m) (Absent-order_by_age j m d.0)
      (IsMap-order_by_age m d.1)

pub lookup-order_by_age :
    (k : Bytes) (m : Table Bytes Row) → IsMap m → lookup k (order_by_age m) ≡ lookup k m
unfolding order_by_age lookup
lookup-order_by_age k [] d = refl
lookup-order_by_age k ((j, w) ∷ m) d =
    rw (lookup-insert_sorted k j w (order_by_age m) (Absent-order_by_age j m d.0))
      (rw (lookup-order_by_age k m d.1) refl)

-- The row of an address, if eviction may take it.
abbrev pub free_row : Option Row → Option Row
free_row none = none
free_row (some row) = if row.pinned then none else some row

-- The candidates that are left are those rows of the store that may go.
abbrev pub Covers : Table Bytes Row → ObjectStore → Type 0
Covers cs s = IsMap cs × IsMap s.rows × ((k : Bytes) → lookup k cs ≡ free_row (lookup k s.rows))

free_row-elim :
    (k : Bytes) (o : Option Row)
    → elim o [ none ↦ none | some row ↦ if is_unpinned k row then some row else none ] ≡ free_row o
free_row-elim k none = refl
free_row-elim k (some row) = ground arith

pub candidates-Covers : (s : ObjectStore) → IsMap s.rows → Covers (candidates s) s
unfolding candidates
candidates-Covers s d =
    let d' = IsMap-retain is_unpinned s.rows d in
    (
      IsMap-order_by_age _ d',
      d,
      λ k.
          lookup-order_by_age k _ d'
          ∙ lookup-retain is_unpinned k s.rows d
          ∙ free_row-elim k (lookup k s.rows),
    )

if-no : (b : Bool) {A : Type 0} (x : A) {y z : A} → b ≡ false → (if b then x else y) ≡ z → y ≡ z
if-no true x h e = cc
if-no false x h e = e

if-yes :
    (b : Bool) {A : Type 0} {x : A} (y : A) {z : A} → b ≡ true → (if b then x else y) ≡ z → x ≡ z
if-yes true y h e = e
if-yes false y h e = cc

-- What the rows of the store say of the candidates.
Covers-rows :
    (h k : Bytes) (row : Row) (cs : Table Bytes Row) (s : ObjectStore)
    → Covers ((h, row) ∷ cs) s
    → (if bytes_Eq.beq h k then some row else lookup k cs) ≡ free_row (lookup k s.rows)
unfolding lookup
Covers-rows h k row cs s (d, e, c) = c k

pub evict_one-Covers :
    (h : Bytes) (row : Row) (cs : Table Bytes Row) (s : ObjectStore)
    → Covers ((h, row) ∷ cs) s
    → Covers cs (evict_one h s)
unfolding evict_one
evict_one-Covers h row cs s (d, e, c) =
    let rows = λ (k : Bytes). Covers-rows h k row cs s (d, e, c) in
    (
      d.1,
      IsMap-remove h s.rows e,
      λ k. rw (lookup-remove h k s.rows) (elim (Bool-cases (bytes_Eq.beq h k)) [
        | inl x ↦ rw x (
            subst (λ (y : Bytes). lookup y cs ≡ none) ((bytes_Eq.beq_iff h k).0 x)
              (lookup-Absent h cs d.0))
        | inr x ↦ rw x (if-no (bytes_Eq.beq h k) _ x (rows k))
      ]),
    )

-- The row of the first candidate is that of the store.
pub head-row :
    (h : Bytes) (row : Row) (cs : Table Bytes Row) (s : ObjectStore)
    → Covers ((h, row) ∷ cs) s
    → (lookup h s.rows ≡ some row) × (row.pinned ≡ false)
head-row h row cs s (d, e, c) =
    go (lookup h s.rows)
      (if-yes (bytes_Eq.beq h h) _ (beq_self h) (Covers-rows h h row cs s (d, e, c)))
  where
    go : (o : Option Row) → some row ≡ free_row o → (o ≡ some row) × (row.pinned ≡ false)
    go none p = cc
    go (some r) p = elim (Bool-cases r.pinned) [
      | inl x ↦ absurd (ground arith)
      | inr x ↦ ground arith
    ]

remove-Absent : (k : Bytes) (m : Table Bytes Row) → Absent k m → remove k m ≡ m
unfolding remove
remove-Absent k [] a = refl
remove-Absent k ((j, w) ∷ m) a = rw a.0 (rw (remove-Absent k m a.1) refl)

pub sum_sizes-remove :
    (k : Bytes) (row : Row) (m : Table Bytes Row)
    → IsMap m
    → lookup k m ≡ some row
    → sum_sizes m ≡ row.size + sum_sizes (remove k m)
unfolding sum_sizes remove lookup
sum_sizes-remove k row [] d e = cc
sum_sizes-remove k row ((j, w) ∷ m) d e = elim (Bool-cases (bytes_Eq.beq j k)) [
  | inl x ↦
      let same : j ≡ k = (bytes_Eq.beq_iff j k).0 x in
      rw x (rw (remove-Absent k m (subst (λ (y : Bytes). Absent y m) same d.0)) (ground arith))
  | inr x ↦ rw x (rw (sum_sizes-remove k row m d.1 (rw x at e)) (omega arith))
]
