-- ===== src/Storage/Objects/Recency.antt =====
-- The order in which `evict_to_budget` of crates/sidevers-storage/src/object.rs takes rows.
use sidevers_protocol.Cbor.Writer.{Bytes}
use sidevers_protocol.Common.{
  ℕ, ◌-◌, ◌<◌, ◌≤◌, ◌⊎◌, ◌≡◌, refl, sym, ap, ◌∙◌, subst, inl, inr, true, false, none, some, [], ◌∷◌,
  arith, ◌==◌, Bool-cases,
}
use sidevers_protocol.Common.Eq.{bytes_Eq}
use sidevers_protocol.Storage.Objects.{
  Row, ObjectStore, total_bytes, older, insert_sorted, order_by_age, candidates, evict_one,
  evict_loop, evict_to_budget,
}
use sidevers_protocol.Storage.Objects.Budget.{loop-rows, evict_to_budget-cases}
use sidevers_protocol.Storage.Objects.Eviction.{
  Covers, candidates-Covers, evict_one-Covers, head-row, free_row,
}
use sidevers_protocol.Table.{Table, lookup, IsMap}
use sidevers_protocol.Table.Laws.{lookup-remove}

-- Every row of the table was used no earlier than `r`.
abbrev OlderThan : Row → Table Bytes Row → Type 0
OlderThan r [] = Unit {0}
OlderThan r ((j, w) ∷ m) = (older r w ≡ true) × OlderThan r m

abbrev IsOrdered : Table Bytes Row → Type 0
IsOrdered [] = Unit {0}
IsOrdered ((j, w) ∷ m) = OlderThan w m × IsOrdered m

older_flip : (a b : Row) → older a b ≡ false → older b a ≡ true
older_flip a b h = ground arith

older_trans : (a b c : Row) → older a b ≡ true → older b c ≡ true → older a c ≡ true
older_trans a b c h h' = ground arith

older_lem :
    (a b : Row)
    → older a b ≡ true
    → (a.last_accessed < b.last_accessed)
      ⊎ ((a.last_accessed ≡ b.last_accessed) × (a.added_at ≤ b.added_at))
older_lem a b h = elim (Bool-cases (a.last_accessed == b.last_accessed)) [
  | inl x ↦ inr (ground arith, ground arith)
  | inr x ↦ inl (ground arith)
]

OlderThan-trans :
    (a b : Row) (m : Table Bytes Row) → older a b ≡ true → OlderThan b m → OlderThan a m
OlderThan-trans a b [] h o = tt
OlderThan-trans a b ((j, w) ∷ m) h o = (older_trans a b w h o.0, OlderThan-trans a b m h o.1)

OlderThan-insert_sorted :
    (a : Row) (h : Bytes) (row : Row) (m : Table Bytes Row)
    → older a row ≡ true
    → OlderThan a m
    → OlderThan a (insert_sorted h row m)
unfolding insert_sorted
OlderThan-insert_sorted a h row [] x o = (x, tt)
OlderThan-insert_sorted a h row ((j, w) ∷ m) x o = elim (Bool-cases (older row w)) [
  | inl y ↦ rw y (x, o)
  | inr y ↦ rw y (o.0, OlderThan-insert_sorted a h row m x o.1)
]

IsOrdered-insert_sorted :
    (h : Bytes) (row : Row) (m : Table Bytes Row) → IsOrdered m → IsOrdered (insert_sorted h row m)
unfolding insert_sorted
IsOrdered-insert_sorted h row [] o = (tt, tt)
IsOrdered-insert_sorted h row ((j, w) ∷ m) o = elim (Bool-cases (older row w)) [
  | inl y ↦ rw y ((y, OlderThan-trans row w m y o.0), o)
  | inr y ↦ rw y (
    OlderThan-insert_sorted w h row m (older_flip row w y) o.0,
    IsOrdered-insert_sorted h row m o.1,
  )
]

IsOrdered-order_by_age : (m : Table Bytes Row) → IsOrdered (order_by_age m)
unfolding order_by_age
IsOrdered-order_by_age [] = tt
IsOrdered-order_by_age ((j, w) ∷ m) =
    IsOrdered-insert_sorted j w (order_by_age m) (IsOrdered-order_by_age m)

OlderThan-lookup :
    (a w : Row) (k : Bytes) (m : Table Bytes Row)
    → OlderThan a m
    → lookup k m ≡ some w
    → older a w ≡ true
unfolding lookup
OlderThan-lookup a w k [] o e = cc
OlderThan-lookup a w k ((j, v) ∷ m) o e = elim (Bool-cases (bytes_Eq.beq j k)) [
  | inl x ↦ ground arith
  | inr x ↦ OlderThan-lookup a w k m o.1 (rw x at e)
]

-- A row that may go and is left was used no earlier than the candidate that is taken.
left-older :
    (h j : Bytes) (row rj : Row) (cs : Table Bytes Row) (n : ℕ) (s : ObjectStore)
    → Covers ((h, row) ∷ cs) s
    → OlderThan row cs
    → lookup j (evict_loop cs n (evict_one h s)).1.rows ≡ some rj
    → rj.pinned ≡ false
    → older row rj ≡ true
left-older h j row rj cs n s c o e u =
    let rest = evict_one-Covers h row cs s c in
    elim (loop-rows cs n (evict_one h s) j rest) [
      | inl p ↦
          let there : lookup j (evict_one h s).rows ≡ some rj = sym p ∙ e in
          let may_go : free_row (some rj) ≡ some rj = rw u refl in
          OlderThan-lookup row rj j cs o (rest.2 j ∙ ap free_row there ∙ may_go)
      | inr (p, q) ↦ cc
    ]

loop-stop :
    (h : Bytes) (row : Row) (cs : Table Bytes Row) (n : ℕ) (s : ObjectStore)
    → (n == 0) ≡ true
    → (evict_loop ((h, row) ∷ cs) n s).1 ≡ s
unfolding evict_loop
loop-stop h row cs n s x = rw x refl

loop-more :
    (h : Bytes) (row : Row) (cs : Table Bytes Row) (n : ℕ) (s : ObjectStore)
    → (n == 0) ≡ false
    → (evict_loop ((h, row) ∷ cs) n s).1 ≡ (evict_loop cs (n - row.size) (evict_one h s)).1
unfolding evict_loop
loop-more h row cs n s x = rw x refl

loop-older :
    (cs : Table Bytes Row) (n : ℕ) (s : ObjectStore) (i j : Bytes) (ri rj : Row)
    → Covers cs s
    → IsOrdered cs
    → lookup i s.rows ≡ some ri
    → lookup i (evict_loop cs n s).1.rows ≡ none
    → lookup j (evict_loop cs n s).1.rows ≡ some rj
    → rj.pinned ≡ false
    → older ri rj ≡ true
unfolding evict_one
loop-older [] n s i j ri rj c o before gone e u =
    let gone' : lookup i s.rows ≡ none = unfold evict_loop in gone in cc
loop-older ((h, row) ∷ cs) n s i j ri rj c o before gone e u = elim (Bool-cases (n == 0)) [
  | inl x ↦
      let stopped = loop-stop h row cs n s x in
      let gone' : lookup i s.rows ≡ none =
        subst (λ (t : ObjectStore). lookup i t.rows ≡ none) stopped gone in
      cc
  | inr x ↦
      let more = loop-more h row cs n s x in
      let gone' = subst (λ (t : ObjectStore). lookup i t.rows ≡ none) more gone in
      let left = subst (λ (t : ObjectStore). lookup j t.rows ≡ some rj) more e in
      elim (Bool-cases (bytes_Eq.beq h i)) [
        | inl y ↦
            let same : h ≡ i = (bytes_Eq.beq_iff h i).0 y in
            let at_i =
              subst (λ (k : Bytes). lookup k s.rows ≡ some row) same (head-row h row cs s c).0 in
            let row_is : row ≡ ri = cc in
            subst (λ (r : Row). older r rj ≡ true) row_is
              (left-older h j row rj cs (n - row.size) s c o.0 left u)
        | inr y ↦
            let before' : lookup i (evict_one h s).rows ≡ some ri =
              rw (lookup-remove h i s.rows) (rw y before) in
            loop-older cs (n - row.size) (evict_one h s) i j ri rj (evict_one-Covers h row cs s c)
              o.1 before' gone' left u
      ]
]

candidates-IsOrdered : (s : ObjectStore) → IsOrdered (candidates s)
unfolding candidates
candidates-IsOrdered s = IsOrdered-order_by_age _

-- For a table whose addresses are distinct: an eviction that takes the row of one address and leaves
-- a row without a pin at another takes the one whose last access, then whose insertion, is no later.
pub evict_to_budget-older :
    (s : ObjectStore) (i j : Bytes) (ri rj : Row)
    → IsMap s.rows
    → lookup i s.rows ≡ some ri
    → lookup i (evict_to_budget s).1.rows ≡ none
    → lookup j (evict_to_budget s).1.rows ≡ some rj
    → rj.pinned ≡ false
    → (ri.last_accessed < rj.last_accessed)
      ⊎ ((ri.last_accessed ≡ rj.last_accessed) × (ri.added_at ≤ rj.added_at))
evict_to_budget-older s i j ri rj d before gone left u = elim (evict_to_budget-cases s) [
  | inl p ↦ let gone' = subst (λ (t : ObjectStore). lookup i t.rows ≡ none) p gone in cc
  | inr p ↦ older_lem ri rj (
      loop-older (candidates s) (total_bytes s - s.max_bytes) s i j ri rj (candidates-Covers s d)
        (candidates-IsOrdered s) before (subst (λ (t : ObjectStore). lookup i t.rows ≡ none) p gone)
        (subst (λ (t : ObjectStore). lookup j t.rows ≡ some rj) p left) u)
]
