-- ===== src/Storage/Objects/Budget.antt =====
-- What `evict_to_budget` of crates/sidevers-storage/src/object.rs takes and leaves.
use sidevers_protocol.Cbor.Writer.{Bytes}
use sidevers_protocol.Common.{
  ℕ, ◌+◌, ◌-◌, ◌≤◌, ◌≡◌, refl, sym, ap, ◌∙◌, subst, ◌⊎◌, inl, inr, false, Option, none, some, [],
  ◌∷◌, arith, leb, ◌==◌, Bool-cases,
}
use sidevers_protocol.Common.Eq.{bytes_Eq}
use sidevers_protocol.Storage.Objects.{
  Row, ObjectStore, total_bytes, candidates, evict_one, evict_loop, evict_to_budget,
}
use sidevers_protocol.Storage.Objects.Eviction.{
  Covers, candidates-Covers, evict_one-Covers, head-row, sum_sizes-remove, free_row,
}
use sidevers_protocol.Table.{Table, lookup, IsMap}
use sidevers_protocol.Table.Laws.{lookup-remove}

total-evict_one :
    (h : Bytes) (row : Row) (cs : Table Bytes Row) (s : ObjectStore)
    → Covers ((h, row) ∷ cs) s
    → total_bytes s ≡ row.size + total_bytes (evict_one h s)
unfolding total_bytes evict_one
total-evict_one h row cs s c = sum_sizes-remove h row s.rows c.1 (head-row h row cs s c).0

-- What the loop drops is what the total loses, and it drops enough or everything that may go.
loop-total :
    (cs : Table Bytes Row) (n : ℕ) (s : ObjectStore)
    → Covers cs s
    → let ((count, dropped), s') = evict_loop cs n s in
      (total_bytes s ≡ dropped + total_bytes s')
      × ((n ≤ dropped) ⊎ ((k : Bytes) → free_row (lookup k s'.rows) ≡ none))
unfolding evict_loop lookup
loop-total [] n s c = (omega arith, inr (λ k. sym (c.2 k)))
loop-total ((h, row) ∷ cs) n s c = elim (Bool-cases (n == 0)) [
  | inl x ↦ rw x (omega arith, inl (ground arith))
  | inr x ↦ rw x (
      let (total, rest) =
        loop-total cs (n - row.size) (evict_one h s) (evict_one-Covers h row cs s c) in
      let one = total-evict_one h row cs s c in
      (omega arith, elim rest [ inl y ↦ inl (omega arith) | inr y ↦ inr y ]))
]

-- The row is as before, or one that could go is gone.
abbrev pub SameOrGone : Option Row → Option Row → Type 0
SameOrGone before after =
    (after ≡ before) ⊎ ((after ≡ none) × ((row : Row) → before ≡ some row → row.pinned ≡ false))

pub loop-rows :
    (cs : Table Bytes Row) (n : ℕ) (s : ObjectStore) (k : Bytes)
    → Covers cs s
    → SameOrGone (lookup k s.rows) (lookup k (evict_loop cs n s).1.rows)
unfolding evict_loop evict_one
loop-rows [] n s k c = inl refl
loop-rows ((h, row) ∷ cs) n s k c = elim (Bool-cases (n == 0)) [
  | inl x ↦ rw x (inl refl)
  | inr x ↦
      rw x (taken _ (loop-rows cs (n - row.size) (evict_one h s) k (evict_one-Covers h row cs s c)))
]
  where
    taken :
        (o : Option Row)
        → SameOrGone (lookup k (evict_one h s).rows) o
        → SameOrGone (lookup k s.rows) o
    taken o rest = elim (Bool-cases (bytes_Eq.beq h k)) [
      | inl x ↦
          let same : h ≡ k = (bytes_Eq.beq_iff h k).0 x in
          let (at_h, unpinned) = head-row h row cs s c in
          let gone : lookup k (evict_one h s).rows ≡ none =
            rw (lookup-remove h k s.rows) (rw x refl) in
          inr (
            elim rest [ inl p ↦ p ∙ gone | inr (p, q) ↦ p ],
            λ r e.
                subst (λ (y : Bytes). lookup y s.rows ≡ some r → r.pinned ≡ false) same (λ e'. cc)
                  e,
          )
      | inr x ↦
          let kept : lookup k (evict_one h s).rows ≡ lookup k s.rows =
            rw (lookup-remove h k s.rows) (rw x refl) in
          subst (λ (b : Option Row). SameOrGone b o) kept rest
    ]

pub evict_to_budget-cases :
    (s : ObjectStore)
    → ((evict_to_budget s).1 ≡ s)
      ⊎ ((evict_to_budget s).1 ≡ (evict_loop (candidates s) (total_bytes s - s.max_bytes) s).1)
unfolding evict_to_budget
evict_to_budget-cases s = elim (Bool-cases (s.max_bytes == 0)) [
  | inl x ↦ rw x (inl refl)
  | inr x ↦ elim (Bool-cases (leb (total_bytes s) s.max_bytes)) [
    | inl y ↦ rw (x, y) (inl refl)
    | inr y ↦ rw (x, y) (inr refl)
  ]
]

-- For a table whose addresses are distinct: the total of an eviction is the bytes that it reports and
-- the total that is left, and where there is a budget what is left is within it, unless every row left
-- is pinned.
pub evict_to_budget-total :
    (s : ObjectStore)
    → IsMap s.rows
    → let ((count, dropped), s') = evict_to_budget s in
      (total_bytes s ≡ dropped + total_bytes s')
      × ((s.max_bytes ≡ 0)
          ⊎ ((total_bytes s' ≤ s.max_bytes) ⊎ ((k : Bytes) → free_row (lookup k s'.rows) ≡ none)))
unfolding evict_to_budget
evict_to_budget-total s d = elim (Bool-cases (s.max_bytes == 0)) [
  | inl x ↦ rw x (omega arith, inl (ground arith))
  | inr x ↦ elim (Bool-cases (leb (total_bytes s) s.max_bytes)) [
    | inl y ↦ rw (x, y) (omega arith, inr (inl (ground arith)))
    | inr y ↦
        rw (x, y)
          (let (total, rest) =
              loop-total (candidates s) (total_bytes s - s.max_bytes) s (candidates-Covers s d) in
            (total, inr (elim rest [ inl z ↦ inl (omega arith) | inr z ↦ inr z ])))
  ]
]

-- For a table whose addresses are distinct: after an eviction each address has its row unchanged, or
-- it had a row without a pin, which is gone.
pub evict_to_budget-rows :
    (s : ObjectStore) (k : Bytes)
    → IsMap s.rows
    → SameOrGone (lookup k s.rows) (lookup k (evict_to_budget s).1.rows)
evict_to_budget-rows s k d = elim (evict_to_budget-cases s) [
  | inl p ↦ inl (ap (λ (t : ObjectStore). lookup k t.rows) p)
  | inr p ↦
      subst (λ (t : ObjectStore). SameOrGone (lookup k s.rows) (lookup k t.rows)) (sym p)
        (loop-rows (candidates s) (total_bytes s - s.max_bytes) s k (candidates-Covers s d))
]
