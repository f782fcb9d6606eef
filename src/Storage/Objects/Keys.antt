-- ===== src/Storage/Objects/Keys.antt =====
-- The addresses of the rows in crates/sidevers-storage/src/object.rs stay distinct.
use sidevers_protocol.Cbor.Writer.{Bytes}
use sidevers_protocol.Common.{
  ℕ, ◌-◌, sym, subst, inl, inr, Option, none, some, [], ◌∷◌, leb, ◌==◌, Bool-cases, length,
}
use sidevers_protocol.Common.Eq.{bytes_Eq}
use sidevers_protocol.Errors.{Result, ok, err}
use sidevers_protocol.Storage.Objects.{
  Row, ObjectStore, StorageError, insert_or_ignore, write_file, update_row, touch_last_accessed,
  pin, unpin, evict_one, evict_loop, evict_to_budget, candidates, total_bytes, return_loaded,
  get_row, load, put, get, get_range, inline_max,
}
use sidevers_protocol.Storage.Objects.Budget.{evict_to_budget-cases}
use sidevers_protocol.Storage.Objects.Refinement.{
  Command, putting, getting, ranging, evicting, pinning, unpinning, perform,
}
use sidevers_protocol.Table.{Table, lookup, insert, IsMap}
use sidevers_protocol.Table.Laws.{IsMap-insert, IsMap-remove}

insert_or_ignore-IsMap :
    (h : Bytes) (row : Row) (s : ObjectStore) → IsMap s.rows → IsMap (insert_or_ignore h row s).rows
unfolding insert_or_ignore
insert_or_ignore-IsMap h row s d = go (lookup h s.rows)
  where
    go :
        (o : Option Row)
        → (let s' : ObjectStore = elim o [
          | none ↦ record s { rows = insert h row s.rows }
          | some old ↦ s
        ] in
            IsMap s'.rows)
    go none = IsMap-insert h row s.rows d
    go (some old) = d

update_row-IsMap :
    (h : Bytes) (f : Row → Row) (s : ObjectStore) → IsMap s.rows → IsMap (update_row h f s).rows
unfolding update_row
update_row-IsMap h f s d = go (lookup h s.rows)
  where
    go :
        (o : Option Row)
        → (let s' : ObjectStore = elim o [
          | none ↦ s
          | some row ↦ record s { rows = insert h (f row) s.rows }
        ] in
            IsMap s'.rows)
    go none = d
    go (some row) = IsMap-insert h (f row) s.rows d

evict_loop-IsMap :
    (cs : Table Bytes Row) (n : ℕ) (s : ObjectStore)
    → IsMap s.rows
    → IsMap (evict_loop cs n s).1.rows
unfolding evict_loop evict_one
evict_loop-IsMap [] n s d = d
evict_loop-IsMap ((h, row) ∷ cs) n s d = elim (Bool-cases (n == 0)) [
  | inl x ↦ rw x d
  | inr x ↦ rw x (evict_loop-IsMap cs (n - row.size) (evict_one h s) (IsMap-remove h s.rows d))
]

pub evict_to_budget-IsMap : (s : ObjectStore) → IsMap s.rows → IsMap (evict_to_budget s).1.rows
evict_to_budget-IsMap s d = elim (evict_to_budget-cases s) [
  | inl p ↦ subst (λ (t : ObjectStore). IsMap t.rows) (sym p) d
  | inr p ↦
      subst (λ (t : ObjectStore). IsMap t.rows) (sym p)
        (evict_loop-IsMap (candidates s) (total_bytes s - s.max_bytes) s d)
]

module _ (blake3 : Bytes → Bytes) where
  get-IsMap :
      (now : ℕ) (h : Bytes) (s : ObjectStore) → IsMap s.rows → IsMap (get blake3 now h s).1.rows
  unfolding get get_row return_loaded touch_last_accessed
  get-IsMap now h s d = go (lookup h s.rows)
    where
      loaded : (r : Result StorageError Bytes) → IsMap (return_loaded now h s r).1.rows
      loaded (ok b) = update_row-IsMap h _ s d
      loaded (err e) = d

      go :
          (o : Option Row)
          → (let r : Result StorageError (Option Bytes) × ObjectStore = elim o [
            | none ↦ (ok none, s)
            | some row ↦ get_row blake3 now h row s
          ] in
              IsMap r.1.rows)
      go none = d
      go (some row) = loaded (load blake3 h row s)

  put-IsMap :
      (now : ℕ) (b : Bytes) (s : ObjectStore) → IsMap s.rows → IsMap (put blake3 now b s).1.rows
  unfolding put write_file
  put-IsMap now b s d = elim (Bool-cases (leb (length b) inline_max)) [
    | inl x ↦ rw x (insert_or_ignore-IsMap (blake3 b) _ s d)
    | inr x ↦
        rw x
          (insert_or_ignore-IsMap (blake3 b) _ (record s { files = insert (blake3 b) b s.files }) d)
  ]

  pub perform-IsMap :
      (c : Command) (s : ObjectStore) → IsMap s.rows → IsMap (perform blake3 c s).1.rows
  unfolding pin unpin get_range evict_one
  perform-IsMap (putting now b) s d = put-IsMap now b s d
  perform-IsMap (getting now h) s d = get-IsMap now h s d
  perform-IsMap (ranging now h first stop) s d = get-IsMap now h s d
  perform-IsMap (evicting h) s d = IsMap-remove h s.rows d
  perform-IsMap (pinning h) s d = update_row-IsMap h _ s d
  perform-IsMap (unpinning h) s d = update_row-IsMap h _ s d
