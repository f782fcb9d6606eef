-- ===== src/Storage/Objects.antt =====
-- crates/sidevers-storage/src/object.rs: the content-addressed object store. The table of SQLite is a
-- map from addresses to rows, the directory of blobs a map from addresses to the bytes of a file (a
-- path spells its address). The clock's time is an argument; a statement of SQL and a call of the file
-- system do what they promise, so that the errors of a full disk or a broken database are left out.
-- A method runs from start to end before the next.
pub mod Budget
pub mod Contents
pub mod Eviction
pub mod Keys
pub mod Pins
pub mod PutGet
pub mod Recency
pub mod Refinement
pub mod Rows
use sidevers_protocol.Cbor.Writer.{Bytes}
use sidevers_protocol.Common.{
  ℕ, suc, ◌+◌, ◌-◌, Bool, true, false, not, Option, none, some, [], ◌∷◌, ltb, leb, ◌==◌,
  if◌then◌else◌, length, take, drop,
}
use sidevers_protocol.Common.Eq.{bytes_Eq}
use sidevers_protocol.Errors.{Result, ok, err, Error, guard, ◌>>=◌, ◌>>◌}
use sidevers_protocol.Table.{Table, lookup, insert, remove, retain}

abbrev pub inline_max : ℕ
inline_max = 4096

-- A row of the table `objects` (the column `mime` is never read).
pub record Row : Type 0 where
  pub size : ℕ
  pub inline : Option Bytes
  pub pinned : Bool
  pub added_at : ℕ
  pub last_accessed : ℕ

pub record ObjectStore : Type 0 where
  pub rows : Table Bytes Row
  pub files : Table Bytes Bytes
  pub max_bytes : ℕ

-- The errors of crates/sidevers-storage/src/error.rs that the store can return, without their texts.
pub data StorageError : Type 0 where
  io hash_mismatch : StorageError
  range_out_of_bounds : ℕ → ℕ → ℕ → StorageError
  core : Error → StorageError

abbrev pub new_store : ObjectStore
new_store = record { rows = []; files = []; max_bytes = 0 }

unfoldable pub set_max_bytes : ℕ → ObjectStore → ObjectStore
set_max_bytes n s = record s { max_bytes = n }

-- `SELECT COALESCE(SUM(size), 0)`
unfoldable pub sum_sizes : Table Bytes Row → ℕ
sum_sizes [] = 0
sum_sizes ((h, row) ∷ rows) = row.size + sum_sizes rows

unfoldable pub total_bytes : ObjectStore → ℕ
total_bytes s = sum_sizes s.rows

-- `INSERT OR IGNORE`
unfoldable pub insert_or_ignore : Bytes → Row → ObjectStore → ObjectStore
insert_or_ignore h row s = elim (lookup h s.rows) [
  | none ↦ record s { rows = insert h row s.rows }
  | some old ↦ s
]

unfoldable pub new_row : ℕ → ℕ → Option Bytes → Row
new_row now size inline = record {
  size = size;
  inline = inline;
  pinned = false;
  added_at = now;
  last_accessed = now;
}

unfoldable pub write_file : Bytes → Bytes → ObjectStore → ObjectStore
write_file h contents s = record s { files = insert h contents s.files }

unfoldable pub has : Bytes → ObjectStore → Bool
has h s = elim (lookup h s.rows) [ none ↦ false | some row ↦ true ]

unfoldable pub size : Bytes → ObjectStore → Option ℕ
size h s = elim (lookup h s.rows) [ none ↦ none | some row ↦ some row.size ]

-- An `UPDATE` of the row of an address.
unfoldable pub update_row : Bytes → (Row → Row) → ObjectStore → ObjectStore
update_row h f s = elim (lookup h s.rows) [
  | none ↦ s
  | some row ↦ record s { rows = insert h (f row) s.rows }
]

unfoldable pub touch_last_accessed : ℕ → Bytes → ObjectStore → ObjectStore
touch_last_accessed now h s = update_row h (λ row. record row { last_accessed = now }) s

unfoldable pub pin : Bytes → ObjectStore → ObjectStore
pin h s = update_row h (λ row. record row { pinned = true }) s

unfoldable pub unpin : Bytes → ObjectStore → ObjectStore
unpin h s = update_row h (λ row. record row { pinned = false }) s

unfoldable pub evict_one : Bytes → ObjectStore → ObjectStore
evict_one h s = record s { rows = remove h s.rows; files = remove h s.files }

-- What the file system reads at the path of an address.
unfoldable pub read_file : Bytes → ObjectStore → Result StorageError Bytes
read_file h s = elim (lookup h s.files) [ none ↦ err io | some contents ↦ ok contents ]

unfoldable pub row_bytes : Bytes → Row → ObjectStore → Result StorageError Bytes
row_bytes h row s = elim row.inline [ some contents ↦ ok contents | none ↦ read_file h s ]

-- `ORDER BY last_accessed ASC, added_at ASC`
abbrev pub older : Row → Row → Bool
older a b =
    if a.last_accessed == b.last_accessed
    then leb a.added_at b.added_at
    else ltb a.last_accessed b.last_accessed

unfoldable pub insert_sorted : Bytes → Row → Table Bytes Row → Table Bytes Row
insert_sorted h row [] = (h, row) ∷ []
insert_sorted h row ((j, w) ∷ m) =
    let rest = insert_sorted h row m in if older row w then (h, row) ∷ (j, w) ∷ m else (j, w) ∷ rest

unfoldable pub order_by_age : Table Bytes Row → Table Bytes Row
order_by_age [] = []
order_by_age ((h, row) ∷ m) = insert_sorted h row (order_by_age m)

abbrev pub is_unpinned : Bytes → Row → Bool
is_unpinned h row = not row.pinned

-- The rows that may go, oldest first. The table's own check keeps every address at 32 bytes.
unfoldable pub candidates : ObjectStore → Table Bytes Row
candidates s = order_by_age (retain is_unpinned s.rows)

-- The loop of `evict_to_budget`, on the candidates that are left and `bytes_to_drop`: the count, the
-- bytes and the store.
unfoldable pub evict_loop : Table Bytes Row → ℕ → ObjectStore → (ℕ × ℕ) × ObjectStore
evict_loop [] bytes_to_drop s = ((0, 0), s)
evict_loop ((h, row) ∷ cs) bytes_to_drop s =
    let ((count, dropped), s') = evict_loop cs (bytes_to_drop - row.size) (evict_one h s) in
    if bytes_to_drop == 0 then ((0, 0), s) else ((suc count, row.size + dropped), s')

unfoldable pub evict_to_budget : ObjectStore → (ℕ × ℕ) × ObjectStore
evict_to_budget s =
    if s.max_bytes == 0
    then ((0, 0), s)
    else if leb (total_bytes s) s.max_bytes
    then ((0, 0), s)
    else evict_loop (candidates s) (total_bytes s - s.max_bytes) s

-- What `get` returns for bytes that passed the check, and the store in which their row is touched.
unfoldable pub return_loaded :
    ℕ
    → Bytes
    → ObjectStore
    → Result StorageError Bytes
    → Result StorageError (Option Bytes) × ObjectStore
return_loaded now h s (ok contents) = (ok (some contents), touch_last_accessed now h s)
return_loaded now h s (err e) = (err e, s)

-- `&whole[start..end]` with its check.
unfoldable pub slice : ℕ → ℕ → Bytes → Result StorageError Bytes
slice first stop whole =
    if ltb stop first
    then err (range_out_of_bounds first stop (length whole))
    else if ltb (length whole) stop
    then err (range_out_of_bounds first stop (length whole))
    else ok (take (stop - first) (drop first whole))

unfoldable pub slice_of :
    ℕ → ℕ → Result StorageError (Option Bytes) → Result StorageError (Option Bytes)
slice_of first stop (err e) = err e
slice_of first stop (ok none) = ok none
slice_of first stop (ok (some whole)) = slice first stop whole >>= λ contents. ok (some contents)

module _ (blake3 : Bytes → Bytes) where
  unfoldable pub put : ℕ → Bytes → ObjectStore → Bytes × ObjectStore
  put now contents s =
      let h = blake3 contents in
      if leb (length contents) inline_max
      then (h, insert_or_ignore h (new_row now (length contents) (some contents)) s)
      else (h, insert_or_ignore h (new_row now (length contents) none) (write_file h contents s))

  unfoldable pub verify_hash : Bytes → Bytes → Result StorageError (Unit {0})
  verify_hash contents expected = guard (bytes_Eq.beq (blake3 contents) expected) hash_mismatch

  -- The bytes of a row, checked.
  unfoldable pub load : Bytes → Row → ObjectStore → Result StorageError Bytes
  load h row s = row_bytes h row s >>= λ contents. verify_hash contents h >> ok contents

  unfoldable pub get_row :
      ℕ → Bytes → Row → ObjectStore → Result StorageError (Option Bytes) × ObjectStore
  get_row now h row s = return_loaded now h s (load h row s)

  unfoldable pub get : ℕ → Bytes → ObjectStore → Result StorageError (Option Bytes) × ObjectStore
  get now h s = elim (lookup h s.rows) [ none ↦ (ok none, s) | some row ↦ get_row now h row s ]

  unfoldable pub get_range :
      ℕ → Bytes → ℕ → ℕ → ObjectStore → Result StorageError (Option Bytes) × ObjectStore
  get_range now h first stop s = let (r, s') = get now h s in (slice_of first stop r, s')
