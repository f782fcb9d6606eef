-- ===== src/Replay/Oldest.antt =====
-- The entry that `find_oldest_in` of crates/sidevers-core/src/replay.rs picks.
use sidevers_protocol.Common.{
  ℕ, suc, ◌≤◌, ◌<◌, ◌≡◌, inl, inr, some, [], ◌∷◌, arith, ltb, leb, if◌then◌else◌, Bool-cases,
  length,
}
use sidevers_protocol.Replay.{Key, key_Eq, oldest_of}
use sidevers_protocol.Table.{Table, lookup, IsMap}
use sidevers_protocol.Table.Laws.{lookup-cons, lookup-front, lookup-skip}

-- The least time in a map.
unfoldable pub oldest_time : ℕ → Table Key ℕ → ℕ
oldest_time t [] = t
oldest_time t ((j, u) ∷ m) = if ltb u t then oldest_time u m else oldest_time t m

-- How many entries are no older than `t`.
unfoldable pub count_since : ℕ → Table Key ℕ → ℕ
count_since t [] = 0
count_since t ((j, u) ∷ m) = let rest = count_since t m in if leb t u then suc rest else rest

-- The key that is picked is in the map, with the least time.
pub lookup-oldest :
    (k : Key) (t : ℕ) (m : Table Key ℕ)
    → IsMap ((k, t) ∷ m)
    → lookup (oldest_of k t m) ((k, t) ∷ m) ≡ some (oldest_time t m)
unfolding oldest_of oldest_time
lookup-oldest k t [] h = lookup-front k t []
lookup-oldest k t ((j, u) ∷ m) h = elim (Bool-cases (ltb u t)) [
  | inl x ↦ rw x (lookup-cons (oldest_of j u m) k t ((j, u) ∷ m) h.0 (lookup-oldest j u m h.1))
  | inr x ↦ rw x (lookup-skip (oldest_of k t m) k j t u m h (lookup-oldest k t m (h.0.1, h.1.1)))
]

oldest_time-le : (t : ℕ) (m : Table Key ℕ) → oldest_time t m ≤ t
unfolding oldest_time
oldest_time-le t [] = omega arith
oldest_time-le t ((j, u) ∷ m) = ground (arith, oldest_time-le u m, oldest_time-le t m)

-- Where an entry is older than `s`, so is the oldest.
oldest-lt : (s t : ℕ) (m : Table Key ℕ) → count_since s m < length m → oldest_time t m < s
unfolding oldest_time count_since
oldest-lt s t [] h = absurd (omega arith)
oldest-lt s t ((j, u) ∷ m) h =
    ground (arith, oldest_time-le u m, oldest_time-le t m, oldest-lt s u m, oldest-lt s t m)

pub oldest-lt_cons :
    (s t : ℕ) (k : Key) (m : Table Key ℕ)
    → count_since s ((k, t) ∷ m) < length ((k, t) ∷ m)
    → oldest_time t m < s
unfolding count_since
oldest-lt_cons s t k m h = ground (arith, oldest_time-le t m, oldest-lt s t m)
