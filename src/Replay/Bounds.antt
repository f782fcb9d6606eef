-- ===== src/Replay/Bounds.antt =====
-- The bound on the entries of the replay cache of crates/sidevers-core/src/replay.rs.
use sidevers_protocol.Common.{
  ℕ, ◌≤◌, ◌<◌, arith, length, zero, suc, ◌+◌, ◌-◌, ◌≡◌, refl, ap, inl, inr, Option, none, some,
  List, [], ◌∷◌, ltb, leb, Bool-cases,
}
use sidevers_protocol.Replay.{
  Key, key_Eq, ReplayCache, with_capacity, find_oldest_in, sweep, evict_key, make_room, alive,
  drop_oldest, oldest_of, enter, insert_new, observe, preload_entries, trim, preload,
}
use sidevers_protocol.Replay.Oldest.{lookup-oldest}
use sidevers_protocol.Table.{IsMap, Table, insert, remove}
use sidevers_protocol.Table.Laws.{
  IsMap-retain, length-retain-le, IsMap-insert, IsMap-remove, length-insert-le, length-remove-lt,
}

-- The keys are distinct and there are at most `max_entries` of them.
abbrev pub IsBounded : ReplayCache → Type 0
IsBounded s = IsMap s.entries × (1 ≤ s.max_entries) × (length s.entries ≤ s.max_entries)

drop_oldest-IsMap : (m : Table Key ℕ) → IsMap m → IsMap (drop_oldest m)
unfolding drop_oldest
drop_oldest-IsMap [] h = tt
drop_oldest-IsMap ((k, t) ∷ m) h = IsMap-remove (oldest_of k t m) ((k, t) ∷ m) h

length-drop_oldest : (m : Table Key ℕ) → IsMap m → 1 ≤ length m → length (drop_oldest m) < length m
unfolding drop_oldest
length-drop_oldest [] h n = absurd (omega arith)
length-drop_oldest ((k, t) ∷ m) h n =
    length-remove-lt (oldest_of k t m) ((k, t) ∷ m) (lookup-oldest k t m h)

pub evict_key-entries :
    (s : ReplayCache) (m : Table Key ℕ)
    → s.entries ≡ m
    → (evict_key (find_oldest_in m) s).entries ≡ drop_oldest m
unfolding evict_key find_oldest_in drop_oldest
evict_key-entries s [] e = e
evict_key-entries s ((k, t) ∷ m) e = ap (remove (oldest_of k t m)) e

evict_key-max_entries :
    (s : ReplayCache) (k : Option Key) → (evict_key k s).max_entries ≡ s.max_entries
unfolding evict_key
evict_key-max_entries s none = refl
evict_key-max_entries s (some k) = refl

-- The room that is made is an entry.
pub make_room-fits :
    (s : ReplayCache)
    → IsBounded s
    → ((make_room s).max_entries ≡ s.max_entries)
      × IsMap (make_room s).entries
      × (length (make_room s).entries < s.max_entries)
unfolding make_room
make_room-fits s (h, room, n) = elim (Bool-cases (leb s.max_entries (length s.entries))) [
  | inl x ↦
      let le : s.max_entries ≤ length s.entries = ground arith in
      rw x (
        rw (evict_key-entries s s.entries refl) (
          evict_key-max_entries s (find_oldest_in s.entries),
          drop_oldest-IsMap s.entries h,
          (let lt = length-drop_oldest s.entries h (omega arith) in omega arith),
        ))
  | inr x ↦ rw x (refl, h, ground arith)
]

with_capacity-IsBounded : (ttl n : ℕ) → IsBounded (with_capacity ttl n)
unfolding with_capacity
with_capacity-IsBounded ttl n = (tt, omega arith, omega arith)

pub sweep-IsBounded : (now : ℕ) (s : ReplayCache) → IsBounded s → IsBounded (sweep now s)
unfolding sweep
sweep-IsBounded now s (h, room, n) =
    let le = length-retain-le (λ (_ : Key) t. alive s.ttl now t) s.entries in
    (IsMap-retain _ s.entries h, room, omega arith)

pub enter-IsBounded :
    (now : ℕ) (k : Key) (s : ReplayCache) (found : Option ℕ)
    → IsBounded s
    → IsBounded (enter now k s found).0
unfolding enter insert_new
enter-IsBounded now k s (some t) h = h
enter-IsBounded now k s none h =
    let (same, map, fits) = make_room-fits s h in
    let le = length-insert-le k now (make_room s).entries in
    (IsMap-insert k now (make_room s).entries map, rw same h.1, omega arith)

-- From a cache with distinct keys and at most `max_entries` of them, where that is at least one, an
-- observation gives such a cache.
pub observe-IsBounded :
    (now : ℕ) (k : Key) (s : ReplayCache) → IsBounded s → IsBounded (observe now k s).0
unfolding observe
observe-IsBounded now k s h = enter-IsBounded now k (sweep now s) _ (sweep-IsBounded now s h)

preload_entries-IsMap :
    (ttl now : ℕ) (es : List (Key × ℕ)) (m : Table Key ℕ)
    → IsMap m
    → IsMap (preload_entries ttl now es m)
unfolding preload_entries
preload_entries-IsMap ttl now [] m h = h
preload_entries-IsMap ttl now ((k, t) ∷ es) m h = elim (Bool-cases (leb ttl (now - t))) [
  | inl x ↦ rw x (preload_entries-IsMap ttl now es m h)
  | inr x ↦ rw x (preload_entries-IsMap ttl now es (insert k t m) (IsMap-insert k t m h))
]

-- With fuel for each entry above the bound, the trimming stops within the bound.
trim-fits :
    (fuel n : ℕ) (m : Table Key ℕ)
    → IsMap m
    → length m ≤ fuel + n
    → IsMap (trim fuel n m) × (length (trim fuel n m) ≤ n)
unfolding trim
trim-fits zero n m h le = (h, omega arith)
trim-fits (suc fuel) n m h le = elim (Bool-cases (ltb n (length m))) [
  | inl x ↦
      let over : n < length m = ground arith in
      let lt = length-drop_oldest m h (omega arith) in
      rw x (trim-fits fuel n (drop_oldest m) (drop_oldest-IsMap m h) (omega arith))
  | inr x ↦ rw x (h, ground arith)
]

-- From a cache with distinct keys and a bound of at least one, loading any journal gives a cache
-- with distinct keys and at most `max_entries` of them.
pub preload-IsBounded :
    (now : ℕ) (es : List (Key × ℕ)) (s : ReplayCache)
    → IsMap s.entries
    → 1 ≤ s.max_entries
    → IsBounded (preload now es s)
unfolding preload
preload-IsBounded now es s h room =
    let loaded = preload_entries s.ttl now es s.entries in
    let (map, le) =
      trim-fits (length loaded) s.max_entries loaded
        (preload_entries-IsMap s.ttl now es s.entries h) (omega arith) in
    (map, room, le)
