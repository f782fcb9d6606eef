-- ===== src/Replay.antt =====
-- crates/sidevers-core/src/replay.rs: the replay cache. The map is a `Table`, whose order stands for
-- the hash map's order of iteration. The journal, where one is attached, is the list of the calls
-- made to it, the latest last.
pub mod Oldest
pub mod Bounds
pub mod Reports
pub mod Detect
pub mod Journal
use sidevers_protocol.Cbor.Writer.{Bytes}
use sidevers_protocol.Common.{
  ℕ, zero, suc, ◌-◌, max, Bool, true, false, Option, none, some, List, [], ◌∷◌, ◌++◌, ltb, leb,
  if◌then◌else◌, length,
}
use sidevers_protocol.Common.Eq.{Eq, bytes_Eq, pair_eq}
use sidevers_protocol.Table.{Table, lookup, insert, remove, retain}

abbrev pub default_ttl_secs : ℕ
default_ttl_secs = 600

abbrev pub default_max_entries : ℕ
default_max_entries = 16384

-- `Key { from, nonce }`
abbrev pub Key : Type 0
Key = Bytes × Bytes

instance abbrev pub key_Eq : Eq Key
key_Eq = pair_eq

-- The calls of `ReplayJournal`.
pub data JournalCall : Type 0 where
  record_call : Key → ℕ → JournalCall
  evict_call : Key → JournalCall

pub record ReplayCache : Type 0 where
  pub ttl : ℕ
  pub max_entries : ℕ
  pub entries : Table Key ℕ
  pub journal : Option (List JournalCall)

-- `max_entries.max(1)`
unfoldable pub with_capacity : ℕ → ℕ → ReplayCache
with_capacity ttl_secs max_entries = record {
  ttl = ttl_secs;
  max_entries = max max_entries 1;
  entries = [];
  journal = none;
}

unfoldable pub set_journal : ReplayCache → ReplayCache
set_journal s = record s { journal = some [] }

unfoldable pub call : JournalCall → Option (List JournalCall) → Option (List JournalCall)
call c none = none
call c (some log) = some (log ++ (c ∷ []))

-- `now.saturating_sub(first_seen) < ttl`
unfoldable pub alive : ℕ → ℕ → ℕ → Bool
alive ttl now first_seen = ltb (now - first_seen) ttl

-- The calls that `sweep` makes while `retain` visits the entries.
unfoldable pub sweep_journal :
    ℕ → ℕ → Table Key ℕ → Option (List JournalCall) → Option (List JournalCall)
sweep_journal ttl now [] j = j
sweep_journal ttl now ((k, t) ∷ m) j =
    sweep_journal ttl now m (if alive ttl now t then j else call (evict_call k) j)

unfoldable pub sweep : ℕ → ReplayCache → ReplayCache
sweep now s = record s {
  entries = retain (λ _ t. alive s.ttl now t) s.entries;
  journal = sweep_journal s.ttl now s.entries s.journal;
}

-- `min_by_key`: of several entries with the least time, the first.
unfoldable pub oldest_of : Key → ℕ → Table Key ℕ → Key
oldest_of k t [] = k
oldest_of k t ((j, u) ∷ m) = if ltb u t then oldest_of j u m else oldest_of k t m

unfoldable pub find_oldest_in : Table Key ℕ → Option Key
find_oldest_in [] = none
find_oldest_in ((k, t) ∷ m) = some (oldest_of k t m)

-- The room that a vacant `observe` makes before it inserts.
unfoldable pub evict_key : Option Key → ReplayCache → ReplayCache
evict_key none s = s
evict_key (some oldest) s = record s {
  entries = remove oldest s.entries;
  journal = call (evict_call oldest) s.journal;
}

unfoldable pub make_room : ReplayCache → ReplayCache
make_room s =
    if leb s.max_entries (length s.entries) then evict_key (find_oldest_in s.entries) s else s

unfoldable pub insert_new : ℕ → Key → ReplayCache → ReplayCache
insert_new now k s = record s {
  entries = insert k now s.entries;
  journal = call (record_call k now) s.journal;
}

-- `match self.entries.entry(key)`
unfoldable pub enter : ℕ → Key → ReplayCache → Option ℕ → ReplayCache × Bool
enter now k s none = (insert_new now k (make_room s), false)
enter now k s (some first_seen) = (s, true)

unfoldable pub observe : ℕ → Key → ReplayCache → ReplayCache × Bool
observe now k s = let swept = sweep now s in enter now k swept (lookup k swept.entries)

-- The loop of `preload` over the journaled entries, and the trimming that follows it.
unfoldable pub preload_entries : ℕ → ℕ → List (Key × ℕ) → Table Key ℕ → Table Key ℕ
preload_entries ttl now [] m = m
preload_entries ttl now ((k, t) ∷ es) m =
    preload_entries ttl now es (if leb ttl (now - t) then m else insert k t m)

unfoldable pub drop_oldest : Table Key ℕ → Table Key ℕ
drop_oldest [] = []
drop_oldest ((k, t) ∷ m) = remove (oldest_of k t m) ((k, t) ∷ m)

-- One round for each entry is enough, since each round removes one.
unfoldable pub trim : ℕ → ℕ → Table Key ℕ → Table Key ℕ
trim zero max_entries m = m
trim (suc fuel) max_entries m =
    let next = trim fuel max_entries (drop_oldest m) in
    if ltb max_entries (length m) then next else m

unfoldable pub preload : ℕ → List (Key × ℕ) → ReplayCache → ReplayCache
preload now es s =
    let loaded = preload_entries s.ttl now es s.entries in
    record s { entries = trim (length loaded) s.max_entries loaded }
